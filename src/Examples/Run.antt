-- ===== src/Examples/Run.antt =====
-- A run of the program on which every call succeeds.
use device_network.Prelude.{Bool, true, false, some, [], ◌≡◌, refl}
use device_network.Prelude.Results.{Result, ok, err, panic, unfinished}
use device_network.Startup.{
  Outside, new_run_options, new_device_cache, new_resolver, start_driver,
  new_device_network_controller, start_informers, launch_parts, run_with_driver, is_registered, run,
}
use device_network.Startup.Ordered.{IsOrdered}
use device_network.Startup.Driven.{not_yet, again, Polls, Answers}
use device_network.Startup.Runs.{IsComplete, run-IsOrdered, run-IsComplete}

abbrev answer : Result Bool → Result (Unit {0})
answer (ok true) = ok tt
answer (ok false) = err "timed out"
answer (err e) = err e
answer panic = panic
answer unfinished = unfinished

-- The condition is asked once.
abbrev outside : Outside
outside = record {
  succeeds = λ h a. true;
  registration_status = λ h. some true;
  join = λ parts. "";
  poll_until = λ condition h. let (r, t) = condition h in (answer r, t);
}

answer-ok : (r : Result Bool) → answer r ≡ ok tt → r ≡ ok true
answer-ok (ok true) e = refl
answer-ok (ok false) e = absurd (cc e)
answer-ok (err m) e = absurd (cc e)
answer-ok panic e = absurd (cc e)
answer-ok unfinished e = absurd (cc e)

polls : Polls outside
polls = record { reached = λ condition h. again not_yet }

answers : Answers outside
answers = record { answered = λ condition h e. (h, not_yet, answer-ok (condition h).0 e, refl) }

run-IsOrdered_example : IsOrdered (run outside new_run_options []).1
run-IsOrdered_example = run-IsOrdered outside polls new_run_options

succeeds : (run outside new_run_options []).0 ≡ ok tt
unfolding run new_device_cache new_resolver start_driver is_registered run_with_driver
    new_device_network_controller start_informers launch_parts
succeeds = refl

run-IsComplete_example : IsComplete outside new_run_options (run outside new_run_options []).1
run-IsComplete_example = run-IsComplete outside polls new_run_options answers succeeds
