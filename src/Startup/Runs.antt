-- ===== src/Startup/Runs.antt =====
-- cmd/cmd/run.go: the whole run of the program, its deferred stop included.
use device_network.Prelude.{ℕ, suc, ◌≡◌, refl, ap, ◌∙◌, true, some, [], ◌∷◌, ◌++◌}
use device_network.Prelude.Results.{ok}
use device_network.Prelude.Exec.{Exec}
use device_network.Prelude.Triples.{Triple, then, wrapping, from}
use device_network.Startup.{
  waited_for_end, stopped_plugin, Actions, Outside, RunOptions, stop_driver, stopping,
  run_with_driver, run,
}
use device_network.Startup.Ordered.{allowed, IsOrdered}
use device_network.Startup.Prepared.{
  Exactly, attempt-Exactly, new_device_cache-Triple, new_resolver-Triple,
}
use device_network.Startup.Driven.{
  Polls, Answers, IsDriven, with_plugin, with_questions, start_driver-Triple,
}
use device_network.Startup.Launched.{IsRunning, Since, with_parts, run_with_driver-Triple}

-- The whole history of a run that came to its end, latest first: the driver was asked for its
-- registration until this was confirmed, and each other action was done once, in this order.
pub record IsComplete (o : Outside) (ro : RunOptions) (h : Actions) : Type 0 where
  pub before : ℕ
  pub start : Actions
  pub start_done :
      start ≡ with_questions (suc before) (with_plugin o ro.dra_driver_name ro.node_name)
  pub history : h ≡ stopped_plugin ∷ waited_for_end ∷ with_parts ++ start
  pub registered : o.registration_status start ≡ some true

module _ (o : Outside) where
  stopped-IsOrdered : (h : Actions) → IsRunning h → IsOrdered (stop_driver h)
  unfolding stop_driver IsOrdered allowed
  stopped-IsOrdered h r = (rw (r.plugin_runs) (rw (r.plugin_not_stopped) refl), r.ordered)

  stopping-Triple :
      {P Q : Actions → Type 0} (m : Exec Actions (Unit {0}))
      → Triple IsRunning P m Q
      → Triple IsOrdered P (stopping m) (λ h. (t : Actions) × (h ≡ stop_driver t) × Q t)
  stopping-Triple m a = record {
    keeps = λ h p. stopped-IsOrdered (m h).1 (a.keeps h p);
    brings = λ h p e. ((m h).1, refl, a.brings h p e);
  }

  module _ (polls : Polls o) (ro : RunOptions) where
    driven-Since :
        (h : Actions)
        → IsDriven o ro.dra_driver_name ro.node_name h
        → Since o ro.dra_driver_name ro.node_name [] h
    driven-Since h d = record {
      start = h;
      split = refl;
      driven = d;
      is_running = record {
        ordered = d.ready.ordered;
        plugin_runs = d.ready.plugin_runs;
        plugin_not_stopped = d.ready.plugin_not_stopped;
      };
    }

    run-Triple : Triple IsOrdered (Exactly []) (run o ro) (λ h.
        (t : Actions) × (h ≡ stop_driver t)
        × Since o ro.dra_driver_name ro.node_name (waited_for_end ∷ with_parts) t)
    unfolding run allowed
    run-Triple = then (attempt-Exactly o _ _ _ refl) (
        then (attempt-Exactly o _ _ _ refl) (
          then (attempt-Exactly o _ _ _ refl) (
            then (wrapping _ (new_device_cache-Triple o)) (
              then (wrapping _ (new_resolver-Triple o)) (
                then (wrapping _ (start_driver-Triple o polls ro.dra_driver_name ro.node_name)) (
                  from driven-Since (
                    stopping-Triple (run_with_driver o)
                      (run_with_driver-Triple o ro.dra_driver_name ro.node_name))))))))

    -- When a poll does nothing but call its condition, on every path of a run, whichever calls fail:
    -- indexers and event handlers are added to informers that are requested from their factory and not
    -- started yet, a factory starts an informer that was requested, the goroutines are launched after
    -- the waits for the caches of the three informers, which follow their starts, and after the start
    -- of the kubelet plugin, and a stop of the plugin comes after its start and after no other stop.
    pub run-IsOrdered : IsOrdered (run o ro []).1
    unfolding IsOrdered
    run-IsOrdered = run-Triple.keeps [] (refl, tt)

    -- When a poll does nothing but call its condition, and succeeds only with a last answer that is true, a
    -- run that returns without an error has this history, and nothing
    -- else in it: the configuration and the clients, the informers of the cache and of the resolver
    -- with its indexer, the plugin's directory, the start of the plugin under the names of the options,
    -- then one or more questions for its registration, after the last of which the plugin was
    -- registered, then the controller's informers and handlers, the starts of the three informers and
    -- the waits for their caches, the launches of the four goroutines, the wait for the end, and the
    -- stop of the plugin, in this order.
    pub run-IsComplete : Answers o → (run o ro []).0 ≡ ok tt → IsComplete o ro (run o ro []).1
    unfolding IsOrdered stop_driver
    run-IsComplete answers e =
        let (t, stopped, since) = run-Triple.brings [] (refl, tt) e in
        let (before, more, registered) = since.driven.confirmed answers in
        record {
          before = before;
          start = since.start;
          start_done =
              since.driven.polled
              ∙ ap (λ n. with_questions n (with_plugin o ro.dra_driver_name ro.node_name)) more;
          history = stopped ∙ ap (λ x. stopped_plugin ∷ x) since.split;
          registered = registered;
        }
