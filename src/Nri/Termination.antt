-- ===== src/Nri/Termination.antt =====
-- pkg/nri/process.go: A goroutine that goes on ends, whatever else happens to the plugin.
use device_network.Prelude.{
  ℕ, suc, ◌<◌, eqb, String, Bool, true, false, Bool-cases, Option-cases, some, List, [], ◌∷◌, ◌≡◌,
  refl, subst, ◌⊎◌, inl, inr, length, if◌then◌else◌, arith,
}
use device_network.Prelude.Results.{Result, ok, err, panic, unfinished}
use device_network.Platform.{Platform, History}
use device_network.Configurators.{Configurators}
use device_network.Nri.Process.{ConfigurationProcess, opened, closed, may_proceed, is_done}
use device_network.Nri.{
  Plugin, get_elem?, set, Event, runs, starts, removes, removal_ends, begins, proceeds, goroutine,
  begin_process, stepped, proceed, handle, step, run,
}
use device_network.Nri.Within.{
  IsWithin, WithinAt, WithinAt-set, WithinAt-set_same, update_process-WithinAt,
  run_pod_sandbox-WithinAt, start_container-heap, finish_removal-heap, remove_pod_sandbox-WithinAt,
  begin_process-IsWithin, IsWithin-suc, goroutine-IsWithin,
}

module _ (p : Platform) (driver_name : String) (configurators : Configurators) where
  -- The plugin is gone, or the process is done or has fewer claims left than so many.
  Advances : Plugin → ℕ → ℕ → Type 0
  Advances pl i n = (pl.crashed ≡ true) ⊎ WithinAt pl.heap i n

  -- A step of another goroutine, and one of its own.
  stepped-Advances :
      (pl : Plugin) (i j n m : ℕ) (r : Result ConfigurationProcess × History)
      → ((next : ConfigurationProcess)
          → r.0 ≡ ok next
          → WithinAt pl.heap i n
          → WithinAt (set pl.heap j next) i m)
      → WithinAt pl.heap i n
      → Advances (stepped p driver_name configurators pl j r) i m
  unfolding Advances stepped
  stepped-Advances pl i j n m (ok next, t) k h = inr (k next refl h)
  stepped-Advances pl i j n m (err e, t) k h = inl refl
  stepped-Advances pl i j n m (panic, t) k h = inl refl
  stepped-Advances pl i j n m (unfinished, t) k h = inl refl

  proceed-Advances :
      (pl : Plugin) (i j n : ℕ)
      → WithinAt pl.heap i n
      → Advances (proceed p driver_name configurators pl j) i n
  unfolding Advances proceed
  proceed-Advances pl i j n h = elim (Option-cases (get_elem? pl.heap j)) [
    | inl e ↦ rw e (inr h)
    | inr (cp, e) ↦ rw e (
        stepped-Advances pl i j n n (goroutine p driver_name configurators cp pl.history)
          (λ next f. WithinAt-set pl.heap i j n cp next e (λ w.
            goroutine-IsWithin p driver_name configurators n cp next pl.history f
              (IsWithin-suc p driver_name configurators n cp w)))
          h)
  ]

  proceed-Advances_own :
      (pl : Plugin) (i n : ℕ)
      → WithinAt pl.heap i (suc n)
      → Advances (proceed p driver_name configurators pl i) i n
  unfolding Advances proceed WithinAt
  proceed-Advances_own pl i n (cp, e, h) = rw e (
      stepped-Advances pl i i (suc n) n (goroutine p driver_name configurators cp pl.history)
        (λ next f.
          WithinAt-set_same pl.heap i (suc n) n cp next e
            (goroutine-IsWithin p driver_name configurators n cp next pl.history f))
        (cp, e, h))

  handle-Advances :
      (pl : Plugin) (e : Event) (i n : ℕ)
      → WithinAt pl.heap i n
      → Advances (handle p driver_name configurators pl e) i n
  unfolding Advances handle
  handle-Advances pl (runs pod) i n h = inr (run_pod_sandbox-WithinAt pl pod i n h)
  handle-Advances pl (starts pod) i n h = inr (rw (start_container-heap pl pod) h)
  handle-Advances pl (removes pod) i n h = inr (remove_pod_sandbox-WithinAt pl pod i n h)
  handle-Advances pl (removal_ends pod) i n h = inr (rw (finish_removal-heap pl pod) h)
  handle-Advances pl (begins j) i n h = inr (
      update_process-WithinAt pl i j n (begin_process p driver_name configurators)
        (begin_process-IsWithin p driver_name configurators n) h)
  handle-Advances pl (proceeds j) i n h = proceed-Advances pl i j n h

-- Whether an event is a step of the goroutine of a process.
unfoldable pub is_step : ℕ → Event → Bool
is_step i (proceeds j) = eqb i j
is_step i _ = false

-- How many steps of the goroutine there are among the events.
unfoldable pub steps : ℕ → List Event → ℕ
unfolding is_step
steps i [] = 0
steps i (e ∷ es) = if is_step i e then suc (steps i es) else steps i es

module _ (p : Platform) (driver_name : String) (configurators : Configurators) where
  handle-Advances_own :
      (pl : Plugin) (e : Event) (i n : ℕ)
      → is_step i e ≡ true
      → WithinAt pl.heap i (suc n)
      → Advances p driver_name configurators (handle p driver_name configurators pl e) i n
  unfolding is_step handle
  handle-Advances_own pl (runs pod) i n s h = absurd (cc s)
  handle-Advances_own pl (starts pod) i n s h = absurd (cc s)
  handle-Advances_own pl (removes pod) i n s h = absurd (cc s)
  handle-Advances_own pl (removal_ends pod) i n s h = absurd (cc s)
  handle-Advances_own pl (begins j) i n s h = absurd (cc s)
  handle-Advances_own pl (proceeds j) i n s h =
      let same : i ≡ j = ground arith in
      subst
        (λ k. Advances p driver_name configurators (proceed p driver_name configurators pl k) i n)
        same (proceed-Advances_own p driver_name configurators pl i n h)

  if-Advances :
      (b : Bool) (x y : Plugin) (i n : ℕ)
      → (b ≡ true → Advances p driver_name configurators x i n)
      → (b ≡ false → Advances p driver_name configurators y i n)
      → Advances p driver_name configurators (if b then x else y) i n
  if-Advances true x y i n h k = h refl
  if-Advances false x y i n h k = k refl

  step-Advances :
      (pl : Plugin) (e : Event) (i n : ℕ)
      → Advances p driver_name configurators pl i (if is_step i e then suc n else n)
      → Advances p driver_name configurators (step p driver_name configurators pl e) i n
  unfolding Advances step
  step-Advances pl e i n h =
      if-Advances pl.crashed pl (handle p driver_name configurators pl e) i n (λ gone. inl gone)
        λ alive. elim h [
          | inl gone ↦ absurd (cc)
          | inr w ↦ elim (Bool-cases (is_step i e)) [
            | inl own ↦ handle-Advances_own pl e i n own (rw own at w)
            | inr other ↦ handle-Advances p driver_name configurators pl e i n (rw other at w)
          ]
        ]

  run-Advances :
      (pl : Plugin) (es : List Event) (i : ℕ)
      → Advances p driver_name configurators pl i (steps i es)
      → Advances p driver_name configurators (run p driver_name configurators pl es) i 0
  unfolding run steps
  run-Advances pl [] i h = h
  run-Advances pl (e ∷ es) i h =
      run-Advances (step p driver_name configurators pl e) es i
        (step-Advances pl e i (steps i es) h)

  -- Once a goroutine has begun, whatever other events come between, with more steps of it than it has claims
  -- left its channel is closed, so that the wait of `terminate` for it is over, unless a goroutine has
  -- panicked.
  pub run-ends :
      (pl : Plugin) (es : List Event) (i : ℕ) (cp : ConfigurationProcess)
      → get_elem? pl.heap i ≡ some cp
      → cp.done ≡ opened
      → length cp.claims < steps i es
      → let t = run p driver_name configurators pl es in
        (t.crashed ≡ true)
        ⊎ ((last : ConfigurationProcess) × (get_elem? t.heap i ≡ some last)
            × (last.done ≡ closed)
            × (may_proceed last ≡ true))
  unfolding Advances WithinAt IsWithin may_proceed is_done
  run-ends pl es i cp e o l = elim (run-Advances pl es i (inr (cp, e, inr (o, l)))) [
    | inl gone ↦ inl gone
    | inr (last, at_end, inl c) ↦ inr (last, at_end, c, rw c refl)
    | inr (last, at_end, inr (c, fewer)) ↦ absurd (omega arith)
  ]
