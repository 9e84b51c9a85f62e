-- ===== src/Startup/Driven.antt =====
-- pkg/driver/driver.go: the start of the driver, and the poll for its registration.
use device_network.Prelude.{
  ℕ, zero, suc, ap, ◌≡◌, refl, sym, ◌∙◌, Bool, true, false, Option-cases, some, inl, inr, [], ◌∷◌,
  String,
}
use device_network.Prelude.Results.{ok}
use device_network.Prelude.Exec.{Exec}
use device_network.Prelude.Triples.{Triple, then, from}
use device_network.Startup.{
  network_informer, slice_informer, device_informer, made_directory, started_plugin,
  asked_registration, Actions, Outside, is_registered, start_driver,
}
use device_network.Startup.Ordered.{
  same_informer, requests, starts, starts_plugin, stops_plugin, has, allowed, IsOrdered,
}
use device_network.Startup.Prepared.{Exactly, with_resolver, attempt-Exactly}

-- What is known after a start of the driver: the informers that are requested, and that none runs.
pub record IsReady (h : Actions) : Type 0 where
  pub ordered : IsOrdered h
  pub network_requested : has (requests network_informer) h ≡ true
  pub slice_requested : has (requests slice_informer) h ≡ true
  pub device_requested : has (requests device_informer) h ≡ true
  pub network_waits : has (starts network_informer) h ≡ false
  pub device_waits : has (starts device_informer) h ≡ false
  pub plugin_runs : has starts_plugin h ≡ true
  pub plugin_not_stopped : has stops_plugin h ≡ false

-- The states that calls of a poll's condition lead to.
pub data Called (condition : Exec Actions Bool) (h : Actions) : Actions → Type 0 where
  not_yet : Called condition h h
  again : {t : Actions} → Called condition h t → Called condition h (condition t).1

-- What a poll of k8s.io/apimachinery does: it calls the condition, any number of times, and nothing else.
pub record Polls (o : Outside) : Type 0 where
  pub reached :
      (condition : Exec Actions Bool) (h : Actions)
      → Called condition h (o.poll_until condition h).1

-- When a poll succeeds, its last call of the condition was true.
pub record Answers (o : Outside) : Type 0 where
  pub answered :
      (condition : Exec Actions Bool) (h : Actions)
      → (o.poll_until condition h).0 ≡ ok tt
      → (before : Actions) × Called condition h before
        × ((condition before).0 ≡ ok true)
        × ((o.poll_until condition h).1 ≡ (condition before).1)

-- The plugin path and the kubelet plugin, after the resolver.
abbrev pub with_plugin : Outside → String → String → Actions
with_plugin o driver_name node_name =
    started_plugin driver_name node_name
    ∷ made_directory (o.join ("/var/lib/kubelet/plugins/" ∷ driver_name ∷ []))
    ∷ with_resolver

-- So many questions for the registration.
abbrev pub with_questions : ℕ → Actions → Actions
with_questions zero h = h
with_questions (suc n) h = asked_registration ∷ with_questions n h

-- The driver has been started, and its registration asked for; when polls answer as documented, the last
-- answer was that the plugin is registered.
pub record IsDriven (o : Outside) (driver_name node_name : String) (h : Actions) : Type 0 where
  pub ready : IsReady h
  pub questions : ℕ
  pub polled : h ≡ with_questions questions (with_plugin o driver_name node_name)
  pub confirmed :
      Answers o → (before : ℕ) × (questions ≡ suc before) × (o.registration_status h ≡ some true)

asked-IsReady : (h : Actions) → IsReady h → IsReady (asked_registration ∷ h)
unfolding IsOrdered allowed has
asked-IsReady h r = record {
  ordered = (refl, r.ordered);
  network_requested = r.network_requested;
  slice_requested = r.slice_requested;
  device_requested = r.device_requested;
  network_waits = r.network_waits;
  device_waits = r.device_waits;
  plugin_runs = r.plugin_runs;
  plugin_not_stopped = r.plugin_not_stopped;
}

module _ (o : Outside) (polls : Polls o) (driver_name node_name : String) where
  -- A call of the condition asks, and tells the status that it finds.
  is_registered-asks : (h : Actions) → (is_registered o h).1 ≡ asked_registration ∷ h
  unfolding is_registered
  is_registered-asks h = elim (Option-cases (o.registration_status (asked_registration ∷ h))) [
    | inl e ↦ rw e refl
    | inr (b, e) ↦ rw e refl
  ]

  was_registered :
      (h : Actions)
      → (is_registered o h).0 ≡ ok true
      → o.registration_status (asked_registration ∷ h) ≡ some true
  unfolding is_registered
  was_registered h e = elim (Option-cases (o.registration_status (asked_registration ∷ h))) [
    | inl n ↦ absurd (cc (rw n at e))
    | inr (b, n) ↦ n ∙ cc (rw n at e)
  ]

  -- The plugin has been started, and so often asked for.
  record IsAsked (questions : ℕ) (h : Actions) : Type 0 where
    ready : IsReady h
    polled : h ≡ with_questions questions (with_plugin o driver_name node_name)

  ask-IsAsked : {n : ℕ} {h : Actions} → IsAsked n h → IsAsked (suc n) (is_registered o h).1
  ask-IsAsked {n} {h} a = rw (is_registered-asks h) (record {
    ready = asked-IsReady h a.ready;
    polled = ap (λ t. asked_registration ∷ t) a.polled;
  })

  Called-IsAsked :
      {h t : Actions} → Called (is_registered o) h t → IsAsked zero h → (n : ℕ) × IsAsked n t
  Called-IsAsked not_yet a = (zero, a)
  Called-IsAsked (again c) a = let (n, b) = Called-IsAsked c a in (suc n, ask-IsAsked b)

  last_answer :
      {h : Actions}
      → IsAsked zero h
      → (o.poll_until (is_registered o) h).0 ≡ ok tt
      → Answers o
      → (n : ℕ) × IsAsked (suc n) (o.poll_until (is_registered o) h).1
        × (o.registration_status (o.poll_until (is_registered o) h).1 ≡ some true)
  last_answer {h} a e answers =
      let (before, c, true_, final) = answers.answered (is_registered o) h e in
      let (n, b) = Called-IsAsked c a in
      (
        n,
        rw final (ask-IsAsked b),
        rw final (rw (is_registered-asks before) (was_registered before true_)),
      )

  with_questions-injective :
      (n k : ℕ)
      → with_questions n (with_plugin o driver_name node_name)
        ≡ with_questions k (with_plugin o driver_name node_name)
      → n ≡ k
  with_questions-injective zero zero e = refl
  with_questions-injective zero (suc k) e = absurd (cc e)
  with_questions-injective (suc n) zero e = absurd (cc e)
  with_questions-injective (suc n) (suc k) e = ap suc (with_questions-injective n k (cc e))

  poll-Triple :
      Triple IsOrdered
        (IsAsked zero)
        (o.poll_until (is_registered o))
        (IsDriven o driver_name node_name)
  poll-Triple = record {
    keeps = λ h a. (Called-IsAsked (polls.reached (is_registered o) h) a).1.ready.ordered;
    brings = λ h a e.
        let (n, b) = Called-IsAsked (polls.reached (is_registered o) h) a in
        record {
          ready = b.ready;
          questions = n;
          polled = b.polled;
          confirmed = λ answers.
              let (k, c, registered) = last_answer a e answers in
              (k, with_questions-injective n (suc k) (sym b.polled ∙ c.polled), registered);
        };
  }

  started-IsAsked : (h : Actions) → Exactly (with_plugin o driver_name node_name) h → IsAsked zero h
  unfolding has same_informer
  started-IsAsked h (e, ordered) = record {
    ready = record {
      ordered = ordered;
      network_requested = rw e refl;
      slice_requested = rw e refl;
      device_requested = rw e refl;
      network_waits = rw e refl;
      device_waits = rw e refl;
      plugin_runs = rw e refl;
      plugin_not_stopped = rw e refl;
    };
    polled = e;
  }

  pub start_driver-Triple :
      Triple IsOrdered
        (Exactly with_resolver)
        (start_driver o driver_name node_name)
        (IsDriven o driver_name node_name)
  unfolding start_driver allowed
  start_driver-Triple =
      then (attempt-Exactly o _ _ _ refl)
        (then (attempt-Exactly o _ _ _ refl) (from started-IsAsked poll-Triple))
