-- ===== src/Controller/Latest.antt =====
-- pkg/controllers/devicenetwork/devicenetwork.go: a controller at rest and what it has published.
use device_network.Prelude.{
  ℕ, suc, String, ◌≡◌, refl, sym, subst, ◌∙◌, ◌⊎◌, inl, inr, some, arith, ap,
}
use device_network.Prelude.Results.{Result, ok, err, panic, unfinished, Result-cases}
use device_network.Kubernetes.{Node}
use device_network.Reconciler.{DriverResources, reconcile}
use device_network.Workqueue.{Workqueue, IsWorkqueue}
use device_network.Controller.{
  Worker, idle, fetched, reconciled, on_event, finish_item, Returns, State, reconcile_now, Step,
  changes, node_changes, hears, elapses, fetches, resyncs, reconciles, finishes, Reach, here, next,
}
use device_network.Controller.Reconciled.{IsLatest, reconcile-IsLatest}

-- The worker's key is that of the handlers.
abbrev pub HoldsEvent : Worker → Type 0
HoldsEvent idle = Unit
HoldsEvent (fetched key) = key ≡ "Event"
HoldsEvent (reconciled key r) = key ≡ "Event"

module _ {Q : Type 0} (w : Workqueue Q) (laws : IsWorkqueue w) where
  open laws use {
    IsOpen, Awaits, add-IsOpen, add-Awaits, add_only, get-IsOpen, get_only, get_takes,
    elapse-IsOpen, elapse_keeps, elapse_only, forget-IsOpen, forget_keeps, forget_only, done-IsOpen,
    done_keeps, done_only, add_rate_limited-IsOpen, add_rate_limited-Awaits, add_rate_limited_only,
  }

  -- What makes sure that a reconciliation is still to come, or that the program ends.
  pub data Owed (s : State Q) : Type 1 where
    unheard : (n : ℕ) → s.unheard ≡ suc n → Owed s
    awaited : Awaits s.queue "Event" → Owed s
    begun : (key : String) → s.worker ≡ fetched key → Owed s
    failed : (key e : String) → s.worker ≡ reconciled key (err e) → Owed s
    crashed :
        (key : String) (r : Result (Unit {0}))
        → s.worker ≡ reconciled key r
        → (Returns r → ⊥)
        → Owed s

  pub record IsSound (s : State Q) : Type 1 where
    pub is_open : IsOpen s.queue
    pub only_event : (j : String) → Awaits s.queue j → j ≡ "Event"
    pub holds_event : HoldsEvent s.worker
    pub owed_or_latest : Owed s ⊎ IsLatest s.inputs s.node_read s.published

  reconcile_now-IsSound :
      (s : State Q) (key : String) (publish : DriverResources → Result (Unit {0}))
      → s.worker ≡ fetched key
      → IsSound s
      → IsSound (reconcile_now s key publish)
  unfolding reconcile_now
  reconcile_now-IsSound s key publish e h = record {
    is_open = h.is_open;
    only_event = h.only_event;
    holds_event = subst HoldsEvent e h.holds_event;
    owed_or_latest =
        elim (Result-cases
          (reconcile s.inputs.reconciler s.node s.inputs.device_networks (some publish)
            s.published).0) [
              | inl (u, a) ↦ inr (reconcile-IsLatest s.inputs s.node publish s.published u a)
              | inr (inl (m, a)) ↦ inl (failed key m (ap (reconciled key) a))
              | inr (inr (inl a)) ↦ inl (crashed key _ refl (λ r. subst Returns a r))
              | inr (inr (inr a)) ↦ inl (crashed key _ refl (λ r. subst Returns a r))
            ];
  }

  -- What the handlers add.
  on_event-IsSound :
      (s : State Q) (n : ℕ)
      → IsSound s
      → IsSound (record s { unheard = n; queue = on_event w s.queue })
  unfolding on_event
  on_event-IsSound s n h = record {
    is_open = add-IsOpen "Event" s.queue h.is_open;
    only_event =
        λ j a. elim (add_only "Event" j s.queue a) [ inl e ↦ e | inr b ↦ h.only_event j b ];
    holds_event = h.holds_event;
    owed_or_latest = inl (awaited (add-Awaits "Event" s.queue h.is_open));
  }

  elapse-Owed : (s : State Q) → Owed s → Owed (record s { queue = w.elapse s.queue })
  elapse-Owed s (unheard n e) = unheard n e
  elapse-Owed s (awaited a) = awaited (elapse_keeps "Event" s.queue a)
  elapse-Owed s (begun key e) = begun key e
  elapse-Owed s (failed key m e) = failed key m e
  elapse-Owed s (crashed key r e c) = crashed key r e c

  node-Owed : (s : State Q) (n : Result Node) → Owed s → Owed (record s { node = n })
  node-Owed s n (unheard m e) = unheard m e
  node-Owed s n (awaited a) = awaited a
  node-Owed s n (begun key e) = begun key e
  node-Owed s n (failed key m e) = failed key m e
  node-Owed s n (crashed key r e c) = crashed key r e c

  -- A success settles nothing but its own reconciliation.
  succeeded-Owed :
      (s : State Q) (key : String) (u : Unit {0})
      → s.worker ≡ reconciled key (ok u)
      → Owed s
      → Owed (record s { queue = finish_item w (ok u) key s.queue; worker = idle })
  unfolding finish_item
  succeeded-Owed s key u at_end (unheard n e) = unheard n e
  succeeded-Owed s key u at_end (awaited a) =
      awaited (done_keeps key "Event" _ (forget_keeps key "Event" _ a))
  succeeded-Owed s key u at_end (begun k e) = absurd (cc)
  succeeded-Owed s key u at_end (failed k m e) = absurd (cc)
  succeeded-Owed s key u at_end (crashed k r e c) =
      let same : ok u ≡ r = cc in absurd (c (subst Returns same tt))

  finish_item-IsSound :
      (s : State Q) (key : String) (r : Result (Unit {0}))
      → s.worker ≡ reconciled key r
      → Returns r
      → IsSound s
      → IsSound (record s { queue = finish_item w r key s.queue; worker = idle })
  unfolding finish_item
  finish_item-IsSound s key (ok u) e returns h = record {
    is_open = done-IsOpen key _ (forget-IsOpen key _ h.is_open);
    only_event = λ j a. h.only_event j (forget_only key j _ (done_only key j _ a));
    holds_event = tt;
    owed_or_latest = elim h.owed_or_latest [
      | inl o ↦ inl (succeeded-Owed s key u e o)
      | inr l ↦ inr l
    ];
  }
  finish_item-IsSound s key (err m) e returns h = record {
    is_open = done-IsOpen key _ (add_rate_limited-IsOpen key _ h.is_open);
    only_event = λ j a. elim (add_rate_limited_only key j _ (done_only key j _ a)) [
      | inl same ↦ same ∙ key_is_event
      | inr b ↦ h.only_event j b
    ];
    holds_event = tt;
    owed_or_latest = inl (
        awaited (
          done_keeps key "Event" _ (
            subst (λ k. Awaits (w.add_rate_limited key s.queue) k) key_is_event
              (add_rate_limited-Awaits key s.queue h.is_open))));
  }
    where
      key_is_event : key ≡ "Event"
      key_is_event = subst HoldsEvent e h.holds_event
  finish_item-IsSound s key panic e returns h = absurd returns
  finish_item-IsSound s key unfinished e returns h = absurd returns

  Step-IsSound : {s t : State Q} → Step w s t → IsSound s → IsSound t
  Step-IsSound {s} (changes i) h = record {
    is_open = h.is_open;
    only_event = h.only_event;
    holds_event = h.holds_event;
    owed_or_latest = inl (unheard s.unheard refl);
  }
  Step-IsSound {s} (node_changes n) h = record {
    is_open = h.is_open;
    only_event = h.only_event;
    holds_event = h.holds_event;
    owed_or_latest = elim h.owed_or_latest [ inl o ↦ inl (node-Owed s n o) | inr l ↦ inr l ];
  }
  Step-IsSound {s} (hears n e) h = on_event-IsSound s n h
  Step-IsSound {s} resyncs h = on_event-IsSound s s.unheard h
  Step-IsSound {s} elapses h = record {
    is_open = elapse-IsOpen s.queue h.is_open;
    only_event = λ j a. h.only_event j (elapse_only j s.queue a);
    holds_event = h.holds_event;
    owed_or_latest = elim h.owed_or_latest [ inl o ↦ inl (elapse-Owed s o) | inr l ↦ inr l ];
  }
  Step-IsSound {s} (fetches key q e g) h = record {
    is_open = get-IsOpen key s.queue q g h.is_open;
    only_event = λ j a. h.only_event j (get_only key j s.queue q g a);
    holds_event = h.only_event key (get_takes key s.queue q g);
    owed_or_latest = inl (begun key refl);
  }
  Step-IsSound {s} (reconciles key publish e) h = reconcile_now-IsSound s key publish e h
  Step-IsSound {s} (finishes key r e ret) h = finish_item-IsSound s key r e ret h

  Reach-IsSound : {s t : State Q} → Reach w s t → IsSound s → IsSound t
  Reach-IsSound here h = h
  Reach-IsSound (next r step) h = Step-IsSound step (Reach-IsSound r h)

  -- Nothing is left to hear, to do or to retry.
  pub record IsAtRest (s : State Q) : Type 0 where
    pub all_heard : s.unheard ≡ 0
    pub none_awaited : Awaits s.queue "Event" → ⊥
    pub is_idle : s.worker ≡ idle

  rest_owes_nothing : (s : State Q) → IsAtRest s → Owed s → ⊥
  rest_owes_nothing s h (unheard n e) = let heard = h.all_heard in absurd (omega arith)
  rest_owes_nothing s h (awaited a) = h.none_awaited a
  rest_owes_nothing s h (begun key e) = let at_end = h.is_idle in absurd (cc)
  rest_owes_nothing s h (failed key m e) = let at_end = h.is_idle in absurd (cc)
  rest_owes_nothing s h (crashed key r e c) = let at_end = h.is_idle in absurd (cc)

  -- From the controller's start, with an open queue that awaits nothing but events, an idle worker and a
  -- change of which a handler is still to run: however changes, handlers, resyncs, delays and the steps of the
  -- worker follow each other, and whichever publications fail, a controller that is at rest has
  -- as its last publication what getResources gives for the present DeviceNetworks and devices, and
  -- for the node as the last Reconcile read it.
  pub rest-IsLatest :
      (s t : State Q) (n : ℕ)
      → IsOpen s.queue
      → ((j : String) → Awaits s.queue j → j ≡ "Event")
      → s.worker ≡ idle
      → s.unheard ≡ suc n
      → Reach w s t
      → IsAtRest t
      → IsLatest t.inputs t.node_read t.published
  rest-IsLatest s t n opened only_event idle_worker changed run rest =
      elim ((Reach-IsSound run start).owed_or_latest) [
        | inl o ↦ absurd (rest_owes_nothing t rest o)
        | inr l ↦ l
      ]
    where
      start : IsSound s
      start = record {
        is_open = opened;
        only_event = only_event;
        holds_event = subst HoldsEvent (sym idle_worker) tt;
        owed_or_latest = inl (unheard n changed);
      }
