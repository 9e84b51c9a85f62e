-- ===== src/Host/Cache/Synced.antt =====
-- pkg/host/cache.go: what a poll, and the rounds of the worker after it, make of the store.
use device_network.Prelude.{
  String, Bool, Option, none, some, List, [], ◌∷◌, ◌≡◌, refl, sym, subst, ◌⊎◌, inl, inr, In,
}
use device_network.Prelude.Results.{Result, Result-cases, ok}
use device_network.Host.Rdma.{FileSystem}
use device_network.Host.Cache.{DeviceCache, Link, LinkByName, sync_device}
use device_network.Host.Cache.Coherence.{sync_device-IsCoherent}
use device_network.Host.Cache.Coherent.{IsCoherent, all_ok}
use device_network.Host.Cache.Keyed.{spec_at}
use device_network.Host.Cache.Worker.{
  Caching, after_sync, process_got, process_next_work_item, add_all, poll_devices,
}
use device_network.Workqueue.{Workqueue, IsWorkqueue, Got, blocked, shutdown, item}
use device_network.Host.Cache.Current.{
  Answers, expected, Answers-IsHonest, IsCurrent, sync-IsCurrent, sync-own,
}

module _ (fs : FileSystem) (root : String) (links : String → Option Link) {Q : Type 0}
    (w : Workqueue Q) (laws : IsWorkqueue w) where
  open laws use {
    IsOpen, Awaits, add-IsOpen, add-Awaits, add_keeps, get-IsOpen, get_keeps, elapse-IsOpen,
    elapse_keeps, forget-IsOpen, forget_keeps, done-IsOpen, done_keeps, add_rate_limited-IsOpen,
    add_rate_limited-Awaits, add_rate_limited_keeps,
  }

  -- A key is accounted for when it is current or awaited.
  pub record IsAccounted (j : String) (s : Caching Q) : Type 0 where
    pub coherent : IsCoherent s.cache
    pub is_open : IsOpen s.queue
    pub current_or_awaited : IsCurrent fs root links j s.cache ⊎ Awaits s.queue j

  pub data Step (s : Caching Q) : Caching Q → Type 0 where
    polls : (nics : Option (List String)) → Step s (poll_devices w nics s)
    elapses : Step s (record s { queue = w.elapse s.queue })
    works :
        (f : String → LinkByName) (goes_on : Bool) (t : Caching Q)
        → Answers links f
        → process_next_work_item w fs root f all_ok s ≡ some (goes_on, t)
        → Step s t

  pub data Reach (s : Caching Q) : Caching Q → Type 0 where
    here : Reach s s
    next : {t u : Caching Q} → Reach s t → Step t u → Reach s u

  add_all-IsOpen : (names : List String) (q : Q) → IsOpen q → IsOpen (add_all w names q)
  unfolding add_all
  add_all-IsOpen [] q o = o
  add_all-IsOpen (n ∷ names) q o = add_all-IsOpen names (w.add n q) (add-IsOpen n q o)

  add_all_keeps :
      (j : String) (names : List String) (q : Q) → Awaits q j → Awaits (add_all w names q) j
  unfolding add_all
  add_all_keeps j [] q a = a
  add_all_keeps j (n ∷ names) q a = add_all_keeps j names (w.add n q) (add_keeps n j q a)

  add_all-Awaits :
      (j : String) (names : List String) (q : Q)
      → IsOpen q
      → In j names
      → Awaits (add_all w names q) j
  unfolding add_all
  add_all-Awaits j [] q o i = elim i [ ]
  add_all-Awaits j (n ∷ names) q o (inl e) =
      add_all_keeps j names (w.add n q) (subst (λ k. Awaits (w.add k q) j) e (add-Awaits j q o))
  add_all-Awaits j (n ∷ names) q o (inr i) = add_all-Awaits j names (w.add n q) (add-IsOpen n q o) i

  poll-IsAccounted :
      (j : String) (nics : Option (List String)) (s : Caching Q)
      → IsAccounted j s
      → IsAccounted j (poll_devices w nics s)
  unfolding poll_devices
  poll-IsAccounted j none s h = h
  poll-IsAccounted j (some names) s h = record {
    coherent = h.coherent;
    is_open = add_all-IsOpen names s.queue h.is_open;
    current_or_awaited = elim h.current_or_awaited [
      | inl c ↦ inl c
      | inr a ↦ inr (add_all_keeps j names s.queue a)
    ];
  }

  module _ (j key : String) (q : Q) (s : Caching Q) (f : String → LinkByName)
      (answers : Answers links f) (got : w.get s.queue ≡ item key q) (h : IsAccounted j s) where
    abbrev synced : Result (Unit {0}) × DeviceCache
    synced = sync_device fs root f all_ok key s.cache

    opened : IsOpen q
    opened = get-IsOpen key s.queue q got h.is_open

    synced-IsCoherent : IsCoherent synced.1
    synced-IsCoherent =
        sync_device-IsCoherent fs root f (Answers-IsHonest links f answers) key s.cache h.coherent

    -- A sync that succeeds settles its own key, and one that fails has it queued again.
    after_success :
        {u : Unit {0}}
        → synced.0 ≡ ok u
        → IsAccounted j (record { cache = synced.1; queue = w.done key (w.forget key q) })
    after_success e = record {
      coherent = synced-IsCoherent;
      is_open = done-IsOpen key _ (forget-IsOpen key q opened);
      current_or_awaited = elim h.current_or_awaited [
        | inl c ↦ inl (sync-IsCurrent fs root links f answers key j s.cache h.coherent c)
        | inr a ↦ elim (get_keeps key j s.queue q got a) [
          | inl own ↦ inl (
              subst (λ k. IsCurrent fs root links k synced.1) (sym own)
                (sync-own fs root links f answers key s.cache h.coherent e))
          | inr b ↦ inr (done_keeps key j _ (forget_keeps key j q b))
        ]
      ];
    }

    after_failure :
        IsAccounted j (record { cache = synced.1; queue = w.done key (w.add_rate_limited key q) })
    after_failure = record {
      coherent = synced-IsCoherent;
      is_open = done-IsOpen key _ (add_rate_limited-IsOpen key q opened);
      current_or_awaited = elim h.current_or_awaited [
        | inl c ↦ inl (sync-IsCurrent fs root links f answers key j s.cache h.coherent c)
        | inr a ↦ elim (get_keeps key j s.queue q got a) [
          | inl own ↦ inr (
              done_keeps key j _ (
                subst (λ k. Awaits (w.add_rate_limited key q) k) (sym own)
                  (add_rate_limited-Awaits key q opened)))
          | inr b ↦ inr (done_keeps key j _ (add_rate_limited_keeps key j q b))
        ]
      ];
    }

    worked :
        (goes_on : Bool) (t : Caching Q)
        → after_sync w key q synced ≡ some (goes_on, t)
        → IsAccounted j t
    unfolding after_sync
    worked goes_on t e = elim (Result-cases synced.0) [
      | inl (u, a) ↦
          let done = rw a at e in
          let same : record { cache = synced.1; queue = w.done key (w.forget key q) } ≡ t =
            cc done in
          subst (IsAccounted j) same (after_success a)
      | inr (inl (m, a)) ↦
          let done = rw a at e in
          let same : record { cache = synced.1; queue = w.done key (w.add_rate_limited key q) }
              ≡ t =
            cc done in
          subst (IsAccounted j) same after_failure
      | inr (inr (inl a)) ↦ absurd (cc (rw a at e))
      | inr (inr (inr a)) ↦ absurd (cc (rw a at e))
    ]

  work-IsAccounted :
      (j : String) (s : Caching Q) (f : String → LinkByName) (goes_on : Bool) (t : Caching Q)
      → Answers links f
      → (g : Got Q) → w.get s.queue ≡ g
      → process_got w fs root f all_ok s g ≡ some (goes_on, t)
      → IsAccounted j s
      → IsAccounted j t
  unfolding process_got
  work-IsAccounted j s f goes_on t answers blocked got e h = absurd (cc e)
  work-IsAccounted j s f goes_on t answers shutdown got e h =
      let same : s ≡ t = cc e in subst (IsAccounted j) same h
  work-IsAccounted j s f goes_on t answers (item key q) got e h =
      worked j key q s f answers got h goes_on t e

  Step-IsAccounted : (j : String) {s t : Caching Q} → Step s t → IsAccounted j s → IsAccounted j t
  unfolding process_next_work_item
  Step-IsAccounted j {s} (polls nics) h = poll-IsAccounted j nics s h
  Step-IsAccounted j {s} elapses h = record {
    coherent = h.coherent;
    is_open = elapse-IsOpen s.queue h.is_open;
    current_or_awaited = elim h.current_or_awaited [
      | inl c ↦ inl c
      | inr a ↦ inr (elapse_keeps j s.queue a)
    ];
  }
  Step-IsAccounted j {s} {t} (works f goes_on t' answers e) h =
      work-IsAccounted j s f goes_on t answers (w.get s.queue) refl e h

  Reach-IsAccounted : (j : String) {s t : Caching Q} → Reach s t → IsAccounted j s → IsAccounted j t
  Reach-IsAccounted j here h = h
  Reach-IsAccounted j (next r step) h = Step-IsAccounted j step (Reach-IsAccounted j r h)

  -- While the links of the host stay as they are, and LinkByName tells the truth or fails: after a poll that
  -- finds a NIC, from a coherent cache with an open queue, and any further polls, delays and rounds of the
  -- worker in which the calls of the store and of the broadcaster succeed, the store says of the NIC what its link is, unless its
  -- name is still queued; a lookup that fails is retried.
  pub polled-IsCurrent :
      (j : String) (names : List String) (s t : Caching Q)
      → In j names
      → IsCoherent s.cache
      → IsOpen s.queue
      → Reach (poll_devices w (some names) s) t
      → (Awaits t.queue j → ⊥)
      → spec_at j t.cache.store ≡ expected fs root (links j)
  unfolding poll_devices
  polled-IsCurrent j names s t listed coherent opened run settled =
      elim ((Reach-IsAccounted j run start).current_or_awaited) [
        | inl c ↦ c
        | inr a ↦ absurd (settled a)
      ]
    where
      start : IsAccounted j (poll_devices w (some names) s)
      start = record {
        coherent = coherent;
        is_open = add_all-IsOpen names s.queue opened;
        current_or_awaited = inr (add_all-Awaits j names s.queue opened listed);
      }
