-- ===== src/Configurators/HostDevice/Moves.antt =====
-- pkg/configurators/hostdevice.go: what a successful Configure of a host device does to the
-- system.
use device_network.Prelude.{
  ℕ, String, ◌≡◌, refl, ap, Option-cases, Bool-cases, inl, inr, some, List, [], ◌∷◌, map,
}
use device_network.Prelude.Results.{Result, ok, err, panic, unfinished}
use device_network.Host.Rdma.{rdma_devices_for_netdev}
use device_network.Platform.{Platform, History, found_rdma, moved_rdma, found_link, moved_link}
use device_network.Configurators.HostDevice.{HostDevice, move_rdma_devices, sysfs_root, move_device}

-- The history after RDMA devices, with their links, were found and moved in turn.
abbrev pub moved_all : ℕ → List (String × ℕ) → History → History
moved_all ns [] h = h
moved_all ns ((name, link) ∷ rest) h = moved_all ns rest (moved_rdma link ns ∷ found_rdma name ∷ h)

module _ (p : Platform) (hd : HostDevice) where
  move_rdma_devices-eq-ok :
      (ns : ℕ) (names : List String) (h : History) {v : Unit {0}} {t : History}
      → move_rdma_devices p hd ns names h ≡ (ok v, t)
      → (links : List (String × ℕ)) × (map (λ l. l.0) links ≡ names) × (moved_all ns links h ≡ t)
  unfolding move_rdma_devices
  move_rdma_devices-eq-ok ns [] h e = ([], refl, cc)
  move_rdma_devices-eq-ok ns (name ∷ names) h e = elim (Option-cases (p.rdma_link_by_name h name)) [
    | inl o ↦ absurd (cc (rw o at e))
    | inr (link, o) ↦ elim (Bool-cases (p.rdma_link_set_ns_fd (found_rdma name ∷ h) link ns)) [
      | inl s ↦
          let (links, same, last) =
            move_rdma_devices-eq-ok ns names (moved_rdma link ns ∷ found_rdma name ∷ h)
              (rw s at (rw o at e)) in
          ((name, link) ∷ links, ap (λ (ns' : List String). name ∷ ns') same, last)
      | inr s ↦ absurd (cc (rw s at (rw o at e)))
    ]
  ]

  -- What a move leaves: the RDMA devices found before anything moved, moved in their order, then the link.
  pub record IsMoved (ns : ℕ) (if_name : String) (before after : History) : Type 0 where
    pub names : List String
    pub links : List (String × ℕ)
    pub link : ℕ
    pub discovered : rdma_devices_for_netdev (p.files before) (sysfs_root p hd) if_name ≡ ok names
    pub all_moved : map (λ l. l.0) links ≡ names
    pub is_link : p.link_by_name (moved_all ns links before) if_name ≡ some link
    pub trace : moved_link link ns ∷ found_link if_name ∷ moved_all ns links before ≡ after

  pub move_device-eq-ok :
      (ns : ℕ) (if_name : String) (h : History) {v : Unit {0}} {t : History}
      → move_device p hd ns if_name h ≡ (ok v, t)
      → IsMoved ns if_name h t
  unfolding move_device
  move_device-eq-ok ns if_name h {v} {t} e =
      go (rdma_devices_for_netdev (p.files h) (sysfs_root p hd) if_name) refl
    where
      finish :
          (names : List String)
          → rdma_devices_for_netdev (p.files h) (sysfs_root p hd) if_name ≡ ok names
          → (r : Result (Unit {0})) (u : History)
          → ◌≡◌ {A = Result (Unit {0}) × History} (move_rdma_devices p hd ns names h) (r, u)
          → IsMoved ns if_name h t
      finish names d (ok w) u m =
          let (links, same, moved) = move_rdma_devices-eq-ok ns names h m in
          elim (Option-cases (p.link_by_name u if_name)) [
            | inl o ↦ absurd (cc (rw o at (rw m at (rw d at e))))
            | inr (link, o) ↦
                elim (Bool-cases (p.link_set_ns_fd (found_link if_name ∷ u) link ns)) [
                  | inl s ↦ record {
                    names = names;
                    links = links;
                    link = link;
                    discovered = d;
                    all_moved = same;
                    is_link = rw moved o;
                    trace = rw moved (
                        ap (λ (x : Result (Unit {0}) × History). x.1)
                          (rw s at (rw o at (rw m at (rw d at e)))));
                  }
                  | inr s ↦ absurd (cc (rw s at (rw o at (rw m at (rw d at e)))))
                ]
          ]
      finish names d (err x) u m = absurd (cc (rw m at (rw d at e)))
      finish names d panic u m = absurd (cc (rw m at (rw d at e)))
      finish names d unfinished u m = absurd (cc (rw m at (rw d at e)))

      go :
          (r : Result (List String))
          → rdma_devices_for_netdev (p.files h) (sysfs_root p hd) if_name ≡ r
          → IsMoved ns if_name h t
      go (ok names) d =
          finish names d (move_rdma_devices p hd ns names h).0 (move_rdma_devices p hd ns names h).1
            refl
      go (err x) d = absurd (cc (rw d at e))
      go panic d = absurd (cc (rw d at e))
      go unfinished d = absurd (cc (rw d at e))
