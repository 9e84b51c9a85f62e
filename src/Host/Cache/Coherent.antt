-- ===== src/Host/Cache/Coherent.antt =====
-- pkg/host/cache.go: what a coherent cache is, and the steps of a sync that keep it so.
use device_network.Prelude.{
  String, ◌==◌, eq_iff, ◌≡◌, refl, true, Option, none, some, List, [], ◌∷◌, inl, inr, if◌then◌else◌,
  arith, Bool-cases, Option-cases,
}
use device_network.Prelude.Dict.{lookup, insert, lookup-insert, lookup-erase}
use device_network.Host.{Device, DeviceSpec, same_spec, eq_of_same_spec}
use device_network.Host.Rdma.{FileSystem}
use device_network.Host.Cache.{
  DeviceCache, WatchEvent, added, modified, deleted, Link, LinkByName, found, not_found, failed,
  Outcome, build_device, drop_device, put_device, new_device_cache,
}
use device_network.Host.Cache.Keyed.{
  IsKeyed, insert-IsKeyed, erase-IsKeyed, name_of_lookup, spec_at,
}

-- What a subscriber that has read all events knows, latest event first.
abbrev pub replay : List WatchEvent → String → Option DeviceSpec
replay [] k = none
replay (added d ∷ es) k = if d.name == k then some d.spec else replay es k
replay (modified d ∷ es) k = if d.name == k then some d.spec else replay es k
replay (deleted d ∷ es) k = if d.name == k then none else replay es k

pub record IsCoherent (dc : DeviceCache) : Type 0 where
  pub keyed_snapshot : IsKeyed dc.snapshot
  pub keyed_store : IsKeyed dc.store
  pub same_specs : (k : String) → spec_at k dc.snapshot ≡ spec_at k dc.store
  pub broadcast_all : (k : String) → replay dc.broadcast k ≡ spec_at k dc.store

pub new_device_cache-IsCoherent : IsCoherent new_device_cache
unfolding new_device_cache lookup
new_device_cache-IsCoherent = record {
  keyed_snapshot = tt;
  keyed_store = tt;
  same_specs = λ k. refl;
  broadcast_all = λ k. refl;
}

-- Every call of the store and of the broadcaster succeeds.
abbrev pub all_ok : Outcome
all_ok = record { store_ok = true; watch_ok = true }

-- LinkByName gives the link of that name.
abbrev pub IsHonest : (String → LinkByName) → Type 0
IsHonest f = (k : String) (l : Link) → f k ≡ found l → l.name ≡ k

pub drop_device-IsCoherent :
    (key : String) (dc : DeviceCache)
    → IsCoherent dc
    → IsCoherent (drop_device key (lookup key dc.snapshot) all_ok dc).1
unfolding drop_device
drop_device-IsCoherent key dc h = elim (Option-cases (lookup key dc.snapshot)) [
  | inl e ↦ rw e h
  | inr (d, e) ↦
      let n : d.name ≡ key = name_of_lookup key dc.snapshot h.keyed_snapshot e in
      rw e (record {
        keyed_snapshot = erase-IsKeyed key dc.snapshot h.keyed_snapshot;
        keyed_store = erase-IsKeyed d.name dc.store h.keyed_store;
        same_specs = λ k. ground (
          arith,
          lookup-erase key k dc.snapshot,
          lookup-erase d.name k dc.store,
          h.same_specs k,
          n,
        );
        broadcast_all = λ k. ground (arith, lookup-erase d.name k dc.store, h.broadcast_all k);
      })
]

pub put_device-IsCoherent :
    (entry : Device) (dc : DeviceCache)
    → IsCoherent dc
    → IsCoherent
        (put_device entry
          (lookup entry.name dc.snapshot)
          all_ok
          (record dc { snapshot = insert entry.name entry dc.snapshot })).1
unfolding put_device
put_device-IsCoherent entry dc h = elim (Option-cases (lookup entry.name dc.snapshot)) [
  | inl e ↦ rw e (record {
    keyed_snapshot = insert-IsKeyed entry dc.snapshot h.keyed_snapshot;
    keyed_store = insert-IsKeyed entry dc.store h.keyed_store;
    same_specs = λ k. ground (
      arith,
      lookup-insert entry.name k entry dc.snapshot,
      lookup-insert entry.name k entry dc.store,
      h.same_specs k,
    );
    broadcast_all =
        λ k. ground (arith, lookup-insert entry.name k entry dc.store, h.broadcast_all k);
  })
  | inr (d, e) ↦ elim (Bool-cases (same_spec d.spec entry.spec)) [
    | inl same ↦
        rw (e, put_device)
          (rw same (record {
            keyed_snapshot = insert-IsKeyed entry dc.snapshot h.keyed_snapshot;
            keyed_store = h.keyed_store;
            same_specs = λ k. ground (
              arith,
              lookup-insert entry.name k entry dc.snapshot,
              h.same_specs k,
              h.same_specs entry.name,
              eq_of_same_spec d.spec entry.spec same,
              eq_iff entry.name k,
            );
            broadcast_all = h.broadcast_all;
          }))
    | inr other ↦
        rw (e, put_device)
          (rw other (record {
            keyed_snapshot = insert-IsKeyed entry dc.snapshot h.keyed_snapshot;
            keyed_store = insert-IsKeyed entry dc.store h.keyed_store;
            same_specs = λ k. ground (
              arith,
              lookup-insert entry.name k entry dc.snapshot,
              lookup-insert entry.name k entry dc.store,
              h.same_specs k,
            );
            broadcast_all =
                λ k. ground (arith, lookup-insert entry.name k entry dc.store, h.broadcast_all k);
          }))
  ]
]

-- What a look at a link does to what is known of a device.
abbrev pub observe : FileSystem → String → LinkByName → Option DeviceSpec → Option DeviceSpec
observe fs root failed old = old
observe fs root not_found old = none
observe fs root (found link) old = some (build_device fs root link).spec
