-- ===== src/Host/Cache/Coherence.antt =====
-- pkg/host/cache.go: the snapshot, the store and the broadcast events of the device cache agree.
use device_network.Prelude.{
  String, ◌==◌, eq_iff, ◌≡◌, refl, subst, some, inl, inr, if◌then◌else◌, arith, Bool-cases,
  Option-cases,
}
use device_network.Prelude.Results.{ok}
use device_network.Prelude.Dict.{lookup, insert, lookup-insert, lookup-erase}
use device_network.Host.{Device, same_spec, eq_of_same_spec}
use device_network.Host.Rdma.{FileSystem}
use device_network.Host.Cache.{
  DeviceCache, LinkByName, found, not_found, failed, build_device, drop_device, put_device,
  sync_device, get,
}
use device_network.Host.Cache.Keyed.{name_of_lookup, spec_at}
use device_network.Host.Cache.Coherent.{
  IsCoherent, all_ok, IsHonest, drop_device-IsCoherent, put_device-IsCoherent, observe,
}

module _ (fs : FileSystem) (root : String) (link_by_name : String → LinkByName)
    (honest : IsHonest link_by_name) where
  sync_cases :
      (key : String) (dc : DeviceCache) (l : LinkByName)
      → link_by_name key ≡ l
      → IsCoherent dc
      → IsCoherent (sync_device fs root link_by_name all_ok key dc).1
  unfolding sync_device
  sync_cases key dc failed e h = rw (e, sync_device) h
  sync_cases key dc not_found e h = rw (e, sync_device) (drop_device-IsCoherent key dc h)
  sync_cases key dc (found link) e h =
      rw (e, sync_device)
        (subst
          (λ (k : String).
            IsCoherent
              (put_device (build_device fs root link) (lookup k dc.snapshot) all_ok
                (record dc { snapshot = insert k (build_device fs root link) dc.snapshot })).1)
          (honest key link e) (put_device-IsCoherent (build_device fs root link) dc h))

  -- When LinkByName gives links of the name asked for and the calls of the store and of the
  -- broadcaster succeed, a sync of any key keeps the cache coherent: devices stand under their names, the
  -- snapshot and the store hold equal specifications, and the events broadcast add up to the store.
  pub sync_device-IsCoherent :
      (key : String) (dc : DeviceCache)
      → IsCoherent dc
      → IsCoherent (sync_device fs root link_by_name all_ok key dc).1
  sync_device-IsCoherent key dc h = sync_cases key dc (link_by_name key) refl h

  spec_cases :
      (key : String) (dc : DeviceCache) (l : LinkByName)
      → link_by_name key ≡ l
      → IsCoherent dc
      → (k : String)
      → spec_at k (sync_device fs root link_by_name all_ok key dc).1.store
        ≡ (if key == k then observe fs root l (spec_at k dc.store) else spec_at k dc.store)
  unfolding sync_device drop_device put_device
  spec_cases key dc failed e h k = rw (e, sync_device) (ground arith)
  spec_cases key dc not_found e h k = elim (Option-cases (lookup key dc.snapshot)) [
    | inl o ↦
        rw (e, sync_device) (rw (o, drop_device) (ground (arith, h.same_specs key, eq_iff key k)))
    | inr (d, o) ↦
        rw (e, sync_device)
          (rw (o, drop_device)
            (ground (
              arith,
              lookup-erase d.name k dc.store,
              name_of_lookup key {d = d} dc.snapshot h.keyed_snapshot,
              o,
            )))
  ]
  spec_cases key dc (found link) e h k = elim (Option-cases (lookup key dc.snapshot)) [
    | inl o ↦
        rw (e, sync_device)
          (rw (o, put_device)
            (ground (
              arith,
              lookup-insert (build_device fs root link).name k (build_device fs root link) dc.store,
              name,
            )))
    | inr (d, o) ↦ elim (Bool-cases (same_spec d.spec (build_device fs root link).spec)) [
      | inl same ↦
          rw (e, sync_device)
            (rw (o, put_device)
              (rw same (
                ground (
                  arith,
                  h.same_specs key,
                  o,
                  eq_iff key k,
                  eq_of_same_spec d.spec (build_device fs root link).spec same,
                ))))
      | inr other ↦
          rw (e, sync_device)
            (rw (o, put_device)
              (rw other (
                ground (
                  arith,
                  lookup-insert (build_device fs root link).name k (build_device fs root link)
                      dc.store,
                  name,
                ))))
    ]
  ]
    where
      name : (build_device fs root link).name ≡ key
      name = honest key link e

  -- When LinkByName gives links of the name asked for, the calls of the store and of the
  -- broadcaster succeed, and the cache is coherent, a sync changes the store at its key alone: to
  -- the specification of the link that is there now, to nothing if there is none, and not at all
  -- if the lookup fails.
  pub sync_device-spec_at :
      (key : String) (dc : DeviceCache)
      → IsCoherent dc
      → (k : String)
      → spec_at k (sync_device fs root link_by_name all_ok key dc).1.store ≡ (
          if key == k
          then observe fs root (link_by_name key) (spec_at k dc.store)
          else spec_at k dc.store)
  sync_device-spec_at key dc h k = spec_cases key dc (link_by_name key) refl h k

pub get-lookup :
    (dc : DeviceCache) (name : String) {d : Device}
    → lookup name dc.store ≡ some d
    → get dc name ≡ ok d
unfolding get
get-lookup dc name e = rw (e, get)
