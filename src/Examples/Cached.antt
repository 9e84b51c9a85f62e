-- ===== src/Examples/Cached.antt =====
-- The cache follows the host's links, and lists its devices, on the example.
use device_network.Prelude.{
  String, ◌==◌, eq_iff, Bool-cases, true, Option, none, some, List, [], ◌∷◌, ◌≡◌, refl, sym, inl,
  inr, In, ◌↔◌, if◌then◌else◌, ap, ◌∙◌,
}
use device_network.Prelude.Results.{ok}
use device_network.Prelude.Dict.{values, lookup, insert}
use device_network.Api.{Selector}
use device_network.Host.{Device}
use device_network.Host.Filter.{cel_program, eval, filter_devices, eval_devices, as_bool}
use device_network.Host.Filter.Exact.{Matches, eval_devices_iff}
use device_network.Host.Cache.{
  added, drop_device, put_device, build_device, new_device_cache, Link, LinkByName, found,
  not_found, sync_device, list,
}
use device_network.Host.Cache.Coherence.{sync_device-IsCoherent, sync_device-spec_at}
use device_network.Host.Cache.Coherent.{
  IsHonest, IsCoherent, all_ok, observe, new_device_cache-IsCoherent,
}
use device_network.Host.Cache.Keyed.{spec_at}
use device_network.Host.Rdma.{is_rdma_capable, rdma_devices_for_netdev}
use device_network.Host.Cache.Current.{Answers, expected}
use device_network.Host.Cache.Synced.{polled-IsCurrent, here, next, works}
use device_network.Host.Cache.Worker.{
  Caching, process_next_work_item, process_got, after_sync, poll_devices, add_all,
}
use device_network.Examples.Queued.{Keys, keys, keys-IsWorkqueue}
use device_network.Host.Cache.Listing.{list_iff}
use device_network.Host.Cache.Selected.{Survives, list-Survives}
use device_network.Examples.Data.{no_files, always, cache, eth0, eth1}

abbrev link : Link
link = record {
  name = "eth0";
  index = 2;
  parent_index = 0;
  master_index = 0;
  encap_type = "ether";
  type = "device";
}

abbrev link_by_name : String → LinkByName
link_by_name key = if "eth0" == key then found link else not_found

link_of : {l m : Link} → found l ≡ found m → l ≡ m
link_of e = cc

honest : IsHonest link_by_name
honest k l e = elim (Bool-cases ("eth0" == k)) [
  | inl a ↦ ap (λ (x : Link). x.name) (sym (link_of (rw a at e))) ∙ (eq_iff "eth0" k).0 a
  | inr a ↦ absurd (cc (rw a at e))
]

sync_device-IsCoherent_example :
    IsCoherent (sync_device no_files "" link_by_name all_ok "eth0" new_device_cache).1
sync_device-IsCoherent_example =
    sync_device-IsCoherent no_files "" link_by_name honest "eth0" new_device_cache
      new_device_cache-IsCoherent

sync_device-spec_at_example :
    spec_at "eth0" (sync_device no_files "" link_by_name all_ok "eth0" new_device_cache).1.store ≡ (
      if "eth0" == "eth0"
      then observe no_files "" (link_by_name "eth0") (spec_at "eth0" new_device_cache.store)
      else spec_at "eth0" new_device_cache.store)
sync_device-spec_at_example =
    sync_device-spec_at no_files "" link_by_name honest "eth0" new_device_cache
      new_device_cache-IsCoherent "eth0"

-- The host has this link alone, and is polled.
abbrev links : String → Option Link
links key = if "eth0" == key then some link else none

answers : Answers links link_by_name
unfolding Answers
answers key = elim (Bool-cases ("eth0" == key)) [
  | inl a ↦ inr (inr (link, rw a refl, (eq_iff "eth0" key).0 a, rw a refl))
  | inr a ↦ inr (inl (rw a refl, rw a refl))
]

abbrev started : Caching Keys
started = record { cache = new_device_cache; queue = record { awaited = []; held = none } }

abbrev synced : Caching Keys
synced = record {
  cache = record {
    snapshot = ("eth0", eth0) ∷ [];
    store = ("eth0", eth0) ∷ [];
    broadcast = added eth0 ∷ [];
  };
  queue = record { awaited = []; held = none };
}

works_on :
    process_next_work_item keys no_files "" link_by_name all_ok
      (poll_devices keys (some ("eth0" ∷ [])) started)
    ≡ some (true, synced)
unfolding process_next_work_item process_got after_sync poll_devices add_all sync_device drop_device
    put_device build_device new_device_cache is_rdma_capable rdma_devices_for_netdev lookup insert
works_on = refl

polled-IsCurrent_example : spec_at "eth0" synced.cache.store ≡ expected no_files "" (links "eth0")
unfolding keys-IsWorkqueue
polled-IsCurrent_example =
    polled-IsCurrent no_files "" links keys keys-IsWorkqueue "eth0" ("eth0" ∷ []) started synced
      (inl refl) new_device_cache-IsCoherent tt
      (next here (works link_by_name true synced answers works_on)) (λ i. elim i [ ])

abbrev selector : String → Selector
selector expression = record { cel = some (record { expression = expression }) }

abbrev same : List Device → List Device
same ds = ds

evaluates : eval_devices always "true" (values cache.store) ≡ ok (eth0 ∷ eth1 ∷ [])
unfolding eval_devices cel_program filter_devices eval as_bool
evaluates = refl

eval_devices_iff_example :
    (p : always.Program) × (cel_program always "true" ≡ ok p)
    × ((d : Device) → In d (eth0 ∷ eth1 ∷ []) ↔ Matches always p (values cache.store) d)
eval_devices_iff_example =
    eval_devices_iff always "true" (values cache.store) {out = eth0 ∷ eth1 ∷ []} evaluates

list_iff_example :
    (p : always.Program) × (cel_program always "true" ≡ ok p)
    × ((d : Device)
        → In d (list always same cache (selector "true" ∷ []))
          ↔ Matches always p (values cache.store) d)
list_iff_example =
    list_iff always same (λ ds d i. i) (λ ds d i. i) cache (selector "true")
      (record { expression = "true" }) refl {out = eth0 ∷ eth1 ∷ []} evaluates

list-Survives_example :
    In eth0 (list always same cache (selector "false" ∷ selector "true" ∷ []))
    ↔ Survives always
        (selector "false" ∷ selector "true" ∷ [])
        (λ x. In x (values cache.store))
        eth0
list-Survives_example =
    list-Survives always same (λ ds d. (λ i. i, λ i. i)) cache
      (selector "false" ∷ selector "true" ∷ []) eth0
