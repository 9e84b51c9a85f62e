-- ===== src/Reconciler/Resources.antt =====
-- pkg/controllers/devicenetwork/reconciler.go: what a successful `getResources` publishes.
use device_network.Prelude.{
  String, ◌≡◌, refl, ap, subst, Option, none, some, List, [], ◌∷◌, map, inl, inr, contains-In,
  Distinct, In, All, All-at, All-intro, All-map, All-In,
}
use device_network.Prelude.Results.{ok, >>=-eq-ok}
use device_network.Prelude.Dict.{Dict, lookup}
use device_network.Kubernetes.{Node, CounterSet}
use device_network.Api.{DeviceNetwork, DeviceConfiguration, get_device_type}
use device_network.Host
use device_network.Configurators.{Configurator}
use device_network.Reconciler.{
  Reconciler, Published, DriverResources, device_for_selector, device_for_configuration,
  publish_configuration, publish_configurations, publish_networks, shared_counters, get_resources,
  mutual_exclusion,
}
use device_network.Reconciler.Origin.{
  IsSelection, Origin, IsTracked, device_for_selector-IsSelection,
  device_for_configuration-IsChosen, publish_devices-IsTracked,
}
use device_network.Reconciler.Pools.{pool_devices, pool_counters, get_resources-made}

module _ (r : Reconciler) (node : Node) (networks : List DeviceNetwork)
    (entry_order-sound : (m : Dict Host.Device) (e : String × Host.Device)
      → In e (r.entry_order m)
      → In e m) where
  module _ (network : DeviceNetwork) (n : In network networks)
      (by_selector : Dict (List Host.Device))
      (b : All (IsSelection r node network.spec.device_selectors) by_selector) where
    publish_configuration-IsTracked :
        (dc : DeviceConfiguration) (o : Option Configurator) (acc : Published) {out : Published}
        → In dc network.spec.device_configurations
        → lookup (get_device_type dc) r.device_configurators ≡ o
        → IsTracked r node networks acc
        → publish_configuration r network by_selector dc o acc ≡ ok out
        → IsTracked r node networks out
    unfolding publish_configuration
    publish_configuration-IsTracked dc none acc c t h e = subst (IsTracked r node networks) (cc) h
    publish_configuration-IsTracked dc (some configurator) acc c t h e =
        publish_devices-IsTracked r node networks network n dc c configurator t
          (r.entry_order chosen) acc
          (All-intro _ (r.entry_order chosen) λ x i.
            All-at _ chosen
              (device_for_configuration-IsChosen r node network dc by_selector []
                dc.device_selectors b (All-In dc.device_selectors) tt)
              x (entry_order-sound chosen x i))
          h e
      where
        chosen : Dict Host.Device
        chosen = device_for_configuration by_selector [] dc.device_selectors

    publish_configurations-IsTracked :
        (dcs : List DeviceConfiguration) (acc : Published) {out : Published}
        → All (λ dc. In dc network.spec.device_configurations) dcs
        → IsTracked r node networks acc
        → publish_configurations r network by_selector dcs acc ≡ ok out
        → IsTracked r node networks out
    unfolding publish_configurations
    publish_configurations-IsTracked [] acc l h e = subst (IsTracked r node networks) (cc) h
    publish_configurations-IsTracked (dc ∷ dcs) acc l h e =
        let (next, one, rest) =
          >>=-eq-ok (publish_configuration r network by_selector dc _ acc) _ e in
        publish_configurations-IsTracked dcs next l.1
          (publish_configuration-IsTracked dc _ acc l.0 refl h one) rest

  publish_networks-IsTracked :
      (ns : List DeviceNetwork) (acc : Published) {out : Published}
      → All (λ n. In n networks) ns
      → IsTracked r node networks acc
      → publish_networks r node ns acc ≡ ok out
      → IsTracked r node networks out
  unfolding publish_networks
  publish_networks-IsTracked [] acc l h e = subst (IsTracked r node networks) (cc) h
  publish_networks-IsTracked (n ∷ ns) acc l h e =
      let selections : Dict (List Host.Device) =
        device_for_selector r node [] n.spec.device_selectors in
      let (next, one, rest) =
        >>=-eq-ok (publish_configurations r n selections n.spec.device_configurations acc) _ e in
      publish_networks-IsTracked ns next l.1
        (publish_configurations-IsTracked n l.0 selections
          (device_for_selector-IsSelection r node n.spec.device_selectors [] n.spec.device_selectors
            (All-In n.spec.device_selectors) tt)
          n.spec.device_configurations acc (All-In n.spec.device_configurations) h one)
        rest

  start-IsTracked : IsTracked r node networks (record { devices = []; counter_sets = [] })
  start-IsTracked = record { origins = tt; counted_once = tt }

  resources-IsTracked :
      {res : DriverResources}
      → get_resources r node networks ≡ ok res
      → (acc : Published) × IsTracked r node networks acc
        × (acc.devices ≡ pool_devices res.pools)
        × (shared_counters (r.name_order acc.counter_sets) ≡ pool_counters res.pools)
  resources-IsTracked {res} e =
      let (acc, run, devices, counters) = get_resources-made r node networks e in
      (
        acc,
        publish_networks-IsTracked networks _ (All-In networks) start-IsTracked run,
        devices,
        counters,
      )

abbrev pub counter_set : String → CounterSet
counter_set name = record { name = name; counters = (mutual_exclusion, 65536) ∷ [] }

In-shared_counters :
    (name : String) (names : List String)
    → In name names
    → In (counter_set name) (shared_counters names)
unfolding shared_counters
In-shared_counters name [] i = elim i [ ]
In-shared_counters name (x ∷ xs) (inl e) = inl (ap counter_set e)
In-shared_counters name (x ∷ xs) (inr i) = inr (In-shared_counters name xs i)

names-shared_counters :
    (names : List String) → map (λ (c : CounterSet). c.name) (shared_counters names) ≡ names
unfolding shared_counters
names-shared_counters [] = refl
names-shared_counters (x ∷ xs) = ap (λ ns. x ∷ ns) (names-shared_counters xs)

module _ (r : Reconciler) (node : Node) (networks : List DeviceNetwork) {res : DriverResources}
    (entry_order-sound : (m : Dict Host.Device) (e : String × Host.Device)
      → In e (r.entry_order m)
      → In e m) where
  -- When the walk over a map shows only its entries, every device of a successful getResources comes
  -- from a network of the list, a configuration of it, and a host device that some selector lists
  -- whose name the configuration gives and whose node selector applies to the node; the
  -- configurator of the configuration's type supports and exposes it, and the published device is
  -- what it exposes, with the name and the five attributes of the three.
  pub get_resources-Origin :
      get_resources r node networks ≡ ok res → All (Origin r node networks) (pool_devices res.pools)
  get_resources-Origin e =
      let (acc, tracked, devices, counters) =
        resources-IsTracked r node networks entry_order-sound e in
      subst (All (Origin r node networks)) devices
        (All-map _ acc.devices (λ d t. t.0) tracked.origins)

  -- When the walk over a map shows only its entries, and an unsorted list of names shows all of
  -- them, and none twice when none is there twice, the host device behind every device of a
  -- successful getResources has a counter set of 65536, and no two counter sets have one name.
  pub get_resources-counters :
      ((names : List String) (name : String) → In name names → In name (r.name_order names))
      → ((names : List String) → Distinct names → Distinct (r.name_order names))
      → get_resources r node networks ≡ ok res
      → All
          (λ d.
            (o : Origin r node networks d) × In (counter_set o.host.name) (pool_counters res.pools))
          (pool_devices res.pools)
        × Distinct (map (λ (c : CounterSet). c.name) (pool_counters res.pools))
  get_resources-counters complete distinct e =
      let (acc, tracked, devices, counters) =
        resources-IsTracked r node networks entry_order-sound e in
      (
        subst
            (λ ds.
              All
                (λ d.
                  (o : Origin r node networks d) × In (counter_set o.host.name)
                    (pool_counters res.pools))
                ds)
            devices
            (All-map _ acc.devices
              (λ d (o, counted). (
                o,
                subst (λ cs. In (counter_set o.host.name) cs) counters
                    (In-shared_counters o.host.name (r.name_order acc.counter_sets) (
                      complete acc.counter_sets o.host.name
                        (contains-In o.host.name acc.counter_sets counted))),
              ))
              tracked.origins),
        subst (λ cs. Distinct (map (λ (c : CounterSet). c.name) cs)) counters
            (rw (names-shared_counters (r.name_order acc.counter_sets))
              (distinct acc.counter_sets tracked.counted_once)),
      )
