-- ===== src/Resolver/Published.antt =====
-- pkg/resolver/resolver.go: A device that the reconciler publishes resolves to what it was
-- published for.
use device_network.Prelude.{
  String, eq_refl, ◌≡◌, sym, subst, some, List, map, In, All, All-at, Distinct,
}
use device_network.Prelude.Results.{ok}
use device_network.Prelude.Dict.{Dict, lookup}
use device_network.Kubernetes
use device_network.Kubernetes.{ResourceSlice, DeviceRequestAllocationResult, Node}
use device_network.Api.{
  DeviceNetwork, DeviceConfiguration, attribute_device_configuration, attribute_host_device_name,
}
use device_network.Host
use device_network.Host.Cache.Listing.{list-In}
use device_network.Host.Cache.Coherence.{get-lookup}
use device_network.Host.Cache.Keyed.{IsKeyed, lookup-name}
use device_network.Reconciler.{Reconciler, DriverResources, get_resources, list_devices}
use device_network.Reconciler.Origin.{Origin}
use device_network.Reconciler.Resources.{get_resources-Origin}
use device_network.Reconciler.Pools.{pool_devices}
use device_network.Reconciler.Attributes.{AreDistinct, finished_attributes}
use device_network.Resolver.{
  Resolver, Device, string_of, resolve, get_device_network_for_device, get_device,
}
use device_network.Resolver.Lookup.{names, all_devices, find_configuration-In, find_published}

-- The lister has the networks by name, and no configuration name stands twice in one.
abbrev pub IsListed : Dict DeviceNetwork → DeviceNetwork → Type 0
IsListed by_name n =
    (lookup n.name by_name ≡ some n)
    × Distinct (map (λ (c : DeviceConfiguration). c.name) n.spec.device_configurations)

-- The result of `GetDevice` for what a device was published for.
abbrev pub resolved_device :
    DeviceRequestAllocationResult
    → DeviceNetwork
    → DeviceConfiguration
    → Kubernetes.Device
    → Host.Device
    → Device
resolved_device result network dc exposed host = record {
  device_request_allocation_result = some result;
  device_network = some network;
  device_configuration = some dc;
  exposed_device = some exposed;
  host_device = some host;
}

-- The resolver of the same node: the same cache and kind, the published slices, the listed networks.
abbrev pub node_resolver : Reconciler → List ResourceSlice → Dict DeviceNetwork → Resolver
node_resolver r slices by_name = record {
  pod_network_kind = r.pod_network_kind;
  resource_slices = slices;
  device_networks = by_name;
  device_cache = r.device_cache;
}

module _ (make_device_id : String → String → String → String) (r : Reconciler) (node : Node)
    (networks : List DeviceNetwork) (slices : List ResourceSlice)
    (by_name : Dict DeviceNetwork) where
  resolve-Origin :
      (d : Kubernetes.Device) (o : Origin r node networks d)
      → AreDistinct r.attributes
      → ((ds : List Host.Device) (x : Host.Device) → In x (r.device_order ds) → In x ds)
      → IsKeyed r.device_cache.store
      → All (IsListed by_name) networks
      → resolve make_device_id r.attributes (node_resolver r slices by_name) d
        ≡ ok (record {
          network = o.network;
          configuration = o.configuration;
          exposed = d;
          host = o.host;
        })
  unfolding resolve list_devices
  resolve-Origin d o distinct order keyed listed =
      let (pod_network, kind, configuration, host) =
        subst
          (λ (x : Kubernetes.Device).
            (string_of (lookup r.attributes.pod_network x.attributes) ≡ some o.network.name)
            × (string_of (lookup r.attributes.pod_network_kind x.attributes)
                ≡ some r.pod_network_kind)
            × (string_of (lookup attribute_device_configuration x.attributes)
                ≡ some o.configuration.name)
            × (string_of (lookup attribute_host_device_name x.attributes) ≡ some o.host.name))
          (sym o.finished)
          (finished_attributes r o.network o.configuration o.host o.exposed distinct) in
      let (by_lister, unique) = All-at (IsListed by_name) networks listed o.network o.of_network in
      let found = get-lookup r.device_cache o.host.name (
        lookup-name o.host r.device_cache.store keyed (
          list-In r.cel r.device_order order r.device_cache o.is_selected.selector.selectors o.host
            o.is_selected.selects)) in
      let chosen =
        find_configuration-In o.configuration o.network.spec.device_configurations unique
          o.of_configuration in
      rw pod_network (
        rw kind (
          rw configuration
            (rw host (rw found (rw by_lister (rw chosen (rw (eq_refl r.pod_network_kind))))))))

-- Let the reconciler's walks show only what is there, its cache hold devices under their names, the
-- four attributes have different names, device ids of one driver and pool differ with the name, and
-- the lister hold the networks by name, each with no configuration name twice. When getResources
-- succeeds with no device name twice, the slices are of the driver and the pool of an allocation
-- result and hold together just the devices that it publishes, and the result names one of these,
-- then GetDevice of the result returns the result, the network, configuration and host
-- device that the device was published for, and the device itself.
pub get_device-get_resources :
    (make_device_id : String → String → String → String) (r : Reconciler) (node : Node)
    (networks : List DeviceNetwork) (slices : List ResourceSlice) (by_name : Dict DeviceNetwork)
    (res : DriverResources) (d : Kubernetes.Device) (result : DeviceRequestAllocationResult)
    → ((driver pool a b : String)
        → make_device_id driver pool a ≡ make_device_id driver pool b
        → a ≡ b)
    → ((m : Dict Host.Device) (e : String × Host.Device) → In e (r.entry_order m) → In e m)
    → ((ds : List Host.Device) (x : Host.Device) → In x (r.device_order ds) → In x ds)
    → IsKeyed r.device_cache.store
    → AreDistinct r.attributes
    → All (IsListed by_name) networks
    → get_resources r node networks ≡ ok res
    → Distinct (names (pool_devices res.pools))
    → All (λ rs. (rs.driver ≡ result.driver) × (rs.pool ≡ result.pool)) slices
    → all_devices slices ≡ pool_devices res.pools
    → In d (pool_devices res.pools)
    → result.device ≡ d.name
    → (o : Origin r node networks d) × (get_device make_device_id r.attributes
          (node_resolver r slices by_name)
          (some result)
        ≡ ok (resolved_device result o.network o.configuration d o.host))
unfolding get_device get_device_network_for_device
get_device-get_resources make_device_id r node networks slices by_name res d result injective
      entries order keyed distinct listed e unique of_pool together i named =
    let o =
      All-at (Origin r node networks) (pool_devices res.pools)
        (get_resources-Origin r node networks entries e) d i in
    let (rs, index, find) =
      find_published make_device_id injective result.driver result.pool slices d of_pool
        (subst (λ ds. Distinct (names ds)) (sym together) unique)
        (subst (λ ds. In d ds) (sym together) i) in
    let resolved =
      resolve-Origin make_device_id r node networks slices by_name d o distinct order keyed
        listed in
    (o, rw named (rw index (rw find (rw resolved))))
