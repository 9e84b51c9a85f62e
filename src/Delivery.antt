-- ===== src/Delivery.antt =====
-- From the reconciler to the pod: the reconciler publishes a device, the resolver finds it for the driver,
-- which allocates it and leaves a status, from which the NRI plugin configures it
-- (pkg/controllers/devicenetwork/reconciler.go, pkg/resolver/resolver.go, pkg/driver/driver.go,
-- pkg/nri/process.go).
use device_network.Prelude.{
  String, ◌≡◌, refl, Option, some, List, In, All, Distinct, sym, subst, ◌∙◌,
}
use device_network.Prelude.Results
use device_network.Prelude.Results.{some-injective, ok}
use device_network.Prelude.Exec.{◌>>=◌, pure, lift, wrapped}
use device_network.Prelude.Dict.{Dict, lookup}
use device_network.Kubernetes
use device_network.Kubernetes.{
  Node, ResourceSlice, DeviceRequestAllocationResult, AllocatedDeviceStatus,
}
use device_network.Api.{DeviceNetwork, get_device_type}
use device_network.Host
use device_network.Host.Cache.Keyed.{IsKeyed}
use device_network.Cmd.{device_configurators}
use device_network.Platform.{Platform, History}
use device_network.Reconciler.{Reconciler, DriverResources, get_resources}
use device_network.Reconciler.Attributes.{AreDistinct}
use device_network.Reconciler.Origin.{Origin}
use device_network.Reconciler.Pools.{pool_devices}
use device_network.Resolver.{get_device}
use device_network.Resolver.Lookup.{names, all_devices}
use device_network.Resolver.Published.{
  IsListed, node_resolver, resolved_device, get_device-get_resources,
}
use device_network.Driver.{Driver, KubeletDevice, allocate_device}
use device_network.Driver.Handover.{RoundTrips, described, allocate_device-IsHandedOver}
use device_network.Nri.Process.{configure_device}

-- The reconciler, the resolver and the driver of one node.
pub record Deployment : Type 1 where
  pub platform : Platform
  pub reconciler : Reconciler
  pub driver : Driver
  pub node : Node
  pub networks : List DeviceNetwork
  pub resources : DriverResources
  -- What the resolver reads: the slices, and the networks by name.
  pub slices : List ResourceSlice
  pub by_name : Dict DeviceNetwork
  pub make_device_id : String → String → String → String

-- The parts fit: the walks show only what is there, names and ids tell devices apart, the driver asks the
-- resolver of the same node, all have the program's configurators, and JSON round-trips.
pub record Fits (w : Deployment) : Type 1 where
  pub ids_differ :
      (driver pool a b : String)
      → w.make_device_id driver pool a ≡ w.make_device_id driver pool b
      → a ≡ b
  pub entries_shown :
      (m : Dict Host.Device) (e : String × Host.Device) → In e (w.reconciler.entry_order m) → In e m
  pub devices_shown :
      (ds : List Host.Device) (x : Host.Device) → In x (w.reconciler.device_order ds) → In x ds
  pub cache_keyed : IsKeyed w.reconciler.device_cache.store
  pub attributes_distinct : AreDistinct w.reconciler.attributes
  pub networks_listed : All (IsListed w.by_name) w.networks
  pub published : get_resources w.reconciler w.node w.networks ≡ ok w.resources
  pub names_distinct : Distinct (names (pool_devices w.resources.pools))
  pub slices_complete : all_devices w.slices ≡ pool_devices w.resources.pools
  pub reconciler_configurators : w.reconciler.device_configurators ≡ device_configurators w.platform
  pub driver_configurators : w.driver.device_configurators ≡ device_configurators w.platform
  pub asks_resolver :
      (result : Option DeviceRequestAllocationResult)
      → w.driver.get_device result
        ≡ Results.◌>>=◌
            (get_device w.make_device_id w.reconciler.attributes
              (node_resolver w.reconciler w.slices w.by_name)
              result)
            λ device. ok (some device)
  pub round_trips : RoundTrips w.platform

-- The status carries what the device was published for, and the NRI plugin configures it with the
-- configurator that supported and exposed it.
pub record IsDelivered (w : Deployment) (device : Kubernetes.Device)
    (status : AllocatedDeviceStatus) : Type 1 where
  pub origin : Origin w.reconciler w.node w.networks device
  pub raw : String
  pub carried : status.status_data ≡ some (record { raw = some raw })
  pub decoded :
      w.platform.unmarshal raw
      ≡ some (
          described w.driver.pod_network_kind origin.network origin.configuration
            (some origin.host))
  pub configures :
      (namespace : String) (h : History)
      → configure_device w.platform w.driver.driver_name w.driver.device_configurators namespace
          status h
        ≡ (wrapped "failed to configure device"
                (origin.configurator.configure namespace (some status))
              >>= λ r. pure tt)
            h

-- The driver resolves the device to its origin and allocates it.
delivered :
    (w : Deployment) (device : Kubernetes.Device) (result : DeviceRequestAllocationResult)
    (h t : History) (o : Origin w.reconciler w.node w.networks device) {x : Option KubeletDevice}
    {status : AllocatedDeviceStatus}
    → Fits w
    → get_device w.make_device_id w.reconciler.attributes
        (node_resolver w.reconciler w.slices w.by_name)
        (some result)
      ≡ ok (resolved_device result o.network o.configuration device o.host)
    → (wrapped "failed to get devices for claim during allocation"
            (lift (w.driver.get_device (some result)))
          >>= allocate_device w.platform w.driver)
        h
      ≡ (ok (x, some status), t)
    → IsDelivered w device status
delivered w device result h t o {x} {status} f resolves e =
    let answers : w.driver.get_device (some result)
        ≡ ok (some (resolved_device result o.network o.configuration device o.host)) =
      f.asks_resolver (some result) ∙ rw resolves refl in
    let a =
      allocate_device-IsHandedOver w.platform w.driver f.round_trips f.driver_configurators
        (resolved_device result o.network o.configuration device o.host) h t {x = x}
        {status = status} (rw answers at e) in
    let same_configuration : a.configuration ≡ o.configuration = cc (a.of_configuration) in
    let same_network : a.network ≡ o.network = cc (a.of_network) in
    let both = f.driver_configurators ∙ sym f.reconciler_configurators in
    let found : lookup (get_device_type o.configuration) w.driver.device_configurators
        ≡ some o.configurator =
      subst (λ m. lookup (get_device_type o.configuration) m ≡ some o.configurator) (sym both)
        o.of_type in
    let same_configurator : a.configurator ≡ o.configurator = some-injective (
      sym a.same_configurator
      ∙ subst (λ c. lookup (get_device_type c) w.driver.device_configurators ≡ some o.configurator)
          (sym same_configuration) found) in
    record {
      origin = o;
      raw = a.raw;
      carried = a.carried;
      decoded =
          subst
            (λ c.
              w.platform.unmarshal a.raw
              ≡ some (described w.driver.pod_network_kind o.network c (some o.host)))
            same_configuration
            (subst
              (λ n.
                w.platform.unmarshal a.raw
                ≡ some (described w.driver.pod_network_kind n a.configuration (some o.host)))
              same_network a.decoded);
      configures =
          subst
            (λ c.
              (namespace : String) (u : History)
              → configure_device w.platform w.driver.driver_name w.driver.device_configurators
                  namespace status u
                ≡ (wrapped "failed to configure device" (c.configure namespace (some status))
                      >>= λ r. pure tt)
                    u)
            same_configurator a.configures;
    }

-- In a deployment whose parts fit, let the slices be of the driver and the pool of an allocation result that
-- names a published device. When the driver resolves and allocates it, the status that it leaves is delivered: it carries
-- the network, the configuration and the host device that the device was published for, and from it the
-- NRI plugin configures the device with the configurator that supported and exposed it.
pub allocate_device-IsDelivered :
    (w : Deployment) (device : Kubernetes.Device) (result : DeviceRequestAllocationResult)
    (h t : History) {x : Option KubeletDevice} {status : AllocatedDeviceStatus}
    → Fits w
    → All (λ (rs : ResourceSlice). (rs.driver ≡ result.driver) × (rs.pool ≡ result.pool)) w.slices
    → In device (pool_devices w.resources.pools)
    → result.device ≡ device.name
    → (wrapped "failed to get devices for claim during allocation"
            (lift (w.driver.get_device (some result)))
          >>= allocate_device w.platform w.driver)
        h
      ≡ (ok (x, some status), t)
    → IsDelivered w device status
allocate_device-IsDelivered w device result h t {x} {status} f of_pool i named e =
    let (o, resolves) =
      get_device-get_resources w.make_device_id w.reconciler w.node w.networks w.slices w.by_name
        w.resources device result f.ids_differ f.entries_shown f.devices_shown f.cache_keyed
        f.attributes_distinct f.networks_listed f.published f.names_distinct of_pool
        f.slices_complete i named in
    delivered w device result h t o {x = x} {status = status} f resolves e
