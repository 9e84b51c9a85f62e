-- ===== src/Examples/Resolved.antt =====
-- A published device is resolved, on the example.
use device_network.Prelude.{String, some, List, [], ◌∷◌, ◌≡◌, refl, inl, contains}
use device_network.Prelude.Results.{ok}
use device_network.Prelude.Dict.{lookup}
use device_network.Kubernetes.{ResourceSlice}
use device_network.Reconciler.Origin.{Origin}
use device_network.Host.Cache.{get}
use device_network.Resolver.{
  Device, Resolved, find_device, find_configuration, by_index, resolve,
  get_device_network_for_device, get_device,
}
use device_network.Resolver.Sound.{IsListedAs, IsNamed, get_device-IsResolved}
use device_network.Resolver.Published.{get_device-get_resources, node_resolver, resolved_device}
use device_network.Examples.Data.{
  reconciler, node, network, networks, resources, devices, whole, eth0, whole_eth0, result_of,
  attributes,
}
use device_network.Examples.Published.{runs}

-- Ids of one driver and one pool: the name of the device.
abbrev pub id : String → String → String → String
id driver pool name = name

abbrev pub slices : List ResourceSlice
slices = record { driver = "driver"; pool = "node0"; devices = devices } ∷ []

get_device-get_resources_example :
    (o : Origin reconciler node networks whole_eth0) × (get_device id attributes
        (node_resolver reconciler slices (("blue", network) ∷ []))
        (some (result_of "blue-whole-eth0"))
      ≡ ok (
          resolved_device
            (result_of "blue-whole-eth0")
            o.network
            o.configuration
            whole_eth0
            o.host))
unfolding contains lookup
get_device-get_resources_example =
    get_device-get_resources id reconciler node networks slices (("blue", network) ∷ []) resources
      whole_eth0 (result_of "blue-whole-eth0") (λ driver pool a b e. e) (λ m e i. i) (λ ds x i. i)
      (refl, refl, (refl, refl, tt)) (refl, (refl, (refl, (refl, tt))))
      ((refl, (refl, (refl, tt))), tt) runs (refl, (refl, (refl, (refl, tt)))) ((refl, refl), tt)
      refl (inl refl) refl

abbrev found : Device
found = resolved_device (result_of "blue-whole-eth0") network whole whole_eth0 eth0

finds :
    get_device id attributes
      (node_resolver reconciler slices (("blue", network) ∷ []))
      (some (result_of "blue-whole-eth0"))
    ≡ ok found
unfolding get_device get_device_network_for_device by_index contains find_device resolve lookup get
    find_configuration
finds = refl

get_device-IsResolved_example :
    (x : Resolved) × (found
      ≡ resolved_device (result_of "blue-whole-eth0") x.network x.configuration x.exposed x.host)
    × IsListedAs id attributes
        (node_resolver reconciler slices (("blue", network) ∷ []))
        (result_of "blue-whole-eth0")
        x.exposed
    × IsNamed id attributes (node_resolver reconciler slices (("blue", network) ∷ [])) x
get_device-IsResolved_example =
    get_device-IsResolved id attributes (node_resolver reconciler slices (("blue", network) ∷ []))
      (result_of "blue-whole-eth0") found finds
