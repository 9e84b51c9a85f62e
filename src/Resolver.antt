-- ===== src/Resolver.antt =====
-- pkg/resolver/resolver.go: from an allocated device to its network, its configuration and the host
-- device. The state is what the informers hold: the slices in the index's order, the networks by
-- name, and the device cache.
pub mod Lookup
pub mod Published
pub mod Sound
use device_network.Prelude.{
  String, ◌==◌, Bool, Option, none, some, List, [], ◌∷◌, contains, if◌then◌else◌,
}
use device_network.Prelude.Results.{
  Result, ok, err, panic, unfinished, ◌>>=◌, ◌>>◌, guard, required, wrap,
}
use device_network.Prelude.Dict.{Dict, lookup}
use device_network.Kubernetes
use device_network.Kubernetes.{DeviceAttribute, ResourceSlice, DeviceRequestAllocationResult}
use device_network.Api.{
  DeviceNetwork, DeviceConfiguration, StandardAttributes, attribute_device_configuration,
  attribute_host_device_name,
}
use device_network.Host
use device_network.Host.Cache.{DeviceCache, get}

pub record Resolver : Type 0 where
  pub pod_network_kind : String
  pub resource_slices : List ResourceSlice
  pub device_networks : Dict DeviceNetwork
  pub device_cache : DeviceCache

-- The result of `GetDevice`: pointers.
pub record Device : Type 0 where
  pub device_request_allocation_result : Option DeviceRequestAllocationResult
  pub device_network : Option DeviceNetwork
  pub device_configuration : Option DeviceConfiguration
  pub exposed_device : Option Kubernetes.Device
  pub host_device : Option Host.Device

-- What `getDeviceNetworkForDevice` returns.
pub record Resolved : Type 0 where
  pub network : DeviceNetwork
  pub configuration : DeviceConfiguration
  pub exposed : Kubernetes.Device
  pub host : Host.Device

-- The loop over the devices of a slice.
unfoldable pub find_device : String → List Kubernetes.Device → Option Kubernetes.Device
find_device name [] = none
find_device name (d ∷ ds) = if d.name == name then some d else find_device name ds

unfoldable pub find_configuration : String → List DeviceConfiguration → Option DeviceConfiguration
find_configuration name [] = none
find_configuration name (dc ∷ dcs) =
    if dc.name == name then some dc else find_configuration name dcs

-- A missing attribute, and one with no text.
abbrev pub string_of : Option DeviceAttribute → Option String
string_of none = none
string_of (some a) = a.string_value

-- `make_device_id` is `structured.MakeDeviceID(...).String()`.
module _ (make_device_id : String → String → String → String) where
  -- The index function.
  unfoldable pub index_keys : String → String → List Kubernetes.Device → List String
  index_keys driver pool [] = []
  index_keys driver pool (d ∷ ds) = make_device_id driver pool d.name ∷ index_keys driver pool ds

  unfoldable pub device_id_index : ResourceSlice → List String
  unfolding index_keys
  device_id_index rs = index_keys rs.driver rs.pool rs.devices

  -- `ByIndex`, first object.
  unfoldable pub by_index : String → List ResourceSlice → Option ResourceSlice
  unfolding device_id_index
  by_index key [] = none
  by_index key (rs ∷ slices) =
      if contains key (device_id_index rs) then some rs else by_index key slices

  module _ (attributes : StandardAttributes) (r : Resolver) where
    -- The attributes of the device, and the objects that they name.
    unfoldable pub resolve : Kubernetes.Device → Result Resolved
    resolve device = do
      pod_network ←
          required (string_of (lookup attributes.pod_network device.attributes))
            "device does not have pod network attribute"
      kind ←
          required (string_of (lookup attributes.pod_network_kind device.attributes))
            "device does not have the expected network kind attribute"
      guard (kind == r.pod_network_kind) "device does not have the expected network kind attribute"
      configuration_name ←
          required (string_of (lookup attribute_device_configuration device.attributes))
            "device does not have device configuration attribute"
      host_device_name ←
          required (string_of (lookup attribute_host_device_name device.attributes))
            "device does not have host device attribute"
      host ← wrap "failed to get host device" (get r.device_cache host_device_name)
      network ← required (lookup pod_network r.device_networks) "failed to get device network"
      configuration ←
          required (find_configuration configuration_name network.spec.device_configurations)
            "device configuration not found in device network"
      ok (record {
        network = network;
        configuration = configuration;
        exposed = device;
        host = host;
      })

    unfoldable pub get_device_network_for_device : DeviceRequestAllocationResult → Result Resolved
    get_device_network_for_device result = do
      slice ←
          required
            (by_index (make_device_id result.driver result.pool result.device) r.resource_slices)
            "no device found for deviceID"
      device ←
          required (find_device result.device slice.devices) "device not found in resource slice"
      resolve device

    unfoldable pub get_device : Option DeviceRequestAllocationResult → Result Device
    get_device none = panic
    get_device (some result) = do
      found ← wrap "failed to get device network for device" (get_device_network_for_device result)
      ok (record {
        device_request_allocation_result = some result;
        device_network = some found.network;
        device_configuration = some found.configuration;
        exposed_device = some found.exposed;
        host_device = some found.host;
      })
