-- ===== src/Examples/Prepared.antt =====
-- A claim is prepared, on the example.
use device_network.Prelude.{none, some, List, [], ◌∷◌, ◌≡◌, refl, map, length, ◌⊎◌}
use device_network.Prelude.Results.{ok}
use device_network.Prelude.Dict.{lookup, insert}
use device_network.Kubernetes.{AllocatedDeviceStatus, ResourceClaim}
use device_network.Host.{same_spec}
use device_network.Platform.{applied}
use device_network.Configurators.HostDevice
use device_network.Configurators.Common.{common_allocate, has_ips, provide}
use device_network.Cmd.{device_configurators}
use device_network.Api.{get_device_type}
use device_network.Store
use device_network.Driver.{
  KubeletDevice, NodeState, prepare_results, node_prepare_resource, allocate_device, kubelet_device,
  copy_attributes, with_status, apply_status_of, apply_condition, initial_status, status_data_of,
}
use device_network.Driver.Prepares.{node_prepare_resource-fails}
use device_network.Driver.Identity.{
  AnswersFor, identity, identity_of, own, prepare_results-identity,
}
use device_network.Examples.Data.{platform, driver, results, claim, start}

abbrev pub status : AllocatedDeviceStatus
status = record {
  driver = "driver";
  pool = "node0";
  device = "blue-whole-eth0";
  share_id = none;
  conditions =
      record { type = "Allocation"; status = "True"; reason = "Allocated"; message = "" } ∷ [];
  status_data = some (record { raw = some "whole" });
  network_data = some (record { interface_name = "eth0"; ips = []; hardware_address = "" });
}

abbrev pub prepared : KubeletDevice
prepared = record {
  requests = "net" ∷ [];
  pool_name = "node0";
  device_name = "blue-whole-eth0";
  share_id = none;
  attributes =
      ("devicenetwork.io/hostDeviceName", record { string_value = some "eth0" })
      ∷ ("devicenetwork.io/deviceConfiguration", record { string_value = some "whole" })
      ∷ ("podNetworkKind", record { string_value = some "DeviceNetwork" })
      ∷ ("podNetwork", record { string_value = some "blue" })
      ∷ ("devicenetwork.io/deviceType", record { string_value = some "HostDevice" })
      ∷ [];
  network_data = some (record { interface_name = "eth0"; ips = []; hardware_address = "" });
}

abbrev updated : ResourceClaim
updated = record {
  uid = "uid";
  name = "claim";
  namespace = "default";
  reserved_for = "pod" ∷ [];
  allocation = none;
  devices = status ∷ [];
}

abbrev finish : NodeState
finish = record {
  history = applied "claim" "default" (status ∷ []) ∷ [];
  pod_resource_store = record { pod_resources = ("pod", updated ∷ []) ∷ [] };
}

prepares : prepare_results platform driver results [] ≡ (ok (prepared ∷ [], status ∷ []), [])
unfolding prepare_results allocate_device kubelet_device copy_attributes with_status apply_status_of
    apply_condition initial_status status_data_of device_configurators HostDevice.configurator
    HostDevice.allocate common_allocate has_ips provide get_device_type lookup insert same_spec
prepares = refl

answers : AnswersFor platform driver
unfolding AnswersFor
answers result device e = cc

prepare_results-identity_example :
    (map identity (prepared ∷ []) ≡ map identity_of (own "driver" results))
    × (length (status ∷ []) ≡ length (prepared ∷ []))
prepare_results-identity_example =
    prepare_results-identity platform driver answers results [] [] {ds = prepared ∷ []}
      {ss = status ∷ []} prepares

-- A claim that is reserved for nobody is refused.
node_prepare_resource-fails_example :
    let s = node_prepare_resource platform driver (record claim { reserved_for = [] }) start in
    ((devices : List KubeletDevice) × (s.0 ≡ ok devices))
    ⊎ (s.1.pod_resource_store ≡ start.pod_resource_store)
node_prepare_resource-fails_example =
    node_prepare_resource-fails platform driver (record claim { reserved_for = [] }) start
