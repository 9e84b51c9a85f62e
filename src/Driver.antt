-- ===== src/Driver.antt =====
-- pkg/driver/driver.go: the kubelet plugin prepares claims. The state is the history of calls of the
-- system and the store of claims. The registration with the kubelet is not modelled.
pub mod Prepares
pub mod Identity
pub mod Allocates
pub mod Keeps
pub mod Handover
use device_network.Prelude.{
  ℕ, String, ◌==◌, eqb, length, Bool, true, Option, none, some, List, [], ◌∷◌, map, if◌then◌else◌,
}
use device_network.Prelude.Results.{Result, ok, err, panic, unfinished}
use device_network.Prelude.Exec.{
  Exec, ◌>>=◌, ◌>>◌, pure, lift, wrapped, guarded, required_ptr, deref_ptr, modify,
}
use device_network.Prelude.Results
use device_network.Prelude.Dict.{Dict, lookup, insert}
use device_network.Kubernetes.{
  DeviceAttribute, DeviceRequestAllocationResult, AllocatedDeviceStatus, NetworkDeviceData,
  Condition, ResourceClaim, RawExtension, no_network_data,
}
use device_network.Api.{DeviceConfiguration, DeviceNetwork, get_device_type}
use device_network.Host
use device_network.Resolver
use device_network.Store
use device_network.Store.{Memory}
use device_network.Platform.{
  Platform, Sys, History, call, applied, ResourceClaimDeviceStatusData, PodNetwork,
  condition_allocation, reason_allocated,
}
use device_network.Configurators.{Configurators}

-- k8s.io/dynamic-resource-allocation/kubeletplugin: `Device` and its metadata.
pub record KubeletDevice : Type 0 where
  pub requests : List String
  pub pool_name : String
  pub device_name : String
  pub share_id : Option String
  pub attributes : Dict DeviceAttribute
  pub network_data : Option NetworkDeviceData

pub record PrepareResult : Type 0 where
  pub error : Option String
  pub devices : List KubeletDevice

pub record Driver : Type 0 where
  pub pod_network_kind : String
  pub driver_name : String
  pub device_configurators : Configurators
  -- The interface `deviceResolver`.
  pub get_device : Option DeviceRequestAllocationResult → Result (Option Resolver.Device)

pub record NodeState : Type 0 where
  pub history : History
  pub pod_resource_store : Memory

-- A call of the system leaves the store alone.
abbrev pub on_system : {A : Type 0} → Sys A → Exec NodeState A
on_system m s = let (r, h) = m s.history in (r, record s { history = h })

abbrev pub head? : List String → Option String
head? [] = none
head? (x ∷ xs) = some x

unfoldable pub copy_attributes : Dict DeviceAttribute → Dict DeviceAttribute
copy_attributes [] = []
copy_attributes ((k, v) ∷ m) = insert k v (copy_attributes m)

abbrev pub allocated_condition : Condition
allocated_condition = record {
  type = condition_allocation;
  status = "True";
  reason = reason_allocated;
  message = "Device has been successfully allocated";
}

-- The apply configuration of a condition: its message is not set.
unfoldable pub apply_condition : Condition → Condition
apply_condition c = record c { message = "" }

-- The status before a configurator fills it in.
unfoldable pub initial_status : DeviceRequestAllocationResult → String → AllocatedDeviceStatus
initial_status result raw = record {
  driver = result.driver;
  pool = result.pool;
  device = result.device;
  share_id = result.share_id;
  conditions = [];
  status_data = some (record { raw = some raw });
  network_data = some no_network_data;
}

unfoldable pub status_data_of :
    String
    → DeviceNetwork
    → DeviceConfiguration
    → Option Host.Device
    → ResourceClaimDeviceStatusData
status_data_of kind network dc host_device = record {
  pod_network = some (record { kind = kind; name = network.name });
  device_configuration = some dc;
  device = host_device;
}

unfoldable pub kubelet_device :
    DeviceRequestAllocationResult → Dict DeviceAttribute → AllocatedDeviceStatus → KubeletDevice
unfolding copy_attributes
kubelet_device result attributes status = record {
  requests = result.request ∷ [];
  pool_name = result.pool;
  device_name = result.device;
  share_id = result.share_id;
  attributes = copy_attributes attributes;
  network_data = status.network_data;
}

module _ (p : Platform) (d : Driver) where
  -- The apply configuration of the status: what it sets, with the conditions given.
  unfoldable pub apply_status_of : AllocatedDeviceStatus → AllocatedDeviceStatus
  unfolding apply_condition
  apply_status_of status = record status {
    conditions = map apply_condition (p.set_status_condition [] allocated_condition);
  }

  unfoldable pub allocate_device :
      Option Resolver.Device → Sys (Option KubeletDevice × Option AllocatedDeviceStatus)
  unfolding initial_status status_data_of
  allocate_device resolved = do
    device ← required_ptr resolved "resolved device is nil"
    result ←
        required_ptr device.device_request_allocation_result
          "device request allocation result is nil for resolved device"
    exposed ← required_ptr device.exposed_device "exposed device is nil for resolved device"
    dc ← required_ptr device.device_configuration "device configuration is nil for resolved device"
    network ← required_ptr device.device_network "device network is nil for resolved device"
    raw ←
        required_ptr (p.marshal (status_data_of d.pod_network_kind network dc device.host_device))
          "failed to json.Marshal result"
    configurator ←
        required_ptr (lookup (get_device_type dc) d.device_configurators)
          "no configurator found for device type"
    allocated ← wrapped "failed to allocate device" (
        configurator.allocate device.host_device (some dc)
          (some network.spec.network_interface_configuration) (some (initial_status result raw)))
    status ← deref_ptr allocated
    pure (some (kubelet_device result exposed.attributes status), some (apply_status_of status))

  -- `statusUpdates.WithDevices`, of a status that is not nil.
  unfoldable pub with_status :
      Option AllocatedDeviceStatus → List AllocatedDeviceStatus → List AllocatedDeviceStatus
  with_status none statuses = statuses
  with_status (some s) statuses = s ∷ statuses

  -- The loop over the results of the allocation.
  unfoldable pub prepare_results :
      List DeviceRequestAllocationResult → Sys (List KubeletDevice × List AllocatedDeviceStatus)
  unfolding with_status
  prepare_results [] = pure ([], [])
  prepare_results (result ∷ results) =
      let rest = prepare_results results in
      if result.driver == d.driver_name
      then (do
        resolved ←
            wrapped "failed to get devices for claim during allocation"
              (lift (d.get_device (some result)))
        prepared ← wrapped "failed to allocate device" (allocate_device resolved)
        device ← required_ptr prepared.0 "failed to allocate device: device is nil"
        others ← rest
        pure (device ∷ others.0, with_status prepared.1 others.1))
      else rest

  unfoldable pub node_prepare_resource : ResourceClaim → Exec NodeState (List KubeletDevice)
  node_prepare_resource claim = do
    guarded (eqb (length claim.reserved_for) 1) "expected exactly one reservation for claim"
    results ← required_ptr claim.allocation "claim status allocation is nil"
    prepared ← on_system (prepare_results results)
    updated ← on_system (
        call (λ h. p.apply_status h claim.name claim.namespace prepared.1 d.driver_name)
          (applied claim.name claim.namespace prepared.1) "failed to update resource claim status")
    pod_uid ← deref_ptr (head? updated.reserved_for)
    modify (λ s. record s { pod_resource_store = Store.add s.pod_resource_store pod_uid updated })
    pure prepared.0

  -- An error is the claim's result; a panic goes on.
  claim_result : Result (List KubeletDevice) → Result PrepareResult
  claim_result (ok devices) = ok (record { error = none; devices = devices })
  claim_result (err e) = ok (record { error = some e; devices = [] })
  claim_result panic = panic
  claim_result unfinished = unfinished

  prepare_from : Dict PrepareResult → List ResourceClaim → Exec NodeState (Dict PrepareResult)
  unfolding claim_result
  prepare_from result [] = pure result
  prepare_from result (claim ∷ claims) = do
    r ← λ s. (let (o, t) = node_prepare_resource claim s in (claim_result o, t))
    prepare_from (insert claim.uid r result) claims

  pub prepare_resource_claims : List ResourceClaim → Exec NodeState (Dict PrepareResult)
  unfolding prepare_from
  prepare_resource_claims claims = prepare_from [] claims

-- `nodeUnprepareResource` does nothing yet.
node_unprepare_resource : String → Exec NodeState (Option String)
node_unprepare_resource uid = pure none

unprepare_from : Dict (Option String) → List String → Exec NodeState (Dict (Option String))
unfolding node_unprepare_resource
unprepare_from result [] = pure result
unprepare_from result (uid ∷ uids) = do
  e ← node_unprepare_resource uid
  unprepare_from (insert uid e result) uids

pub unprepare_resource_claims : List String → Exec NodeState (Dict (Option String))
unfolding unprepare_from
unprepare_resource_claims uids = unprepare_from [] uids
