-- ===== src/Configurators/HostDevice.antt =====
-- The host device configurator (pkg/configurators/hostdevice.go).
pub mod Moves
pub mod Configures
pub mod Support
use device_network.Prelude.{
  ℕ, String, ◌==◌, Bool, true, false, ◌||◌, Option, none, some, List, [], ◌∷◌, ◌++◌, eqb,
  if◌then◌else◌,
}
use device_network.Prelude.Results.{Result, ok, err, panic, unfinished, required}
use device_network.Prelude.Results
use device_network.Prelude.Exec.{
  ◌>>=◌, ◌>>◌, pure, lift, gets, wrapped, guarded, required_ptr, deref_ptr,
}
use device_network.Kubernetes
use device_network.Kubernetes.{
  AllocatedDeviceStatus, RawExtension, NetworkDeviceData, no_network_data, empty_device,
}
use device_network.Api.{
  DeviceConfiguration, NetworkInterfaceConfiguration, get_device_type, device_type_host_device,
}
use device_network.Host
use device_network.Host.Rdma.{rdma_devices_for_netdev, default_sysfs_net_root}
use device_network.Platform.{
  Platform, Sys, call, call_ok, closing, opened_ns, found_rdma, moved_rdma, found_link, moved_link,
}
use device_network.Configurators.{Configurator}
use device_network.Configurators.Common.{CommonConfigurator, common_allocate}

pub record HostDevice : Type 0 where
  pub sysfs_net_root : String
  pub common_configurator : Option CommonConfigurator

-- The switch on the kind of link, and the tests around it.
unfoldable pub supports_device : Host.DeviceSpec → Bool
supports_device spec =
    if spec.link_layer_type == "loopback"
    then false
    else (if spec.device_type == "bridge"
          || (spec.device_type == "bond"
              || (spec.device_type == "team" || spec.device_type == "tuntap"))
        then false
        else (if eqb spec.parent_index 0 then eqb spec.master_index 0 else false))

unfoldable pub is_supported : Option Host.Device → Option DeviceConfiguration → Result Bool
unfolding supports_device
is_supported host_device configuration =
    Results.◌>>=◌ (required host_device "hostDevice is nil") λ hd.
      Results.◌>>=◌ (required configuration "deviceConfiguration is nil") λ dc.
        if get_device_type dc == device_type_host_device
        then ok (supports_device hd.spec)
        else ok false

-- A nil device stands for an empty one; nil maps and slices are the empty ones already.
abbrev pub or_empty : Option Kubernetes.Device → Kubernetes.Device
or_empty none = empty_device
or_empty (some d) = d

abbrev pub mutual_exclusion : String
mutual_exclusion = "mutual-exclusion"

unfoldable pub exposed_device :
    Option Host.Device → Option Kubernetes.Device → Result (Option Kubernetes.Device)
exposed_device host_device device = Results.◌>>=◌ (required host_device "hostDevice is nil") λ hd.
    ok (
      some (record (or_empty device) {
        allow_multiple_allocations = some false;
        consumes_counters =
            (or_empty device).consumes_counters
            ++ record { counter_set = hd.name; counters = (mutual_exclusion, 65536) ∷ [] } ∷ [];
      }))

-- `Data == nil || Data.Raw == nil`
abbrev raw_of : Option RawExtension → Option String
raw_of none = none
raw_of (some r) = r.raw

module _ (p : Platform) (hd : HostDevice) where
  unfoldable pub allocate :
      Option Host.Device
      → Option DeviceConfiguration
      → Option NetworkInterfaceConfiguration
      → Option AllocatedDeviceStatus
      → Sys (Option AllocatedDeviceStatus)
  allocate host_device configuration nic status = do
    given ← required_ptr status "allocatedDeviceStatus is nil"
    device ← deref_ptr host_device
    let res : AllocatedDeviceStatus = record given {
      network_data = some (record no_network_data { interface_name = device.spec.interface_name });
    }
    elim hd.common_configurator [
      | none ↦ pure (some res)
      | some c ↦
          wrapped "failed to allocate common network data"
            (common_allocate p c (some device) nic (some res))
    ]

  -- The loop over the RDMA devices.
  unfoldable pub move_rdma_devices : ℕ → List String → Sys (Unit {0})
  move_rdma_devices ns [] = pure tt
  move_rdma_devices ns (name ∷ names) = do
    link ← call (λ h. p.rdma_link_by_name h name) (found_rdma name) "failed to get RDMA link"
    call_ok (λ h. p.rdma_link_set_ns_fd h link ns) (moved_rdma link ns)
        "failed to move RDMA link to pod network namespace"
    move_rdma_devices ns names

  unfoldable pub sysfs_root : String
  sysfs_root = if hd.sysfs_net_root == "" then default_sysfs_net_root else hd.sysfs_net_root

  -- With the namespace open: the RDMA devices are found, then moved, then the link.
  unfoldable pub move_device : ℕ → String → Sys (Unit {0})
  unfolding sysfs_root
  move_device ns if_name = do
    files ← gets p.files
    names ← lift (rdma_devices_for_netdev files sysfs_root if_name)
    move_rdma_devices ns names
    link ← call (λ h. p.link_by_name h if_name) (found_link if_name) "failed to get link"
    call_ok (λ h. p.link_set_ns_fd h link ns) (moved_link link ns)
        "failed to move link to pod network namespace"

  unfoldable pub configure :
      String → Option AllocatedDeviceStatus → Sys (Option AllocatedDeviceStatus)
  configure pod_network_namespace status = do
    given ← required_ptr status "allocatedDeviceStatus is nil"
    raw ← required_ptr (raw_of given.status_data) "allocated device status data is nil"
    content ← required_ptr (p.unmarshal raw) "failed to unmarshal allocated device status data"
    device ←
        required_ptr content.device
          "allocated device status data does not contain device information"
    dc ←
        required_ptr content.device_configuration
          "allocated device status data does not contain device configuration information"
    guarded (get_device_type dc == device_type_host_device)
        "allocated device status data does not contain host device configuration information"
    ns ←
        call (λ h. p.ns_from_path h pod_network_namespace) (opened_ns pod_network_namespace)
          "failed to get network namespace from path"
    closing ns (do move_device ns device.spec.interface_name; pure (some given))

  pub release : String → Option AllocatedDeviceStatus → Sys (Option AllocatedDeviceStatus)
  release pod_network_namespace status = pure none

  unfoldable pub configurator : Configurator
  configurator = record {
    is_supported = is_supported;
    exposed_device = exposed_device;
    allocate = allocate;
    configure = configure;
    release = release;
  }
