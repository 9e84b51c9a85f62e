-- ===== src/Configurators/Macvlan.antt =====
-- The macvlan configurator (pkg/configurators/macvlan.go).
pub mod Configures
pub mod Support
use device_network.Prelude.{
  ℕ, String, ◌==◌, Bool, true, false, Option, none, some, List, [], ◌∷◌, ◌++◌, eqb, if◌then◌else◌,
}
use device_network.Prelude.Results.{Result, ok, required, deref}
use device_network.Prelude.Results
use device_network.Prelude.Exec.{◌>>=◌, ◌>>◌, pure, wrapped, guarded, required_ptr, deref_ptr}
use device_network.Prelude.Dict.{Dict, lookup, insert}
use device_network.Kubernetes
use device_network.Kubernetes.{
  AllocatedDeviceStatus, RawExtension, NetworkDeviceData, no_network_data, empty_device,
}
use device_network.Api.{
  DeviceConfiguration, NetworkInterfaceConfiguration, get_device_type, get_macvlan,
  device_type_macvlan, macvlan_mode_bridge, macvlan_mode_private, macvlan_mode_vepa,
  macvlan_mode_passthru, macvlan_mode_source, capacity_max_virtual_interfaces, max_virtual_devices,
}
use device_network.Host
use device_network.Platform.{
  Platform, Sys, call, call_ok, closing, opened_ns, added_link, NetlinkMode, mode_bridge,
  mode_private, mode_vepa, mode_passthru, mode_source, MacvlanLink,
}
use device_network.Configurators.{Configurator}
use device_network.Configurators.Common.{CommonConfigurator, common_allocate}
use device_network.Configurators.HostDevice.{or_empty, mutual_exclusion}
use device_network.Configurators.Random.{random_name}

pub record Macvlan : Type 0 where
  pub common_configurator : Option CommonConfigurator

unfoldable pub macvlan_mode_map : Dict NetlinkMode
macvlan_mode_map =
    (macvlan_mode_bridge, mode_bridge)
    ∷ (macvlan_mode_private, mode_private)
    ∷ (macvlan_mode_vepa, mode_vepa)
    ∷ (macvlan_mode_passthru, mode_passthru)
    ∷ (macvlan_mode_source, mode_source)
    ∷ []

abbrev is_some : {A : Type 0} → Option A → Bool
is_some none = false
is_some (some a) = true

unfoldable pub supports_device : Host.DeviceSpec → Bool
supports_device spec = if spec.link_layer_type == "ether" then eqb spec.master_index 0 else false

-- `*macvlanConfig.Mode` is a dereference.
unfoldable pub is_supported : Option Host.Device → Option DeviceConfiguration → Result Bool
unfolding supports_device macvlan_mode_map lookup
is_supported host_device configuration =
    Results.◌>>=◌ (required host_device "hostDevice is nil") λ hd.
      Results.◌>>=◌ (required configuration "deviceConfiguration is nil") λ dc.
        if get_device_type dc == device_type_macvlan
        then (Results.◌>>=◌ (deref (get_macvlan dc).mode) λ mode.
            if is_some (lookup mode macvlan_mode_map)
            then ok (supports_device hd.spec)
            else ok false)
        else ok false

unfoldable pub exposed_device :
    Option Host.Device → Option Kubernetes.Device → Result (Option Kubernetes.Device)
exposed_device host_device device = Results.◌>>=◌ (required host_device "hostDevice is nil") λ hd.
    ok (
      some (record (or_empty device) {
        allow_multiple_allocations = some true;
        capacity =
            insert capacity_max_virtual_interfaces
              (record {
                value = max_virtual_devices;
                request_policy = some (record { default = some 1; valid_values = 1 ∷ [] });
              })
              (or_empty device).capacity;
        consumes_counters =
            (or_empty device).consumes_counters
            ++ record { counter_set = hd.name; counters = (mutual_exclusion, 1) ∷ [] } ∷ [];
      }))

-- The bytes of a nil slice are none.
abbrev pub bytes_of : Option String → String
bytes_of none = ""
bytes_of (some raw) = raw

module _ (p : Platform) (mcvln : Macvlan) where
  unfoldable pub allocate :
      Option Host.Device
      → Option DeviceConfiguration
      → Option NetworkInterfaceConfiguration
      → Option AllocatedDeviceStatus
      → Sys (Option AllocatedDeviceStatus)
  allocate host_device configuration nic status = do
    given ← required_ptr status "allocatedDeviceStatus is nil"
    name ← random_name p
    let res : AllocatedDeviceStatus = record given {
      network_data = some (record no_network_data { interface_name = name });
    }
    elim mcvln.common_configurator [
      | none ↦ pure (some res)
      | some c ↦
          wrapped "failed to allocate common network data"
            (common_allocate p c host_device nic (some res))
    ]

  -- With the namespace open.
  unfoldable pub add_link :
      ℕ → DeviceConfiguration → Host.Device → Option NetworkDeviceData → Sys (Unit {0})
  unfolding macvlan_mode_map lookup
  add_link ns dc device network_data = do
    name ← deref_ptr (get_macvlan dc).mode
    mode ← required_ptr (lookup name macvlan_mode_map) "invalid macvlan mode"
    network ← deref_ptr network_data
    let link : MacvlanLink = record {
      name = network.interface_name;
      parent_index = device.spec.interface_index;
      namespace = ns;
      mode = mode;
    }
    call_ok (λ h. p.link_add h link) (added_link link) "failed to add macvlan link"

  unfoldable pub configure :
      String → Option AllocatedDeviceStatus → Sys (Option AllocatedDeviceStatus)
  configure pod_network_namespace status = do
    given ← required_ptr status "allocatedDeviceStatus is nil"
    ext ← deref_ptr given.status_data
    content ←
        required_ptr (p.unmarshal (bytes_of ext.raw))
          "failed to unmarshal allocated device status data"
    device ←
        required_ptr content.device
          "allocated device status data does not contain device information"
    dc ←
        required_ptr content.device_configuration
          "allocated device status data does not contain device configuration information"
    guarded (get_device_type dc == device_type_macvlan)
        "allocated device status data does not contain macvlan device configuration information"
    ns ←
        call (λ h. p.ns_from_path h pod_network_namespace) (opened_ns pod_network_namespace)
          "failed to get network namespace from path"
    closing ns (do add_link ns dc device given.network_data; pure (some given))

  pub release : String → Option AllocatedDeviceStatus → Sys (Option AllocatedDeviceStatus)
  release pod_network_namespace status = pure status

  unfoldable pub configurator : Configurator
  configurator = record {
    is_supported = is_supported;
    exposed_device = exposed_device;
    allocate = allocate;
    configure = configure;
    release = release;
  }
