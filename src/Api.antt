-- ===== src/Api.antt =====
-- apis/v1alpha1: types.go, attributes.go, helpers.go. String types are texts with constants.
use device_network.Prelude.{ℕ, String, Option, none, some, List, ◌*◌}
use device_network.Kubernetes.{NodeSelector}

abbrev pub device_selector_max_size : ℕ
device_selector_max_size = 4

abbrev pub device_configuration_max_size : ℕ
device_configuration_max_size = 4

abbrev pub selector_per_device_configuration_max_size : ℕ
selector_per_device_configuration_max_size = device_selector_max_size

abbrev pub selector_per_device_selector_max_size : ℕ
selector_per_device_selector_max_size = 1

abbrev pub cel_selector_expression_max_length : ℕ
cel_selector_expression_max_length = 10 * 1024

pub record CelDeviceSelector : Type 0 where
  pub expression : String

pub record Selector : Type 0 where
  pub cel : Option CelDeviceSelector

pub record DeviceSelector : Type 0 where
  pub name : String
  pub selectors : List Selector
  pub node_selector : Option NodeSelector

abbrev pub DeviceType : Type 0
DeviceType = String

abbrev pub device_type_host_device : DeviceType
device_type_host_device = "HostDevice"

abbrev pub device_type_macvlan : DeviceType
device_type_macvlan = "Macvlan"

pub data HostDevice : Type 0 where
  host_device : HostDevice

abbrev pub MacvlanMode : Type 0
MacvlanMode = String

abbrev pub macvlan_mode_private : MacvlanMode
macvlan_mode_private = "private"

abbrev pub macvlan_mode_vepa : MacvlanMode
macvlan_mode_vepa = "vepa"

abbrev pub macvlan_mode_bridge : MacvlanMode
macvlan_mode_bridge = "bridge"

abbrev pub macvlan_mode_passthru : MacvlanMode
macvlan_mode_passthru = "passthru"

abbrev pub macvlan_mode_source : MacvlanMode
macvlan_mode_source = "source"

pub record Macvlan : Type 0 where
  pub mode : Option MacvlanMode

pub record DeviceConfiguration : Type 0 where
  pub name : String
  pub device_selectors : List String
  pub device_type : Option DeviceType
  pub macvlan : Option Macvlan
  pub host_device : Option HostDevice

abbrev pub ipam_provider_random : String
ipam_provider_random = "Random"

pub record RandomIpam : Type 0 where
  pub cidr : String

-- An entry of `IPAM []*IPAM`; a nil entry is `none` in the list below.
pub record Ipam : Type 0 where
  pub provider : String
  pub random : Option RandomIpam

pub record NetworkInterfaceConfiguration : Type 0 where
  pub ipam : List (Option Ipam)

pub record DeviceNetworkSpec : Type 0 where
  pub device_selectors : List DeviceSelector
  pub device_configurations : List DeviceConfiguration
  pub network_interface_configuration : NetworkInterfaceConfiguration

-- The name is that of the object's metadata; the status has no field.
pub record DeviceNetwork : Type 0 where
  pub name : String
  pub spec : DeviceNetworkSpec

-- attributes.go. The attributes of the pod network and of its kind are constants of
-- sigs.k8s.io/multi-network-api: the functions that use them take their names as parameters.
abbrev pub attribute_device_type : String
attribute_device_type = "devicenetwork.io/deviceType"

abbrev pub attribute_device_configuration : String
attribute_device_configuration = "devicenetwork.io/deviceConfiguration"

abbrev pub attribute_host_device_name : String
attribute_host_device_name = "devicenetwork.io/hostDeviceName"

abbrev pub capacity_max_virtual_interfaces : String
capacity_max_virtual_interfaces = "devicenetwork.io/maxVirtualInterfaces"

abbrev pub max_virtual_devices : ℕ
max_virtual_devices = 65535

-- helpers.go
unfoldable pub get_device_type : DeviceConfiguration → DeviceType
get_device_type dc = elim dc.device_type [ none ↦ device_type_host_device | some t ↦ t ]

unfoldable pub get_macvlan : DeviceConfiguration → Macvlan
get_macvlan dc = elim dc.macvlan [
  | none ↦ record { mode = some macvlan_mode_bridge }
  | some m ↦ elim m.mode [
    | none ↦ record { mode = some macvlan_mode_bridge }
    | some mode ↦ record { mode = some mode }
  ]
]

-- sigs.k8s.io/multi-network-api: `StandardDeviceAttributePodNetwork` and `...PodNetworkKind`.
pub record StandardAttributes : Type 0 where
  pub pod_network : String
  pub pod_network_kind : String
