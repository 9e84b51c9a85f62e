-- ===== src/Configurators/Macvlan/Support.antt =====
-- pkg/configurators/macvlan.go: which host devices the macvlan configurator supports.
use device_network.Prelude.{eq_iff, ◌≡◌, ◌↔◌, ◌⊎◌, true, Option, none, some, [], ◌∷◌, arith}
use device_network.Prelude.Results.{ok}
use device_network.Prelude.Dict.{lookup}
use device_network.Kubernetes
use device_network.Api.{
  DeviceConfiguration, MacvlanMode, get_device_type, get_macvlan, device_type_macvlan,
  macvlan_mode_bridge, macvlan_mode_private, macvlan_mode_vepa, macvlan_mode_passthru,
  macvlan_mode_source,
}
use device_network.Api
use device_network.Host
use device_network.Configurators.HostDevice.{mutual_exclusion}
use device_network.Configurators.Macvlan.{is_supported, exposed_device, macvlan_mode_map, is_some}

-- The mode that is asked for: bridge, when none is.
abbrev pub mode_of : Option Api.Macvlan → MacvlanMode
mode_of none = macvlan_mode_bridge
mode_of (some m) = elim m.mode [ none ↦ macvlan_mode_bridge | some x ↦ x ]

mode-get_macvlan : (dc : DeviceConfiguration) → (get_macvlan dc).mode ≡ some (mode_of dc.macvlan)
unfolding get_macvlan
mode-get_macvlan dc = ground arith

abbrev pub IsMode : MacvlanMode → Type 0
IsMode m =
    (m ≡ macvlan_mode_bridge)
    ⊎ (m ≡ macvlan_mode_private)
    ⊎ (m ≡ macvlan_mode_vepa)
    ⊎ (m ≡ macvlan_mode_passthru)
    ⊎ (m ≡ macvlan_mode_source)

IsMode-iff : (m : MacvlanMode) → (is_some (lookup m macvlan_mode_map) ≡ true) ↔ IsMode m
unfolding lookup macvlan_mode_map
IsMode-iff m = ground (
  arith,
  eq_iff macvlan_mode_bridge m,
  eq_iff macvlan_mode_private m,
  eq_iff macvlan_mode_vepa m,
  eq_iff macvlan_mode_passthru m,
  eq_iff macvlan_mode_source m,
)

-- The macvlan configurator supports a device for a configuration just when the configuration's type is Macvlan, its
-- mode, if it has one, is one of the five, and the device is an Ethernet device with no master.
pub is_supported-Macvlan :
    (d : Host.Device) (dc : DeviceConfiguration)
    → (is_supported (some d) (some dc) ≡ ok true) ↔ (
        (get_device_type dc ≡ device_type_macvlan)
        × IsMode (mode_of dc.macvlan)
        × (d.spec.link_layer_type ≡ "ether")
        × (d.spec.master_index ≡ 0))
unfolding is_supported
is_supported-Macvlan d dc = ground (
  arith,
  eq_iff (get_device_type dc) device_type_macvlan,
  mode-get_macvlan dc,
  IsMode-iff (mode_of dc.macvlan),
  eq_iff d.spec.link_layer_type "ether",
)

pub counters-exposed_device :
    (h : Host.Device) {d : Kubernetes.Device}
    → exposed_device (some h) none ≡ ok (some d)
    → d.consumes_counters
      ≡ record { counter_set = h.name; counters = (mutual_exclusion, 1) ∷ [] } ∷ []
unfolding exposed_device
counters-exposed_device h e = ground arith
