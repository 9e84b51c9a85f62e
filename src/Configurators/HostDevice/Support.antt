-- ===== src/Configurators/HostDevice/Support.antt =====
-- pkg/configurators/hostdevice.go: which host devices the host device configurator supports.
use device_network.Prelude.{
  String, ◌==◌, eq_iff, ◌≡◌, ◌≢◌, ◌↔◌, true, false, none, some, [], ◌∷◌, arith,
}
use device_network.Prelude.Results.{ok}
use device_network.Api.{DeviceConfiguration, get_device_type, device_type_host_device}
use device_network.Host
use device_network.Kubernetes
use device_network.Configurators.HostDevice.{is_supported, exposed_device, mutual_exclusion}

-- A device that can move to a pod's namespace and comes back: neither a loopback, a bridge, a bond, a
-- team nor a tun or tap device, with no parent and no master.
pub record IsMovable (spec : Host.DeviceSpec) : Type 0 where
  pub not_loopback : spec.link_layer_type ≢ "loopback"
  pub not_bridge : spec.device_type ≢ "bridge"
  pub not_bond : spec.device_type ≢ "bond"
  pub not_team : spec.device_type ≢ "team"
  pub not_tuntap : spec.device_type ≢ "tuntap"
  pub no_parent : spec.parent_index ≡ 0
  pub no_master : spec.master_index ≡ 0

abbrev Tests : String → Host.DeviceSpec → Type 0
Tests type spec =
    (type ≡ device_type_host_device)
    × ((spec.link_layer_type == "loopback") ≡ false)
    × ((spec.device_type == "bridge") ≡ false)
    × ((spec.device_type == "bond") ≡ false)
    × ((spec.device_type == "team") ≡ false)
    × ((spec.device_type == "tuntap") ≡ false)
    × (spec.parent_index ≡ 0)
    × (spec.master_index ≡ 0)

is_supported-Tests :
    (d : Host.Device) (dc : DeviceConfiguration)
    → (is_supported (some d) (some dc) ≡ ok true) ↔ Tests (get_device_type dc) d.spec
unfolding is_supported
is_supported-Tests d dc = ground (arith, eq_iff (get_device_type dc) device_type_host_device)

differs_iff : (s t : String) → ((s == t) ≡ false) ↔ (s ≢ t)
differs_iff s t = (λ e n. ground (arith, eq_iff s t), λ n. ground (arith, eq_iff s t, n))

-- The host device configurator supports a device for a configuration just when the configuration's type is
-- HostDevice, as it is by default, and the device is movable.
pub is_supported-HostDevice :
    (d : Host.Device) (dc : DeviceConfiguration)
    → (is_supported (some d) (some dc) ≡ ok true)
      ↔ ((get_device_type dc ≡ device_type_host_device) × IsMovable d.spec)
is_supported-HostDevice d dc = (
  λ h.
      let (type, loopback, bridge, bond, team, tuntap, parent, master) =
        (is_supported-Tests d dc).0 h in
      (
        type,
        record {
          not_loopback = (differs_iff d.spec.link_layer_type "loopback").0 loopback;
          not_bridge = (differs_iff d.spec.device_type "bridge").0 bridge;
          not_bond = (differs_iff d.spec.device_type "bond").0 bond;
          not_team = (differs_iff d.spec.device_type "team").0 team;
          not_tuntap = (differs_iff d.spec.device_type "tuntap").0 tuntap;
          no_parent = parent;
          no_master = master;
        },
      ),
  λ (type, m). (is_supported-Tests d dc).1 (
    type,
    (differs_iff d.spec.link_layer_type "loopback").1 m.not_loopback,
    (differs_iff d.spec.device_type "bridge").1 m.not_bridge,
    (differs_iff d.spec.device_type "bond").1 m.not_bond,
    (differs_iff d.spec.device_type "team").1 m.not_team,
    (differs_iff d.spec.device_type "tuntap").1 m.not_tuntap,
    m.no_parent,
    m.no_master,
  ),
)

pub counters-exposed_device :
    (h : Host.Device) {d : Kubernetes.Device}
    → exposed_device (some h) none ≡ ok (some d)
    → d.consumes_counters
      ≡ record { counter_set = h.name; counters = (mutual_exclusion, 65536) ∷ [] } ∷ []
unfolding exposed_device
counters-exposed_device h e = ground arith
