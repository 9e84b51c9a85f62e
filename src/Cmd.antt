-- ===== src/Cmd.antt =====
-- cmd/cmd/run.go: how the program puts its parts together. The clients, the informers and the start of
-- the goroutines are not modelled.
use device_network.Prelude.{
  String, ◌==◌, eq_iff, ◌≡◌, sym, ◌⊎◌, inl, inr, Bool-cases, some, [], ◌∷◌, arith,
}
use device_network.Prelude.Dict.{lookup}
use device_network.Api.{device_type_macvlan, device_type_host_device}
use device_network.Platform.{Platform}
use device_network.Configurators.{Configurator, Configurators}
use device_network.Configurators.Common.{common_configurator}
use device_network.Configurators.HostDevice
use device_network.Configurators.Macvlan

-- The map that the reconciler, the driver and the NRI plugin are given.
unfoldable pub device_configurators : Platform → Configurators
device_configurators p =
    (
      device_type_macvlan,
      Macvlan.configurator p (record { common_configurator = some common_configurator }),
    )
    ∷ (
      device_type_host_device,
      HostDevice.configurator p
          (record { sysfs_net_root = ""; common_configurator = some common_configurator }),
    )
    ∷ []

exposed_of_some : {c d : Configurator} → some c ≡ some d → d.exposed_device ≡ c.exposed_device
exposed_of_some e = cc

-- The map has the two types, each with its configurator.
pub device_configurators-cases :
    (p : Platform) (type : String) {c : Configurator}
    → lookup type (device_configurators p) ≡ some c
    → ((type ≡ device_type_macvlan) × (c.exposed_device ≡ Macvlan.exposed_device))
      ⊎ ((type ≡ device_type_host_device) × (c.exposed_device ≡ HostDevice.exposed_device))
unfolding device_configurators lookup HostDevice.configurator Macvlan.configurator
device_configurators-cases p type e = elim (Bool-cases (device_type_macvlan == type)) [
  | inl m ↦ inl (sym ((eq_iff device_type_macvlan type).0 m), exposed_of_some (rw m at e))
  | inr n ↦ elim (Bool-cases (device_type_host_device == type)) [
    | inl h ↦
        inr (sym ((eq_iff device_type_host_device type).0 h), exposed_of_some (rw h at (rw n at e)))
    | inr o ↦ absurd (ground (arith, e, n, o))
  ]
]

-- The configurator that the map has for a type is one of the two.
pub device_configurators-are :
    (p : Platform) (type : String) {c : Configurator}
    → lookup type (device_configurators p) ≡ some c
    → (c ≡ Macvlan.configurator p (record { common_configurator = some common_configurator }))
      ⊎ (c
          ≡ HostDevice.configurator p
              (record { sysfs_net_root = ""; common_configurator = some common_configurator }))
unfolding device_configurators lookup
device_configurators-are p type e = elim (Bool-cases (device_type_macvlan == type)) [
  | inl m ↦ inl (sym (cc (rw m at e)))
  | inr n ↦ elim (Bool-cases (device_type_host_device == type)) [
    | inl h ↦ inr (sym (cc (rw h at (rw n at e))))
    | inr o ↦ absurd (cc (rw o at (rw n at e)))
  ]
]
