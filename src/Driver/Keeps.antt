-- ===== src/Driver/Keeps.antt =====
-- pkg/configurators: what Allocate of the program's configurators keeps of a status.
use device_network.Prelude.{String, Option, none, some, subst, sym, ◌≡◌, refl, inl, inr}
use device_network.Prelude.Results.{Result, Result-cases, ok}
use device_network.Prelude.Exec.{wrapped, wrapped-eq-ok, pure}
use device_network.Kubernetes.{AllocatedDeviceStatus, NetworkDeviceData}
use device_network.Prelude.Dict.{lookup}
use device_network.Api.{NetworkInterfaceConfiguration, DeviceConfiguration, DeviceNetwork}
use device_network.Host
use device_network.Platform.{Platform, History, Sys}
use device_network.Configurators.{Configurator}
use device_network.Configurators.Common.{CommonConfigurator, common_allocate}
use device_network.Configurators.Random.{random_name}
use device_network.Configurators.HostDevice
use device_network.Configurators.Macvlan
use device_network.Configurators.Common.Keeps.{
  SameDevice, same_trans, same_of, common_allocate-SameDevice,
}
use device_network.Cmd.{device_configurators, device_configurators-are}

-- An Allocate that changes nothing of a status but its network data.
unfoldable pub Keeps : Configurator → Type 0
Keeps c =
    (host_device : Option Host.Device) (dc : DeviceConfiguration) (network : DeviceNetwork)
    (given status : AllocatedDeviceStatus) (h t : History)
    → c.allocate host_device (some dc) (some network.spec.network_interface_configuration)
        (some given) h
      ≡ (ok (some status), t)
    → SameDevice given status

module _ (p : Platform) where
  -- The last part of both, with the network data set.
  completed :
      (common : Option CommonConfigurator) (hd : Option Host.Device)
      (nic : Option NetworkInterfaceConfiguration) (res status : AllocatedDeviceStatus)
      (h t : History)
      → ◌≡◌ {A = Result (Option AllocatedDeviceStatus) × History}
          (elim common as (λ _. Sys (Option AllocatedDeviceStatus)) [
            | none ↦ pure (some res)
            | some c ↦
                wrapped "failed to allocate common network data"
                  (common_allocate p c hd nic (some res))
          ]
            h)
          (ok (some status), t)
      → SameDevice res status
  completed none hd nic res status h t e = same_of (cc e)
  completed (some c) hd nic res status h t e =
      common_allocate-SameDevice p c hd nic res status h {t = t} (
        wrapped-eq-ok "failed to allocate common network data"
          (common_allocate p c hd nic (some res)) h e)

  renamed :
      (given : AllocatedDeviceStatus) (data_ : Option NetworkDeviceData)
      → SameDevice given (record given { network_data = data_ })
  renamed given data_ = record {
    driver = refl;
    pool = refl;
    device = refl;
    share_id = refl;
    status_data = refl;
  }

  macvlan-Keeps : (m : Macvlan.Macvlan) → Keeps (Macvlan.configurator p m)
  unfolding Keeps Macvlan.configurator Macvlan.allocate
  macvlan-Keeps m hd dc network given status h t e = elim (Result-cases (random_name p h).0) [
    | inr (inl (o, a)) ↦ absurd (cc (rw a at e))
    | inr (inr (inl a)) ↦ absurd (cc (rw a at e))
    | inr (inr (inr a)) ↦ absurd (cc (rw a at e))
    | inl (name, a) ↦ same_trans (renamed given _) (
        completed m.common_configurator hd (some network.spec.network_interface_configuration) _
          status (random_name p h).1 t (rw a at e))
  ]

  host_device-Keeps : (m : HostDevice.HostDevice) → Keeps (HostDevice.configurator p m)
  unfolding Keeps HostDevice.configurator HostDevice.allocate
  host_device-Keeps m none dc network given status h t e = absurd (cc e)
  host_device-Keeps m (some device) dc network given status h t e = same_trans (renamed given _) (
      completed m.common_configurator (some device)
        (some network.spec.network_interface_configuration) _ status h t e)

  pub device_configurators-Keeps :
      (type : String) {c : Configurator} → lookup type (device_configurators p) ≡ some c → Keeps c
  device_configurators-Keeps type e = elim (device_configurators-are p type e) [
    | inl m ↦ subst Keeps (sym m) (macvlan-Keeps _)
    | inr m ↦ subst Keeps (sym m) (host_device-Keeps _)
  ]
