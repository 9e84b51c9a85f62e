-- ===== src/Configurators/HostDevice/Configures.antt =====
-- pkg/configurators/hostdevice.go: Configure of a host device, on every path.
use device_network.Prelude.{
  ℕ, String, ◌==◌, ◌≡◌, refl, Bool-cases, Option-cases, inl, inr, some, ◌∷◌,
}
use device_network.Kubernetes.{AllocatedDeviceStatus}
use device_network.Api.{DeviceConfiguration, get_device_type, device_type_host_device}
use device_network.Host
use device_network.Platform.{Platform, History, closed_ns, opened_ns, ResourceClaimDeviceStatusData}
use device_network.Platform.Calls.{IsBalanced}
use device_network.Configurators.HostDevice.{HostDevice, raw_of, configure}
use device_network.Configurators.HostDevice.Moves.{IsMoved}

-- What Configure reads of a status, when it is complete and for a host device.
pub record IsReadable (p : Platform) (given : AllocatedDeviceStatus) : Type 0 where
  pub raw : String
  pub content : ResourceClaimDeviceStatusData
  pub device : Host.Device
  pub configuration : DeviceConfiguration
  pub stored : raw_of given.status_data ≡ some raw
  pub decoded : p.unmarshal raw ≡ some content
  pub has_device : content.device ≡ some device
  pub has_configuration : content.device_configuration ≡ some configuration
  pub of_type : get_device_type configuration ≡ device_type_host_device

-- What a successful Configure has done: the namespace was opened, the device moved into it, and the
-- namespace closed.
pub record IsConfigured (p : Platform) (hd : HostDevice) (path : String)
    (given : AllocatedDeviceStatus) (before after : History) : Type 0 where
  pub readable : IsReadable p given
  pub namespace : ℕ
  pub inner : History
  pub opens : p.ns_from_path before path ≡ some namespace
  pub moves :
      IsMoved p hd namespace readable.device.spec.interface_name (opened_ns path ∷ before) inner
  pub closes : closed_ns namespace ∷ inner ≡ after

module _ (p : Platform) (hd : HostDevice) (path : String) (given : AllocatedDeviceStatus)
    (h : History) where
  -- On every path, a failure or a panic included, Configure of a host device does nothing, or fails to open the
  -- namespace, or closes the namespace that it has opened as its last act.
  pub configure_host_device-IsBalanced : IsBalanced p path h (configure p hd path (some given) h).1
  unfolding configure
  configure_host_device-IsBalanced = elim (Option-cases (raw_of given.status_data)) [
    | inl a ↦ rw a (inl refl)
    | inr (raw, a) ↦ elim (Option-cases (p.unmarshal raw)) [
      | inl b ↦ rw a (rw b (inl refl))
      | inr (content, b) ↦ elim (Option-cases (content.device)) [
        | inl c ↦ rw a (rw b (rw c (inl refl)))
        | inr (device, c) ↦ elim (Option-cases (content.device_configuration)) [
          | inl d ↦ rw a (rw b (rw c (rw d (inl refl))))
          | inr (dc, d) ↦ elim (Bool-cases (get_device_type dc == device_type_host_device)) [
            | inr e ↦ rw a (rw b (rw c (rw d (rw e (inl refl)))))
            | inl e ↦ elim (Option-cases (p.ns_from_path h path)) [
              | inl g ↦ rw a (rw b (rw c (rw d (rw e (rw g (inr (inl (refl, refl))))))))
              | inr (ns, g) ↦
                  rw a (rw b (rw c (rw d (rw e (rw g (inr (inr (ns, _, refl, refl))))))))
            ]
          ]
        ]
      ]
    ]
  ]
