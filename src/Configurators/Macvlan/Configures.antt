-- ===== src/Configurators/Macvlan/Configures.antt =====
-- pkg/configurators/macvlan.go: Configure of a macvlan device, on every path.
use device_network.Prelude.{
  ℕ, String, ◌==◌, eq_iff, ◌≡◌, refl, sym, ◌∙◌, ap, Bool-cases, Option-cases, inl, inr, Option,
  some, ◌∷◌,
}
use device_network.Prelude.Results.{ok}
use device_network.Prelude.Exec.{◌>>=◌, pure}
use device_network.Prelude.Dict.{lookup}
use device_network.Kubernetes.{AllocatedDeviceStatus, RawExtension, NetworkDeviceData}
use device_network.Api.{
  DeviceConfiguration, MacvlanMode, get_device_type, get_macvlan, device_type_macvlan,
}
use device_network.Host
use device_network.Platform.{
  Platform, History, closing, closed_ns, opened_ns, added_link, NetlinkMode,
  ResourceClaimDeviceStatusData,
}
use device_network.Platform.Calls.{IsBalanced}
use device_network.Configurators.Macvlan.{Macvlan, bytes_of, add_link, configure, macvlan_mode_map}

-- What Configure reads of a status, when it is complete and for a macvlan device.
pub record IsReadable (p : Platform) (given : AllocatedDeviceStatus) : Type 0 where
  pub ext : RawExtension
  pub content : ResourceClaimDeviceStatusData
  pub device : Host.Device
  pub configuration : DeviceConfiguration
  pub stored : given.status_data ≡ some ext
  pub decoded : p.unmarshal (bytes_of ext.raw) ≡ some content
  pub has_device : content.device ≡ some device
  pub has_configuration : content.device_configuration ≡ some configuration
  pub of_type : get_device_type configuration ≡ device_type_macvlan

-- What a successful Configure has done: it opened the namespace, added one link, and closed the namespace.
pub record IsConfigured (p : Platform) (path : String) (given : AllocatedDeviceStatus)
    (before after : History) : Type 0 where
  pub readable : IsReadable p given
  pub namespace : ℕ
  pub network_data : NetworkDeviceData
  pub mode_name : MacvlanMode
  pub mode : NetlinkMode
  pub opens : p.ns_from_path before path ≡ some namespace
  pub has_network : given.network_data ≡ some network_data
  pub has_mode : (get_macvlan readable.configuration).mode ≡ some mode_name
  pub is_mode : lookup mode_name macvlan_mode_map ≡ some mode
  pub trace :
      closed_ns namespace
        ∷ added_link (record {
          name = network_data.interface_name;
          parent_index = readable.device.spec.interface_index;
          namespace = namespace;
          mode = mode;
        })
        ∷ opened_ns path
        ∷ before
      ≡ after

module _ (p : Platform) (mcvln : Macvlan) (path : String) (given : AllocatedDeviceStatus)
    (h : History) where
  returned :
      {x : Option RawExtension}
      → given.status_data ≡ x
      → {out : Option AllocatedDeviceStatus} → out ≡ some (record given { status_data = x })
      → out ≡ some given
  returned s o = o ∙ ap (λ y. some (record given { status_data = y })) (sym s)

  under_namespace :
      (i : IsReadable p given) (ns : ℕ) (x : Option RawExtension)
      → given.status_data ≡ x
      → {out : Option AllocatedDeviceStatus} {t : History} → p.ns_from_path h path ≡ some ns
      → closing ns
          (add_link p mcvln ns i.configuration i.device given.network_data >>= λ u.
            pure (some (record given { status_data = x })))
          (opened_ns path ∷ h)
        ≡ (ok out, t)
      → (out ≡ some given) × IsConfigured p path given h t
  unfolding add_link
  under_namespace i ns x s {out} {t} o e = elim (Option-cases (get_macvlan i.configuration).mode) [
    | inl a ↦ absurd (cc (rw a at e))
    | inr (name, a) ↦ elim (Option-cases (lookup name macvlan_mode_map)) [
      | inl b ↦ absurd (cc (rw b at (rw a at e)))
      | inr (mode, b) ↦ elim (Option-cases given.network_data) [
        | inl c ↦ absurd (cc (rw c at (rw b at (rw a at e))))
        | inr (network, c) ↦
            elim (Bool-cases (
              p.link_add (opened_ns path ∷ h) (record {
                name = network.interface_name;
                parent_index = i.device.spec.interface_index;
                namespace = ns;
                mode = mode;
              }))) [
                | inr d ↦ absurd (cc (rw d at (rw c at (rw b at (rw a at e)))))
                | inl d ↦
                    let done = rw d at (rw c at (rw b at (rw a at e))) in
                    (
                      returned s (cc done),
                      record {
                        readable = i;
                        namespace = ns;
                        network_data = network;
                        mode_name = name;
                        mode = mode;
                        opens = o;
                        has_network = c;
                        has_mode = a;
                        is_mode = b;
                        trace = cc done;
                      },
                    )
              ]
      ]
    ]
  ]

  -- A successful Configure of a macvlan device returns the status it was given. The status has data of a Macvlan
  -- configuration with a device; the namespace was opened, one link was added in it, of the
  -- status's interface name, the device's index as parent and the netlink mode of the configuration's mode
  -- (bridge by default), and the namespace was closed. Nothing else was done: the addresses of the
  -- network data, if any, are not set on the link.
  pub configure_macvlan-IsConfigured :
      {out : Option AllocatedDeviceStatus} {t : History}
      → configure p mcvln path (some given) h ≡ (ok out, t)
      → (out ≡ some given) × IsConfigured p path given h t
  unfolding configure
  configure_macvlan-IsConfigured e = elim (Option-cases (given.status_data)) [
    | inl a ↦ absurd (cc (rw a at e))
    | inr (ext, a) ↦ elim (Option-cases (p.unmarshal (bytes_of ext.raw))) [
      | inl b ↦ absurd (cc (rw b at (rw a at e)))
      | inr (content, b) ↦ elim (Option-cases (content.device)) [
        | inl c ↦ absurd (cc (rw c at (rw b at (rw a at e))))
        | inr (device, c) ↦ elim (Option-cases (content.device_configuration)) [
          | inl d ↦ absurd (cc (rw d at (rw c at (rw b at (rw a at e)))))
          | inr (dc, d) ↦ elim (Bool-cases (get_device_type dc == device_type_macvlan)) [
            | inr k ↦ absurd (cc (rw k at (rw d at (rw c at (rw b at (rw a at e))))))
            | inl k ↦ elim (Option-cases (p.ns_from_path h path)) [
              | inl g ↦ absurd (cc (rw g at (rw k at (rw d at (rw c at (rw b at (rw a at e)))))))
              | inr (ns, g) ↦
                  under_namespace
                    (record {
                      ext = ext;
                      content = content;
                      device = device;
                      configuration = dc;
                      stored = a;
                      decoded = b;
                      has_device = c;
                      has_configuration = d;
                      of_type = (eq_iff (get_device_type dc) device_type_macvlan).0 k;
                    })
                    ns (some ext) a g (rw g at (rw k at (rw d at (rw c at (rw b at (rw a at e))))))
            ]
          ]
        ]
      ]
    ]
  ]

  -- On every path, a failure or a panic included, Configure of a macvlan device does nothing, or fails to open the
  -- namespace, or closes the namespace that it has opened as its last act.
  pub configure_macvlan-IsBalanced : IsBalanced p path h (configure p mcvln path (some given) h).1
  unfolding configure
  configure_macvlan-IsBalanced = elim (Option-cases (given.status_data)) [
    | inl a ↦ rw a (inl refl)
    | inr (ext, a) ↦ elim (Option-cases (p.unmarshal (bytes_of ext.raw))) [
      | inl b ↦ rw a (rw b (inl refl))
      | inr (content, b) ↦ elim (Option-cases (content.device)) [
        | inl c ↦ rw a (rw b (rw c (inl refl)))
        | inr (device, c) ↦ elim (Option-cases (content.device_configuration)) [
          | inl d ↦ rw a (rw b (rw c (rw d (inl refl))))
          | inr (dc, d) ↦ elim (Bool-cases (get_device_type dc == device_type_macvlan)) [
            | inr e ↦ rw a (rw b (rw c (rw d (rw e (inl refl)))))
            | inl e ↦ elim (Option-cases (p.ns_from_path h path)) [
              | inl g ↦ rw a (rw b (rw c (rw d (rw e (rw g (inr (inl (refl, refl))))))))
              | inr (ns, g) ↦
                  rw a (rw b (rw c (rw d (rw e (rw g (inr (inr (ns, _, refl, refl))))))))
            ]
          ]
        ]
      ]
    ]
  ]
