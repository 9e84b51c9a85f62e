-- ===== src/Examples/Codec.antt =====
-- A codec of status data: it knows those of one device.
use device_network.Prelude.{String, ◌==◌, true, false, Option, none, some, List, [], ◌∷◌}
use device_network.Api.{DeviceConfiguration}
use device_network.Host
use device_network.Platform.{ResourceClaimDeviceStatusData}
use device_network.Prelude.{eq_iff, Bool, ◌≡◌, refl}
use device_network.Platform.{PodNetwork}
use device_network.Host.{same_spec, eq_of_same_spec}
use device_network.Api.{Macvlan, HostDevice, DeviceType}
use device_network.Examples.Network.{eth0, whole, shared}

-- The status data of the example, for a configuration.
abbrev pub content_of : DeviceConfiguration → ResourceClaimDeviceStatusData
content_of dc = record {
  pod_network = some (record { kind = "DeviceNetwork"; name = "blue" });
  device_configuration = some dc;
  device = some eth0;
}

abbrev pub decode : String → Option ResourceClaimDeviceStatusData
decode raw = elim (raw == "whole") [
  | true ↦ some (content_of whole)
  | false ↦ some (content_of shared)
]

abbrev pub when : Bool → Option String → Option String
when true r = r
when false r = none

abbrev pub encode_configuration :
    String → List String → Option DeviceType → Option Macvlan → Option HostDevice → Option String
encode_configuration name (s ∷ []) none none none =
    when (name == "whole") (when (s == "all") (some "whole"))
encode_configuration name selectors type macvlan host_device = none

abbrev pub encode :
    Option PodNetwork → Option DeviceConfiguration → Option Host.Device → Option String
encode (some pn) (some dc) (some d) = when (pn.kind == "DeviceNetwork") (
    when (pn.name == "blue") (
      when (d.name == "eth0") (
        when (same_spec d.spec eth0.spec) (
          encode_configuration dc.name dc.device_selectors dc.device_type dc.macvlan
            dc.host_device))))
encode pod_network dc device = none

pub when-eq-some :
    (b : Bool) (r : Option String) {raw : String}
    → when b r ≡ some raw
    → (b ≡ true) × (r ≡ some raw)
when-eq-some true r e = (refl, e)
when-eq-some false r e = absurd (cc e)

encode_configuration-eq :
    (name : String) (selectors : List String) (type : Option DeviceType) (m : Option Macvlan)
    (hd : Option HostDevice) {raw : String}
    → encode_configuration name selectors type m hd ≡ some raw
    → ((record {
      name = name;
      device_selectors = selectors;
      device_type = type;
      macvlan = m;
      host_device = hd;
    })
        ≡ whole)
      × (raw ≡ "whole")
encode_configuration-eq name (s ∷ []) none none none e =
    let (a, e1) = when-eq-some (name == "whole") _ e in
    let (b, e2) = when-eq-some (s == "all") _ e1 in
    let n = (eq_iff name "whole").0 a in let t = (eq_iff s "all").0 b in (cc, cc)
encode_configuration-eq name [] type m hd e = absurd (cc e)
encode_configuration-eq name (s ∷ u ∷ ss) type m hd e = absurd (cc e)
encode_configuration-eq name (s ∷ []) (some type) m hd e = absurd (cc e)
encode_configuration-eq name (s ∷ []) none (some m) hd e = absurd (cc e)
encode_configuration-eq name (s ∷ []) none none (some hd) e = absurd (cc e)

pub encode-eq :
    (pn : Option PodNetwork) (dc : Option DeviceConfiguration) (device : Option Host.Device)
    {raw : String}
    → encode pn dc device ≡ some raw
    → ((record { pod_network = pn; device_configuration = dc; device = device }) ≡ content_of whole)
      × (raw ≡ "whole")
encode-eq (some pn) (some dc) (some d) e =
    let (a, e1) = when-eq-some (pn.kind == "DeviceNetwork") _ e in
    let (b, e2) = when-eq-some (pn.name == "blue") _ e1 in
    let (c, e3) = when-eq-some (d.name == "eth0") _ e2 in
    let (s, e4) = when-eq-some (same_spec d.spec eth0.spec) _ e3 in
    let kind = (eq_iff pn.kind "DeviceNetwork").0 a in
    let name = (eq_iff pn.name "blue").0 b in
    let host = (eq_iff d.name "eth0").0 c in
    let spec = eq_of_same_spec d.spec eth0.spec s in
    let (same, raw) =
      encode_configuration-eq dc.name dc.device_selectors dc.device_type dc.macvlan dc.host_device
        e4 in
    (cc, raw)
encode-eq none dc device e = absurd (cc e)
encode-eq (some pn) none device e = absurd (cc e)
encode-eq (some pn) (some dc) none e = absurd (cc e)
