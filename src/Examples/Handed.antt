-- ===== src/Examples/Handed.antt =====
-- A status is handed over, on a device of the Macvlan type.
use device_network.Prelude.{
  String, ◌==◌, eq_iff, true, false, Bool, Option, none, some, List, [], ◌∷◌, ◌≡◌, refl, sym, ap,
}
use device_network.Prelude.Results.{ok}
use device_network.Prelude.Dict.{lookup}
use device_network.Kubernetes.{empty_device, AllocatedDeviceStatus}
use device_network.Api.{
  get_device_type, DeviceConfiguration, Macvlan, HostDevice, DeviceType, device_type_macvlan,
}
use device_network.Host
use device_network.Resolver
use device_network.Platform.{Platform, History, drew, PodNetwork, ResourceClaimDeviceStatusData}
use device_network.Configurators.Macvlan
use device_network.Configurators.Common.{common_allocate, has_ips, provide}
use device_network.Configurators.Random.{random_byte, random_bytes, random_name, if_name_random_len}
use device_network.Cmd.{device_configurators}
use device_network.Driver.{
  Driver, kubelet_device, allocate_device, initial_status, status_data_of, apply_status_of,
  apply_condition, copy_attributes,
}
use device_network.Driver.Handover.{RoundTrips, IsHandedOver, allocate_device-IsHandedOver}
use device_network.Examples.Data.{platform, driver, network, result_of}

-- A codec of one value.
abbrev configuration : DeviceConfiguration
configuration = record {
  name = "shared";
  device_selectors = [];
  device_type = some device_type_macvlan;
  macvlan = none;
  host_device = none;
}

abbrev content : ResourceClaimDeviceStatusData
content = record {
  pod_network = some (record { kind = "DeviceNetwork"; name = "blue" });
  device_configuration = some configuration;
  device = none;
}

abbrev when : Bool → Option String → Option String
when true r = r
when false r = none

abbrev encode_configuration :
    String → List String → Option DeviceType → Option Macvlan → Option HostDevice → Option String
encode_configuration name [] (some type) none none =
    when (name == "shared") (when (type == device_type_macvlan) (some "content"))
encode_configuration name selectors type macvlan host_device = none

abbrev encode : Option PodNetwork → Option DeviceConfiguration → Option Host.Device → Option String
encode (some pn) (some dc) none = when (pn.kind == "DeviceNetwork") (
    when (pn.name == "blue")
      (encode_configuration dc.name dc.device_selectors dc.device_type dc.macvlan dc.host_device))
encode pod_network dc device = none

when-eq-some :
    (b : Bool) (r : Option String) {raw : String}
    → when b r ≡ some raw
    → (b ≡ true) × (r ≡ some raw)
when-eq-some true r e = (refl, e)
when-eq-some false r e = absurd (cc e)

encode_configuration-eq :
    (name : String) (selectors : List String) (type : Option DeviceType) (m : Option Macvlan)
    (hd : Option HostDevice) {raw : String}
    → encode_configuration name selectors type m hd ≡ some raw
    → (record {
      name = name;
      device_selectors = selectors;
      device_type = type;
      macvlan = m;
      host_device = hd;
    })
      ≡ configuration
encode_configuration-eq name [] (some type) none none e =
    let (a, e1) = when-eq-some (name == "shared") _ e in
    let (b, e2) = when-eq-some (type == device_type_macvlan) _ e1 in
    let n = (eq_iff name "shared").0 a in let t = (eq_iff type device_type_macvlan).0 b in cc
encode_configuration-eq name (s ∷ ss) type m hd e = absurd (cc e)
encode_configuration-eq name [] none m hd e = absurd (cc e)
encode_configuration-eq name [] (some type) (some m) hd e = absurd (cc e)
encode_configuration-eq name [] (some type) none (some hd) e = absurd (cc e)

abbrev macvlan_platform : Platform
macvlan_platform = record platform {
  marshal = λ x. encode x.pod_network x.device_configuration x.device;
  unmarshal = λ raw. some content;
  hex = λ bytes. "0707070707070707";
}

encode-eq :
    (pn : Option PodNetwork) (dc : Option DeviceConfiguration) (device : Option Host.Device)
    {raw : String}
    → encode pn dc device ≡ some raw
    → (record { pod_network = pn; device_configuration = dc; device = device }) ≡ content
encode-eq (some pn) (some dc) none e =
    let (a, e1) = when-eq-some (pn.kind == "DeviceNetwork") _ e in
    let (b, e2) = when-eq-some (pn.name == "blue") _ e1 in
    let k = (eq_iff pn.kind "DeviceNetwork").0 a in
    let n = (eq_iff pn.name "blue").0 b in
    let c =
      encode_configuration-eq dc.name dc.device_selectors dc.device_type dc.macvlan dc.host_device
        e2 in
    cc
encode-eq none dc device e = absurd (cc e)
encode-eq (some pn) none device e = absurd (cc e)
encode-eq (some pn) (some dc) (some d) e = absurd (cc e)

round_trips : RoundTrips macvlan_platform
unfolding RoundTrips
round_trips x raw e = ap some (sym (encode-eq x.pod_network x.device_configuration x.device e))

abbrev resolved : Resolver.Device
resolved = record {
  device_request_allocation_result = some (result_of "blue-shared-eth0");
  device_network = some network;
  device_configuration = some configuration;
  exposed_device = some empty_device;
  host_device = none;
}

abbrev macvlan_driver : Driver
macvlan_driver = record driver { device_configurators = device_configurators macvlan_platform }

abbrev status : AllocatedDeviceStatus
status = record {
  driver = "driver";
  pool = "node0";
  device = "blue-shared-eth0";
  share_id = none;
  conditions =
      record { type = "Allocation"; status = "True"; reason = "Allocated"; message = "" } ∷ [];
  status_data = some (record { raw = some "content" });
  network_data = some (record { interface_name = "07070707"; ips = []; hardware_address = "" });
}

abbrev drawn : History
drawn = drew 7 ∷ drew 7 ∷ drew 7 ∷ drew 7 ∷ drew 7 ∷ drew 7 ∷ drew 7 ∷ drew 7 ∷ []

allocates :
    allocate_device macvlan_platform macvlan_driver (some resolved) []
    ≡ (ok (some (kubelet_device (result_of "blue-shared-eth0") [] status), some status), drawn)
unfolding allocate_device device_configurators Macvlan.configurator Macvlan.allocate common_allocate
    has_ips provide get_device_type lookup initial_status status_data_of apply_status_of
    apply_condition kubelet_device copy_attributes random_byte random_bytes random_name
    if_name_random_len
allocates = refl

allocate_device-IsHandedOver_example : IsHandedOver macvlan_platform macvlan_driver resolved status
allocate_device-IsHandedOver_example =
    allocate_device-IsHandedOver macvlan_platform macvlan_driver round_trips refl resolved [] drawn
      {x = some (kubelet_device (result_of "blue-shared-eth0") [] status)} {status = status}
      allocates
