-- ===== src/Driver/Handover.antt =====
-- pkg/driver/driver.go and pkg/nri/process.go: the status that the driver leaves for the NRI plugin.
use device_network.Prelude.{String, Option, some, ◌≡◌, refl, sym, ap, ◌∙◌}
use device_network.Prelude.Results.{ok}
use device_network.Prelude.Exec.{◌>>=◌, wrapped, pure}
use device_network.Kubernetes.{DeviceRequestAllocationResult, AllocatedDeviceStatus}
use device_network.Prelude.Dict.{lookup}
use device_network.Api.{DeviceConfiguration, DeviceNetwork, get_device_type}
use device_network.Host
use device_network.Resolver
use device_network.Platform.{Platform, History, ResourceClaimDeviceStatusData}
use device_network.Configurators.{Configurator}
use device_network.Cmd.{device_configurators}
use device_network.Nri.Process.{configure_device}
use device_network.Driver.Keeps.{Keeps, device_configurators-Keeps}
use device_network.Driver.Allocates.{allocate_device-IsAllocated}
use device_network.Driver.{
  KubeletDevice, Driver, allocate_device, status_data_of, initial_status, apply_status_of,
}

-- JSON: what is decoded is what was encoded.
unfoldable pub RoundTrips : Platform → Type 0
RoundTrips p =
    (x : ResourceClaimDeviceStatusData) (raw : String)
    → p.marshal x ≡ some raw
    → p.unmarshal raw ≡ some x

-- The status data that is to reach the NRI plugin.
abbrev pub described :
    String
    → DeviceNetwork
    → DeviceConfiguration
    → Option Host.Device
    → ResourceClaimDeviceStatusData
described kind network configuration device = record {
  pod_network = some (record { kind = kind; name = network.name });
  device_configuration = some configuration;
  device = device;
}

module _ (p : Platform) (d : Driver) where
  -- A status of a resolved device, from which the NRI plugin configures what the driver allocated.
  pub record IsHandedOver (device : Resolver.Device) (status : AllocatedDeviceStatus) : Type 1 where
    pub result : DeviceRequestAllocationResult
    pub configuration : DeviceConfiguration
    pub network : DeviceNetwork
    pub configurator : Configurator
    pub raw : String
    pub of_result : device.device_request_allocation_result ≡ some result
    pub of_configuration : device.device_configuration ≡ some configuration
    pub of_network : device.device_network ≡ some network
    pub same_configurator :
        lookup (get_device_type configuration) d.device_configurators ≡ some configurator
    pub same_driver : status.driver ≡ result.driver
    pub same_device : status.device ≡ result.device
    pub carried : status.status_data ≡ some (record { raw = some raw })
    pub decoded :
        p.unmarshal raw
        ≡ some (described d.pod_network_kind network configuration device.host_device)
    pub configures :
        (namespace : String) (h : History)
        → configure_device p d.driver_name d.device_configurators namespace status h
          ≡ (wrapped "failed to configure device" (configurator.configure namespace (some status))
                >>= λ r. pure tt)
              h

  -- When JSON round-trips and the configurators are the program's, a device that the driver has allocated
  -- is handed over: its status is the result's, and carries the configuration, the network and the
  -- host device of the resolved device as they were; from this status, on any system and in any namespace, the NRI
  -- plugin configures the device with the configurator that allocated it, and with its error only.
  pub allocate_device-IsHandedOver :
      RoundTrips p
      → d.device_configurators ≡ device_configurators p
      → (device : Resolver.Device) (h t : History) {x : Option KubeletDevice}
        {status : AllocatedDeviceStatus}
      → allocate_device p d (some device) h ≡ (ok (x, some status), t)
      → IsHandedOver device status
  unfolding RoundTrips Keeps apply_status_of initial_status status_data_of configure_device
  allocate_device-IsHandedOver round are device h t {x} {status} e =
      let a = allocate_device-IsAllocated p d device h t e in
      let keeps =
        device_configurators-Keeps p (get_device_type a.configuration) (rw are at a.found)
          device.host_device a.configuration a.network (initial_status a.result a.raw) a.status h t
          a.allocated in
      let same : status ≡ apply_status_of p d a.status = cc (a.for_status) in
      let decoded = round _ a.raw a.encoded in
      let carried : status.status_data ≡ some (record { raw = some a.raw }) =
        ap (λ s. s.status_data) same ∙ sym keeps.status_data in
      record {
        result = a.result;
        configuration = a.configuration;
        network = a.network;
        configurator = a.configurator;
        raw = a.raw;
        of_result = a.of_result;
        of_configuration = a.of_configuration;
        of_network = a.of_network;
        same_configurator = a.found;
        same_driver = ap (λ s. s.driver) same ∙ sym keeps.driver;
        same_device = ap (λ s. s.device) same ∙ sym keeps.device;
        carried = carried;
        decoded = decoded;
        configures = λ namespace t2. rw carried (rw decoded (rw (a.found) refl));
      }
