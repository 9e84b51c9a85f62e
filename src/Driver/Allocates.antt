-- ===== src/Driver/Allocates.antt =====
-- pkg/driver/driver.go: what a device that is allocated has gone through.
use device_network.Prelude.{Option-cases, Option, none, some, ◌≡◌, inl, inr, String}
use device_network.Prelude.Results.{Result-cases, ok}
use device_network.Kubernetes.{DeviceRequestAllocationResult, AllocatedDeviceStatus, Device}
use device_network.Prelude.Dict.{lookup}
use device_network.Api.{DeviceConfiguration, DeviceNetwork, get_device_type}
use device_network.Resolver
use device_network.Platform.{Platform, History}
use device_network.Configurators.{Configurator}
use device_network.Driver.{
  KubeletDevice, Driver, kubelet_device, allocate_device, status_data_of, initial_status,
  apply_status_of,
}

module _ (p : Platform) (d : Driver) where
  -- The parts of the resolved device, and the call of the configurator.
  pub record IsAllocated (device : Resolver.Device) (h t : History) (x : Option KubeletDevice)
      (y : Option AllocatedDeviceStatus) : Type 1 where
    pub result : DeviceRequestAllocationResult
    pub exposed : Device
    pub configuration : DeviceConfiguration
    pub network : DeviceNetwork
    pub raw : String
    pub configurator : Configurator
    pub status : AllocatedDeviceStatus
    pub of_result : device.device_request_allocation_result ≡ some result
    pub of_configuration : device.device_configuration ≡ some configuration
    pub of_network : device.device_network ≡ some network
    pub encoded :
        p.marshal (status_data_of d.pod_network_kind network configuration device.host_device)
        ≡ some raw
    pub found : lookup (get_device_type configuration) d.device_configurators ≡ some configurator
    pub allocated :
        configurator.allocate device.host_device
          (some configuration)
          (some network.spec.network_interface_configuration)
          (some (initial_status result raw))
          h
        ≡ (ok (some status), t)
    pub for_kubelet : x ≡ some (kubelet_device result exposed.attributes status)
    pub for_status : y ≡ some (apply_status_of p d status)

  pub allocate_device-IsAllocated :
      (device : Resolver.Device) (h t : History) {x : Option KubeletDevice}
      {y : Option AllocatedDeviceStatus}
      → allocate_device p d (some device) h ≡ (ok (x, y), t)
      → IsAllocated device h t x y
  unfolding allocate_device
  allocate_device-IsAllocated device h t {x} {y} e0 =
      elim (Option-cases device.device_request_allocation_result) [
        | inl r ↦ absurd (cc (rw r at e0))
        | inr (result, r) ↦
            let e1 = rw r at e0 in
            elim (Option-cases device.exposed_device) [
              | inl a ↦ absurd (cc (rw a at e1))
              | inr (exposed, a) ↦
                  let e2 = rw a at e1 in
                  elim (Option-cases device.device_configuration) [
                    | inl b ↦ absurd (cc (rw b at e2))
                    | inr (dc, b) ↦
                        let e3 = rw b at e2 in
                        elim (Option-cases device.device_network) [
                          | inl c ↦ absurd (cc (rw c at e3))
                          | inr (network, c) ↦
                              let e4 = rw c at e3 in
                              elim (Option-cases (
                                p.marshal (
                                  status_data_of d.pod_network_kind network dc
                                    device.host_device))) [
                                      | inl m ↦ absurd (cc (rw m at e4))
                                      | inr (raw, m) ↦
                                          let e5 = rw m at e4 in
                                          elim (Option-cases
                                            (lookup (get_device_type dc) d.device_configurators)) [
                                              | inl l ↦ absurd (cc (rw l at e5))
                                              | inr (configurator, l) ↦
                                                  let e6 = rw l at e5 in
                                                  let run =
                                                    configurator.allocate device.host_device
                                                      (some dc)
                                                      (some
                                                        network.spec.network_interface_configuration)
                                                      (some (initial_status result raw)) in
                                                  elim (Result-cases (run h).0) [
                                                    | inr (inl (o, g)) ↦ absurd (cc (rw g at e6))
                                                    | inr (inr (inl g)) ↦ absurd (cc (rw g at e6))
                                                    | inr (inr (inr g)) ↦ absurd (cc (rw g at e6))
                                                    | inl (none, g) ↦ absurd (cc (rw g at e6))
                                                    | inl (some status, g) ↦
                                                        let done = rw g at e6 in
                                                        record {
                                                          result = result;
                                                          exposed = exposed;
                                                          configuration = dc;
                                                          network = network;
                                                          raw = raw;
                                                          configurator = configurator;
                                                          status = status;
                                                          of_result = r;
                                                          of_configuration = b;
                                                          of_network = c;
                                                          encoded = m;
                                                          found = l;
                                                          allocated = cc (g, done);
                                                          for_kubelet = cc done;
                                                          for_status = cc done;
                                                        }
                                                  ]
                                            ]
                                    ]
                        ]
                  ]
            ]
      ]
