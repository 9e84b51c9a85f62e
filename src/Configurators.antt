-- ===== src/Configurators.antt =====
-- pkg/configurators: the interface that the reconciler, the driver and the NRI plugin call
-- (common.go), and its two implementations in the modules below.
pub mod Random
pub mod Common
pub mod HostDevice
pub mod Macvlan
use device_network.Prelude.{String, Bool, Option}
use device_network.Prelude.Results.{Result}
use device_network.Prelude.Dict.{Dict}
use device_network.Kubernetes
use device_network.Kubernetes.{AllocatedDeviceStatus}
use device_network.Api.{DeviceConfiguration, NetworkInterfaceConfiguration}
use device_network.Host
use device_network.Platform.{Sys}

pub record Configurator : Type 0 where
  pub is_supported : Option Host.Device → Option DeviceConfiguration → Result Bool
  pub exposed_device :
      Option Host.Device → Option Kubernetes.Device → Result (Option Kubernetes.Device)
  pub allocate :
      Option Host.Device
      → Option DeviceConfiguration
      → Option NetworkInterfaceConfiguration
      → Option AllocatedDeviceStatus
      → Sys (Option AllocatedDeviceStatus)
  pub configure : String → Option AllocatedDeviceStatus → Sys (Option AllocatedDeviceStatus)
  pub release : String → Option AllocatedDeviceStatus → Sys (Option AllocatedDeviceStatus)

-- `map[v1alpha1.DeviceType]configurators.Configurator`
abbrev pub Configurators : Type 0
Configurators = Dict Configurator
