-- ===== src/Configurators/Common.antt =====
-- The common configurator (pkg/configurators/common.go): addresses of the Random provider. The write
-- of an empty NetworkData to the caller's status, when it has none, is not returned: both callers
-- pass a copy of their own that has one.
pub mod Keeps
pub mod Provided
use Prim.Native.String.{◌++◌ as concat}
use device_network.Prelude.{
  String, ◌==◌, Bool, not, Option, none, some, List, [], ◌∷◌, ◌++◌, false, is_empty, if◌then◌else◌,
}
use device_network.Prelude.Exec.{◌>>=◌, ◌>>◌, pure, wrapped, guarded, required_ptr, deref_ptr}
use device_network.Kubernetes.{AllocatedDeviceStatus, NetworkDeviceData}
use device_network.Api.{Ipam, RandomIpam, ipam_provider_random, NetworkInterfaceConfiguration}
use device_network.Host
use device_network.Platform.{Platform, Sys}
use device_network.Configurators.Random.{generate_random_ip}

pub data CommonConfigurator : Type 0 where
  common_configurator : CommonConfigurator

-- `append(res.NetworkData.IPs, ip)` on the copy: its NetworkData is dereferenced.
unfoldable pub append_ip : AllocatedDeviceStatus → String → Sys AllocatedDeviceStatus
append_ip res ip = do
  data_ ← deref_ptr res.network_data
  pure (record res { network_data = some (record data_ { ips = data_.ips ++ ip ∷ [] }) })

unfoldable pub has_ips : Option NetworkDeviceData → Bool
has_ips none = false
has_ips (some d) = not (is_empty d.ips)

module _ (p : Platform) where
  unfoldable pub random_address : Option RandomIpam → Sys String
  random_address random = do
    r ← required_ptr random "random IPAM configuration is nil"
    guarded (not (r.cidr == "")) "random IPAM CIDR is empty"
    net ← required_ptr (p.parse_cidr r.cidr) "invalid random IPAM CIDR"
    ip ← wrapped "failed to generate random IP" (generate_random_ip p net)
    pure (concat (p.ip_string ip) (concat "/" (p.decimal (p.mask_size net.mask).0)))

  -- The loop over the providers.
  unfoldable pub provide : List (Option Ipam) → AllocatedDeviceStatus → Sys AllocatedDeviceStatus
  unfolding append_ip
  provide [] res = pure res
  provide (entry ∷ ipams) res = do
    ipam ← deref_ptr entry
    next ←
        (if ipam.provider == ipam_provider_random
          then (do ip ← random_address ipam.random; append_ip res ip)
          else pure res)
    provide ipams next

  unfoldable pub common_allocate :
      CommonConfigurator
      → Option Host.Device
      → Option NetworkInterfaceConfiguration
      → Option AllocatedDeviceStatus
      → Sys (Option AllocatedDeviceStatus)
  unfolding has_ips
  common_allocate c host_device configuration status = do
    given ← required_ptr status "allocatedDeviceStatus is nil"
    nic ← required_ptr configuration "networkInterfaceConfiguration is nil"
    if has_ips given.network_data
        then pure (some given)
        else (do res ← provide nic.ipam given; pure (some res))
