-- ===== src/Platform.antt =====
-- What the configurators and the driver ask of the operating system and of packages outside the
-- repository (netlink, netns, net, math/rand, encoding/json, encoding/hex, the Kubernetes client):
-- parameters. A call of the system is recorded in a history, latest first, and its outcome may
-- depend on all that was done before.
pub mod Calls
use device_network.Prelude.{ℕ, String, Bool, true, false, Option, none, some, List, [], ◌∷◌}
use device_network.Prelude.Results.{ok, err, panic, unfinished}
use device_network.Prelude.Exec.{Exec, ◌>>=◌, ◌>>◌, modify, lift, gets, required_ptr, guarded}
use device_network.Kubernetes.{ResourceClaim, AllocatedDeviceStatus, Condition}
use device_network.Api.{DeviceConfiguration}
use device_network.Host.{Device}
use device_network.Host.Rdma.{FileSystem}

-- github.com/vishvananda/netlink: the modes of a macvlan link, and the link that is added.
pub data NetlinkMode : Type 0 where
  mode_private mode_vepa mode_bridge mode_passthru mode_source : NetlinkMode

pub record MacvlanLink : Type 0 where
  pub name : String
  pub parent_index : ℕ
  pub namespace : ℕ
  pub mode : NetlinkMode

pub data Effect : Type 0 where
  drew : ℕ → Effect
  opened_ns : String → Effect
  closed_ns : ℕ → Effect
  found_rdma : String → Effect
  moved_rdma : ℕ → ℕ → Effect
  found_link : String → Effect
  moved_link : ℕ → ℕ → Effect
  added_link : MacvlanLink → Effect
  applied : String → String → List AllocatedDeviceStatus → Effect

abbrev pub History : Type 0
History = List Effect

abbrev pub Sys : Type 0 → Type 0
Sys A = Exec History A

-- pkg/status/types.go: what the driver stores for the NRI plugin.
pub record PodNetwork : Type 0 where
  pub kind : String
  pub name : String

pub record ResourceClaimDeviceStatusData : Type 0 where
  pub pod_network : Option PodNetwork
  pub device_configuration : Option DeviceConfiguration
  pub device : Option Device

abbrev pub condition_allocation : String
condition_allocation = "Allocation"

abbrev pub reason_allocated : String
reason_allocated = "Allocated"

-- `net.IPNet`
pub record IpNet : Type 0 where
  pub ip : List ℕ
  pub mask : List ℕ

pub record Platform : Type 0 where
  -- rand.IntN(256)
  pub int_n : History → ℕ
  pub ns_from_path : History → String → Option ℕ
  pub files : History → FileSystem
  pub rdma_link_by_name : History → String → Option ℕ
  pub rdma_link_set_ns_fd : History → ℕ → ℕ → Bool
  pub link_by_name : History → String → Option ℕ
  pub link_set_ns_fd : History → ℕ → ℕ → Bool
  pub link_add : History → MacvlanLink → Bool
  -- ApplyStatus: the name, the namespace, the devices, the field manager.
  pub apply_status :
      History → String → String → List AllocatedDeviceStatus → String → Option ResourceClaim
  pub set_status_condition : List Condition → Condition → List Condition
  pub marshal : ResourceClaimDeviceStatusData → Option String
  pub unmarshal : String → Option ResourceClaimDeviceStatusData
  pub parse_cidr : String → Option IpNet
  -- IPMask.Size: the leading ones and the bits.
  pub mask_size : List ℕ → ℕ × ℕ
  pub ip_string : List ℕ → String
  pub decimal : ℕ → String
  pub hex : List ℕ → String
  -- The rounds that the search for a random address may take.
  pub rounds : ℕ

-- A call: it is recorded, and fails with a message, or returns a value.
abbrev pub call : {A : Type 0} → (History → Option A) → Effect → String → Sys A
call outcome e message = do r ← gets outcome; modify (λ h. e ∷ h); required_ptr r message

abbrev pub call_ok : (History → Bool) → Effect → String → Sys (Unit {0})
call_ok outcome e message = do r ← gets outcome; modify (λ h. e ∷ h); guarded r message

-- `defer func() { nsHandle.Close() }()`: whatever the body's outcome, a panic included.
abbrev pub closing : {A : Type 0} → ℕ → Sys A → Sys A
closing ns m h = let (r, t) = m h in (r, closed_ns ns ∷ t)
