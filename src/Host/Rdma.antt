-- ===== src/Host/Rdma.antt =====
-- pkg/host/rdma.go: the RDMA devices behind a network device. The directory tree and the join of
-- path elements are parameters.
use device_network.Prelude.{String, Bool, false, not, List, [], ◌∷◌, is_empty}
use device_network.Prelude.Results.{Result, ok, err, panic, unfinished}

-- The outcome of `os.ReadDir`, with the names of the entries.
pub data ReadDir : Type 0 where
  entries : List String → ReadDir
  not_exist : ReadDir
  failed : ReadDir

pub record FileSystem : Type 0 where
  pub join : List String → String
  pub read_dir : String → ReadDir

abbrev pub default_sysfs_net_root : String
default_sysfs_net_root = "/sys/class/net"

abbrev pub listed : ReadDir → Result (List String)
listed (entries names) = ok names
listed not_exist = ok []
listed failed = err "failed to read RDMA devices"

abbrev nonempty : Result (List String) → Bool
nonempty (ok names) = not (is_empty names)
nonempty (err e) = false
nonempty panic = false
nonempty unfinished = false

module _ (fs : FileSystem) where
  unfoldable pub rdma_devices_for_netdev : String → String → Result (List String)
  rdma_devices_for_netdev sysfs_net_root if_name =
      listed (fs.read_dir (fs.join (sysfs_net_root ∷ if_name ∷ "device" ∷ "infiniband" ∷ [])))

  unfoldable pub is_rdma_capable : String → String → Bool
  is_rdma_capable sysfs_net_root if_name = nonempty (rdma_devices_for_netdev sysfs_net_root if_name)
