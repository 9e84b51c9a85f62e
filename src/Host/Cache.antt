-- ===== src/Host/Cache.antt =====
-- The device cache (pkg/host/cache.go, pkg/host/option.go). The state is the snapshot, the
-- informer's store (keyed by name), and what was broadcast, latest first; the mutex guards the
-- snapshot alone. Netlink and the outcome of the store's and the broadcaster's calls are parameters.
pub mod Coherence
pub mod Keyed
pub mod Coherent
pub mod Listing
pub mod Selected
pub mod Worker
pub mod Current
pub mod Synced
use device_network.Prelude.{
  ℕ, String, ◌==◌, Bool, true, false, Option, none, some, List, [], ◌∷◌, ◌++◌, map, contains,
  if◌then◌else◌,
}
use device_network.Prelude.Results.{Result, ok, err, panic, unfinished}
use device_network.Prelude.Exec.{Exec, ◌>>◌, ◌>>=◌, pure, modify, guarded, fail}
use device_network.Prelude.Dict.{Dict, lookup, insert, erase, values}
use device_network.Api.{Selector, CelDeviceSelector}
use device_network.Host.{Device, DeviceList, same_spec}
use device_network.Host.Filter.{Cel, eval_devices}
use device_network.Host.Rdma.{FileSystem, is_rdma_capable}

pub data WatchEvent : Type 0 where
  added modified deleted : Device → WatchEvent

pub record DeviceCache : Type 0 where
  pub snapshot : Dict Device
  pub store : Dict Device
  pub broadcast : List WatchEvent

unfoldable pub new_device_cache : DeviceCache
new_device_cache = record { snapshot = []; store = []; broadcast = [] }

-- `netlink.LinkAttrs` and the link's type.
pub record Link : Type 0 where
  pub name : String
  pub index : ℕ
  pub parent_index : ℕ
  pub master_index : ℕ
  pub encap_type : String
  pub type : String

-- The outcome of `LinkByName`.
pub data LinkByName : Type 0 where
  found : Link → LinkByName
  not_found : LinkByName
  failed : LinkByName

-- Whether the call of the store, and that of the broadcaster, succeed.
pub record Outcome : Type 0 where
  pub store_ok : Bool
  pub watch_ok : Bool

unfoldable pub build_device : FileSystem → String → Link → Device
build_device fs sysfs_net_root link = record {
  name = link.name;
  spec = record {
    interface_name = link.name;
    interface_index = link.index;
    rdma_capable = is_rdma_capable fs sysfs_net_root link.name;
    parent_index = link.parent_index;
    master_index = link.master_index;
    link_layer_type = link.encap_type;
    device_type = link.type;
  };
}

-- A failed call of the store changes nothing.
abbrev store_call : Bool → (Dict Device → Dict Device) → String → Exec DeviceCache (Unit {0})
store_call true f e dc = (ok tt, record dc { store = f dc.store })
store_call false f e dc = (err e, dc)

abbrev watch_call : Bool → WatchEvent → String → Exec DeviceCache (Unit {0})
watch_call true w e dc = (ok tt, record dc { broadcast = w ∷ dc.broadcast })
watch_call false w e dc = (err e, dc)

-- The link is gone.
unfoldable pub drop_device : String → Option Device → Outcome → Exec DeviceCache (Unit {0})
drop_device key none o = pure tt
drop_device key (some existing) o = do
  modify (λ dc. record dc { snapshot = erase key dc.snapshot })
  store_call o.store_ok (erase existing.name) "failed to delete device from store"
  watch_call o.watch_ok (deleted existing) "failed to broadcast delete for device"

-- The link is there, and the snapshot has its entry already.
unfoldable pub put_device : Device → Option Device → Outcome → Exec DeviceCache (Unit {0})
put_device entry none o = do
  store_call o.store_ok (insert entry.name entry) "failed to add device to store"
  watch_call o.watch_ok (added entry) "failed to broadcast add for device"
put_device entry (some existing) o = if same_spec existing.spec entry.spec then pure tt else (do
  store_call o.store_ok (insert entry.name entry) "failed to update device in store"
  watch_call o.watch_ok (modified entry) "failed to broadcast update for device")

unfoldable pub sync_device :
    FileSystem → String → (String → LinkByName) → Outcome → String → Exec DeviceCache (Unit {0})
unfolding drop_device put_device build_device
sync_device fs root link_by_name o key dc = elim (link_by_name key) [
  | failed ↦ fail "failed to get device" dc
  | not_found ↦ drop_device key (lookup key dc.snapshot) o dc
  | found link ↦
      let entry = build_device fs root link in
      put_device entry (lookup key dc.snapshot) o
        (record dc { snapshot = insert key entry dc.snapshot })
]

unfoldable pub get : DeviceCache → String → Result Device
get dc name = elim (lookup name dc.store) [ none ↦ err "device for key not found" | some d ↦ ok d ]

module _ (c : Cel) (unsorted_list : List Device → List Device) where
  -- The loop over the selectors: one without an expression, or whose evaluation fails, is passed.
  pub evaluated : Result (List Device) → List Device → List Device
  evaluated (ok devices) result = devices
  evaluated _ result = result

  pub apply_selector : Option CelDeviceSelector → List Device → List Device
  unfolding evaluated
  apply_selector none result = result
  apply_selector (some cel) result =
      evaluated (eval_devices c cel.expression (unsorted_list result)) result

  unfoldable pub apply_selectors : List Selector → List Device → List Device
  unfolding apply_selector
  apply_selectors [] result = result
  apply_selectors (s ∷ selectors) result = apply_selectors selectors (apply_selector s.cel result)

  -- The order of a set is not specified: `unsorted_list` is any.
  unfoldable pub list : DeviceCache → List Selector → List Device
  unfolding apply_selectors
  list dc selectors = unsorted_list (apply_selectors selectors (values dc.store))

  -- The list that the informer starts from.
  pub list_func : DeviceCache → DeviceList
  unfolding list
  list_func dc = record { items = list dc [] }
