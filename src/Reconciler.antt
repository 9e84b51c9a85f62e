-- ===== src/Reconciler.antt =====
-- pkg/controllers/devicenetwork/reconciler.go: the devices that a node publishes. Listers, the match
-- of node selectors and the publication are parameters; the orders in which Go walks a map or a set
-- are any orders.
pub mod Attributes
pub mod Origin
pub mod Exclusive
pub mod Collisions
pub mod Pools
pub mod Resources
pub mod Chosen
pub mod Grows
pub mod Complete
use Prim.Native.String.{◌++◌ as concat}
use device_network.Prelude.{
  String, ◌==◌, Bool, true, false, Option, none, some, List, [], ◌∷◌, ◌++◌, include, if◌then◌else◌,
}
use device_network.Prelude.Results
use device_network.Prelude.Results.{Result, ok, err, panic, unfinished, ◌>>=◌, ◌>>◌, wrap}
use device_network.Prelude.Exec
use device_network.Prelude.Exec.{Exec}
use device_network.Prelude.Dict.{Dict, lookup, insert}
use device_network.Kubernetes.{Device, DeviceAttribute, CounterSet, Node, NodeSelector}
use device_network.Api.{
  DeviceNetwork, DeviceConfiguration, DeviceSelector, StandardAttributes, get_device_type,
  attribute_device_type, attribute_device_configuration, attribute_host_device_name,
}
use device_network.Host
use device_network.Host.Cache
use device_network.Host.Cache.{DeviceCache}
use device_network.Host.Filter.{Cel}
use device_network.Configurators.{Configurator, Configurators}

abbrev pub mutual_exclusion : String
mutual_exclusion = "mutual-exclusion"

pub record Reconciler : Type 1 where
  pub pod_network_kind : String
  pub device_cache : DeviceCache
  pub device_configurators : Configurators
  pub attributes : StandardAttributes
  pub cel : Cel
  -- k8s.io/component-helpers: MatchNodeSelectorTerms
  pub match_node_selector_terms : Node → NodeSelector → Result Bool
  -- The orders of UnsortedList and of a walk over a map.
  pub device_order : List Host.Device → List Host.Device
  pub entry_order : Dict Host.Device → Dict Host.Device
  pub name_order : List String → List String

pub record Slice : Type 0 where
  pub devices : List Device
  pub shared_counters : List CounterSet

pub record DriverResources : Type 0 where
  pub pools : Dict (List Slice)

unfoldable pub device_name : String → String → String → String
device_name device_network_name device_configuration_name name =
    concat device_network_name (concat "-" (concat device_configuration_name (concat "-" name)))

-- `if err != nil || !applyToNode { continue }`
abbrev holds : Result Bool → Bool
holds (ok b) = b
holds _ = false

-- `if err != nil { continue }`; a panic goes on.
abbrev pub or_skip {ℓ} : {A : Type ℓ} → Result (Option A) → Result (Option A)
or_skip (ok a) = ok a
or_skip (err e) = ok none
or_skip panic = panic
or_skip unfinished = unfinished

abbrev pub text : String → DeviceAttribute
text s = record { string_value = some s }

-- What the reconciler accumulates: the devices, and the names of their counter sets.
pub record Published : Type 0 where
  pub devices : List Device
  pub counter_sets : List String

module _ (r : Reconciler) (node : Node) where
  unfoldable pub applies_to_node : Option NodeSelector → Bool
  applies_to_node none = true
  applies_to_node (some ns) = holds (r.match_node_selector_terms node ns)

  unfoldable pub list_devices : DeviceSelector → List Host.Device
  list_devices s = Cache.list r.cel r.device_order r.device_cache s.selectors

  -- The loop over the selectors fills `deviceForSelector`.
  unfoldable pub device_for_selector :
      Dict (List Host.Device) → List DeviceSelector → Dict (List Host.Device)
  unfolding applies_to_node list_devices
  device_for_selector m [] = m
  device_for_selector m (s ∷ selectors) =
      device_for_selector
        (if applies_to_node s.node_selector then insert s.name (list_devices s) m else m) selectors

unfoldable pub insert_devices : Dict Host.Device → List Host.Device → Dict Host.Device
insert_devices m [] = m
insert_devices m (d ∷ devices) = insert_devices (insert d.name d m) devices

unfoldable pub or_none : Option (List Host.Device) → List Host.Device
or_none none = []
or_none (some devices) = devices

-- `deviceForDeviceConfiguration`, by name.
unfoldable pub device_for_configuration :
    Dict (List Host.Device) → Dict Host.Device → List String → Dict Host.Device
unfolding insert_devices or_none
device_for_configuration by_selector m [] = m
device_for_configuration by_selector m (name ∷ names) =
    device_for_configuration by_selector (insert_devices m (or_none (lookup name by_selector)))
      names

-- The name and the attributes of a published device.
unfoldable pub finish_device :
    Reconciler → DeviceNetwork → DeviceConfiguration → Host.Device → Device → Device
finish_device r network dc dvc device = record device {
  name = device_name network.name dc.name dvc.name;
  attributes = insert attribute_host_device_name (text dvc.name) (
      insert attribute_device_configuration (text dc.name) (
        insert r.attributes.pod_network_kind (text r.pod_network_kind) (
          insert r.attributes.pod_network (text network.name)
            (insert attribute_device_type (text (get_device_type dc)) device.attributes))));
}

-- IsSupported, then ExposedDevice; `none` is a `continue`.
unfoldable pub expose : Configurator → DeviceConfiguration → Host.Device → Result (Option Device)
expose configurator dc dvc = or_skip (do
  supported ← configurator.is_supported (some dvc) (some dc)
  if supported then configurator.exposed_device (some dvc) none else ok none)

module _ (r : Reconciler) (network : DeviceNetwork) where
  unfoldable pub add_exposed :
      DeviceConfiguration → Host.Device → Option Device → Published → Published
  add_exposed dc dvc none acc = acc
  add_exposed dc dvc (some device) acc = record {
    devices = acc.devices ++ finish_device r network dc dvc device ∷ [];
    counter_sets = include dvc.name acc.counter_sets;
  }

  -- The loop over the devices of a configuration.
  unfoldable pub publish_devices :
      Configurator → DeviceConfiguration → Dict Host.Device → Published → Result Published
  publish_devices configurator dc [] acc = ok acc
  publish_devices configurator dc ((key, dvc) ∷ rest) acc = do
    exposed ← expose configurator dc dvc
    publish_devices configurator dc rest (add_exposed dc dvc exposed acc)

  unfoldable pub publish_configuration :
      Dict (List Host.Device)
      → DeviceConfiguration
      → Option Configurator
      → Published
      → Result Published
  publish_configuration by_selector dc none acc = ok acc
  publish_configuration by_selector dc (some configurator) acc =
      publish_devices configurator dc
        (r.entry_order (device_for_configuration by_selector [] dc.device_selectors)) acc

  unfoldable pub publish_configurations :
      Dict (List Host.Device) → List DeviceConfiguration → Published → Result Published
  publish_configurations by_selector [] acc = ok acc
  publish_configurations by_selector (dc ∷ dcs) acc = do
    next ←
        publish_configuration by_selector dc (lookup (get_device_type dc) r.device_configurators)
          acc
    publish_configurations by_selector dcs next

unfoldable pub publish_networks :
    Reconciler → Node → List DeviceNetwork → Published → Result Published
publish_networks r node [] acc = ok acc
publish_networks r node (network ∷ networks) acc = do
  next ←
      publish_configurations r network (device_for_selector r node [] network.spec.device_selectors)
        network.spec.device_configurations acc
  publish_networks r node networks next

unfoldable pub shared_counters : List String → List CounterSet
shared_counters [] = []
shared_counters (name ∷ names) =
    record { name = name; counters = (mutual_exclusion, 65536) ∷ [] } ∷ shared_counters names

unfoldable pub get_resources : Reconciler → Node → List DeviceNetwork → Result DriverResources
get_resources r node networks = do
  published ← publish_networks r node networks (record { devices = []; counter_sets = [] })
  ok (record {
    pools =
        (
          node.name,
          record { devices = published.devices; shared_counters = [] }
              ∷ record {
                devices = [];
                shared_counters = shared_counters (r.name_order published.counter_sets);
              }
              ∷ [],
        )
        ∷ [];
  })

-- The publications so far, latest first; `publish` is nil or a function that may fail.
unfoldable pub publish_all :
    Option (DriverResources → Result (Unit {0}))
    → DriverResources
    → Exec (List DriverResources) (Unit {0})
publish_all none resources done = (ok tt, done)
publish_all (some publish) resources done =
    (wrap "failed to publish resources" (publish resources), resources ∷ done)

unfoldable pub reconcile :
    Reconciler
    → Result Node
    → Result (List DeviceNetwork)
    → Option (DriverResources → Result (Unit {0}))
    → Exec (List DriverResources) (Unit {0})
unfolding publish_all
reconcile r node device_networks publish =
    Exec.◌>>=◌ (λ s. (wrap "failed to get node" node, s))
      λ n.
        Exec.◌>>=◌ (λ s. (wrap "failed to list DeviceNetworks" device_networks, s))
          λ networks.
            Exec.◌>>=◌ (λ s. (get_resources r n networks, s))
              λ resources. publish_all publish resources
