-- ===== src/Reconciler/Pools.antt =====
-- pkg/controllers/devicenetwork/reconciler.go: the devices and the counter sets of the pools.
use device_network.Prelude.{◌≡◌, List, [], ◌∷◌, ◌++◌}
use mathlib.Core.List.{append-nil}
use device_network.Prelude.Results.{ok, >>=-eq-ok}
use device_network.Prelude.Dict.{Dict}
use device_network.Kubernetes.{Device, Node, CounterSet}
use device_network.Api.{DeviceNetwork}
use device_network.Reconciler.{
  Reconciler, Published, Slice, DriverResources, publish_networks, shared_counters, get_resources,
}

-- All devices, and all counter sets, of the pools.
abbrev slice_devices : List Slice → List Device
slice_devices [] = []
slice_devices (s ∷ ss) = s.devices ++ slice_devices ss

abbrev slice_counters : List Slice → List CounterSet
slice_counters [] = []
slice_counters (s ∷ ss) = s.shared_counters ++ slice_counters ss

abbrev pub pool_devices : Dict (List Slice) → List Device
pool_devices [] = []
pool_devices ((name, slices) ∷ pools) = slice_devices slices ++ pool_devices pools

abbrev pub pool_counters : Dict (List Slice) → List CounterSet
pool_counters [] = []
pool_counters ((name, slices) ∷ pools) = slice_counters slices ++ pool_counters pools

-- The pools of the node, with its two slices.
abbrev node_pools : Reconciler → Node → Published → Dict (List Slice)
node_pools r node acc =
    (
      node.name,
      record { devices = acc.devices; shared_counters = [] }
          ∷ record {
            devices = [];
            shared_counters = shared_counters (r.name_order acc.counter_sets);
          }
          ∷ [],
    )
    ∷ []

pools_of_ok :
    {pools : Dict (List Slice)} {res : DriverResources}
    → ok (record { pools = pools }) ≡ ok res
    → pools ≡ res.pools
pools_of_ok e = cc

module _ (r : Reconciler) (node : Node) (networks : List DeviceNetwork) where
  -- What the loops have published is what the pools have.
  pub get_resources-made :
      {res : DriverResources}
      → get_resources r node networks ≡ ok res
      → (acc : Published) × (publish_networks r node networks
            (record { devices = []; counter_sets = [] })
          ≡ ok acc)
        × (acc.devices ≡ pool_devices res.pools)
        × (shared_counters (r.name_order acc.counter_sets) ≡ pool_counters res.pools)
  unfolding get_resources
  get_resources-made {res} e =
      let (acc, run, made) = >>=-eq-ok (publish_networks r node networks _) _ e in
      let pools : node_pools r node acc ≡ res.pools = pools_of_ok made in
      (acc, run, rw (← pools) (simp append-nil), rw (← pools) (simp append-nil))
