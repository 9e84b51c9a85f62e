-- ===== src/Examples/Started.antt =====
-- A pod's devices are configured and its container starts, on the example.
use device_network.Prelude.{
  true, false, none, some, List, [], ◌∷◌, ◌≡◌, refl, ◌⊎◌, is_empty, ◌<◌, length, arith,
}
use device_network.Prelude.Results.{ok}
use device_network.Prelude.Dict.{lookup, insert}
use device_network.Kubernetes.{ResourceClaim, no_network_data}
use device_network.Api.{get_device_type}
use device_network.Host.Rdma.{rdma_devices_for_netdev}
use device_network.Store
use device_network.Store.{Memory}
use device_network.Cmd.{device_configurators}
use device_network.Configurators.HostDevice
use device_network.Nri.Process.{
  ConfigurationProcess, closed, unset, opened, may_proceed, begin_run, end_run, request_stop,
  run_claim, new_configuration_process, configure_resource_claim, configure_devices,
  configure_device, is_done,
}
use device_network.Nri.{
  PodSandbox, Plugin, get_elem?, removes, new_plugin, run_pod_sandbox, get_network_namespace,
  start_container, process_of, ready, Event, runs, begins, proceeds, run, step, handle, proceed,
  goroutine, stepped, begin_process, update_process,
}
use device_network.Nri.Progress.{start_container-run}
use device_network.Nri.Termination.{steps, is_step, run-ends}
use device_network.Nri.Ordering.{start_container-run_pod_sandbox, run-pod_resource_store}
use device_network.Examples.Data.{platform}

abbrev claim : ResourceClaim
claim = record {
  uid = "uid";
  name = "claim";
  namespace = "default";
  reserved_for = "pod" ∷ [];
  allocation = none;
  devices =
      record {
        driver = "driver";
        pool = "node0";
        device = "device";
        share_id = none;
        conditions = [];
        status_data = some (record { raw = some "whole" });
        network_data = some no_network_data;
      }
      ∷ [];
}

abbrev pod : PodSandbox
pod = record { uid = "pod"; namespaces = ("network", "/ns") ∷ [] }

abbrev store : Memory
store = record { pod_resources = ("pod", claim ∷ []) ∷ [] }

-- The sandbox starts, its goroutine begins, configures the claim, and ends.
abbrev events : List Event
events = runs pod ∷ begins 0 ∷ proceeds 0 ∷ proceeds 0 ∷ []

abbrev after : Plugin
after = run platform "driver" (device_configurators platform) (new_plugin store) events

abbrev process : ConfigurationProcess
process = record {
  pod_network_namespace = "/ns";
  claims = [];
  done = closed;
  cancel = false;
  cancelled = true;
}

has_process : process_of after "pod" ≡ some process
unfolding process_of run step handle run_pod_sandbox new_plugin get_network_namespace Store.get
    update_process begin_process begin_run proceed goroutine stepped run_claim end_run request_stop
    new_configuration_process configure_resource_claim configure_devices configure_device
    device_configurators lookup insert get_device_type HostDevice.configurator HostDevice.configure
    HostDevice.move_device HostDevice.move_rdma_devices HostDevice.sysfs_root
    rdma_devices_for_netdev
has_process = refl

starts_container : (start_container after pod).0 ≡ ok tt
unfolding start_container ready is_done process_of run step handle run_pod_sandbox new_plugin
    get_network_namespace Store.get update_process begin_process begin_run proceed goroutine stepped
    run_claim end_run request_stop new_configuration_process configure_resource_claim
    configure_devices configure_device device_configurators lookup insert get_device_type
    HostDevice.configurator HostDevice.configure HostDevice.move_device HostDevice.move_rdma_devices
    HostDevice.sysfs_root rdma_devices_for_netdev
starts_container = refl

start_container-run_example : (process.done ≡ unset) ⊎ (process.claims ≡ [])
start_container-run_example =
    start_container-run platform "driver" (device_configurators platform) store events pod process
      starts_container has_process

sandbox_starts : (run_pod_sandbox (new_plugin store) pod).0 ≡ ok tt
unfolding run_pod_sandbox new_plugin get_network_namespace Store.get lookup
sandbox_starts = refl

has_claims : is_empty (Store.get (new_plugin store).pod_resource_store pod.uid) ≡ false
unfolding new_plugin Store.get lookup
has_claims = refl

start_container-run_pod_sandbox_example :
    ((start_container (run_pod_sandbox (new_plugin store) pod).1 pod).0 ≡ ok tt)
    × ((run_pod_sandbox (new_plugin store) pod).1.history ≡ (new_plugin store).history)
start_container-run_pod_sandbox_example =
    start_container-run_pod_sandbox (new_plugin store) pod has_claims sandbox_starts

run-pod_resource_store_example : after.pod_resource_store ≡ (new_plugin store).pod_resource_store
run-pod_resource_store_example =
    run-pod_resource_store platform "driver" (device_configurators platform) (new_plugin store)
      events

-- The goroutine has begun; the sandbox is removed while it works.
abbrev working : Plugin
working =
    run platform "driver" (device_configurators platform) (new_plugin store)
      (runs pod ∷ begins 0 ∷ [])

abbrev begun : ConfigurationProcess
begun = record {
  pod_network_namespace = "/ns";
  claims = claim ∷ [];
  done = opened;
  cancel = true;
  cancelled = false;
}

is_begun : get_elem? working.heap 0 ≡ some begun
unfolding run step handle run_pod_sandbox new_plugin get_network_namespace Store.get update_process
    begin_process begin_run new_configuration_process lookup
is_begun = refl

abbrev meanwhile : List Event
meanwhile = proceeds 0 ∷ removes pod ∷ proceeds 0 ∷ []

two_steps : length begun.claims < steps 0 meanwhile
unfolding steps is_step
two_steps = omega arith

run-ends_example :
    let t = run platform "driver" (device_configurators platform) working meanwhile in
    (t.crashed ≡ true)
    ⊎ ((last : ConfigurationProcess) × (get_elem? t.heap 0 ≡ some last)
        × (last.done ≡ closed)
        × (may_proceed last ≡ true))
run-ends_example =
    run-ends platform "driver" (device_configurators platform) working meanwhile 0 begun is_begun
      refl two_steps
