-- ===== src/Nri.antt =====
-- pkg/nri/plugin.go: the NRI plugin, with the goroutines that configure pods. A process stands in a
-- heap, since a goroutine keeps it when the map has another one or none: the map holds its number.
-- A call of the plugin and a step of a goroutine are one event each; the wait of `terminate` is an
-- event of its own, which is not enabled while the process runs.
pub mod Process
pub mod Settled
pub mod Progress
pub mod Ordering
pub mod Within
pub mod Termination
use device_network.Prelude.{
  ℕ, zero, suc, ◌+◌, String, ◌==◌, Bool, true, false, Option, none, some, List, [], ◌∷◌, ◌++◌,
  length, is_empty, if◌then◌else◌,
}
use device_network.Prelude.Results.{Result, ok, err, panic, unfinished}
use device_network.Prelude.Dict.{Dict, lookup, insert, erase}
use device_network.Kubernetes.{ResourceClaim}
use device_network.Store
use device_network.Store.{Memory}
use device_network.Platform.{Platform, History}
use device_network.Configurators.{Configurators}
use Process.{
  ConfigurationProcess, new_configuration_process, is_done, request_stop, may_proceed, Done, unset,
  opened, closed, begin_run, run_claim, end_run,
}

-- `api.PodSandbox`: the types and the paths of its namespaces.
pub record PodSandbox : Type 0 where
  pub uid : String
  pub namespaces : List (String × String)

pub record Plugin : Type 0 where
  pub pod_resource_store : Memory
  pub configuration_processes : Dict ℕ
  pub heap : List ConfigurationProcess
  pub history : History
  -- A goroutine panicked: the program is gone.
  pub crashed : Bool

-- `NewPlugin`.
unfoldable pub new_plugin : Memory → Plugin
new_plugin store = record {
  pod_resource_store = store;
  configuration_processes = [];
  heap = [];
  history = [];
  crashed = false;
}

abbrev pub get_elem? : {A : Type 0} → List A → ℕ → Option A
get_elem? [] i = none
get_elem? (x ∷ xs) zero = some x
get_elem? (x ∷ xs) (suc i) = get_elem? xs i

abbrev pub set : {A : Type 0} → List A → ℕ → A → List A
set [] i a = []
set (x ∷ xs) zero a = a ∷ xs
set (x ∷ xs) (suc i) a = x ∷ set xs i a

unfoldable pub get_network_namespace : List (String × String) → String
get_network_namespace [] = ""
get_network_namespace ((type, path) ∷ rest) =
    if type == "network" then path else get_network_namespace rest

unfoldable pub run_pod_sandbox : Plugin → PodSandbox → Result (Unit {0}) × Plugin
run_pod_sandbox pl pod =
    let claims = Store.get pl.pod_resource_store pod.uid in
    let namespace = get_network_namespace pod.namespaces in
    if is_empty claims
    then (ok tt, pl)
    else (if namespace == "" then (err "error getting network namespace for pod", pl) else (
      ok tt,
      record pl {
        configuration_processes = insert pod.uid (length pl.heap) pl.configuration_processes;
        heap = pl.heap ++ new_configuration_process namespace claims ∷ [];
      },
    ))

abbrev at_index : {A : Type 0} → List A → Option ℕ → Option A
at_index xs none = none
at_index xs (some i) = get_elem? xs i

-- The process that the map has for a pod.
unfoldable pub process_of : Plugin → String → Option ConfigurationProcess
process_of pl uid = at_index pl.heap (lookup uid pl.configuration_processes)

-- The test on the process: none is as good as one that is done.
unfoldable pub ready : Option ConfigurationProcess → Bool
ready none = true
ready (some cp) = is_done cp

unfoldable pub start_container : Plugin → PodSandbox → Result (Unit {0}) × Plugin
unfolding process_of ready
start_container pl pod =
    if ready (process_of pl pod.uid)
    then (ok tt, record pl { configuration_processes = erase pod.uid pl.configuration_processes })
    else (err "device networks are not configured for pod", pl)

abbrev updated_at :
    Plugin
    → ℕ
    → (ConfigurationProcess → ConfigurationProcess)
    → Option ConfigurationProcess
    → Plugin
updated_at pl i f none = pl
updated_at pl i f (some cp) = record pl { heap = set pl.heap i (f cp) }

unfoldable pub update_process : Plugin → ℕ → (ConfigurationProcess → ConfigurationProcess) → Plugin
update_process pl i f = updated_at pl i f (get_elem? pl.heap i)

stop_process : Plugin → Option ℕ → Plugin
unfolding update_process
stop_process pl none = pl
stop_process pl (some i) = update_process pl i request_stop

-- `RemovePodSandbox` up to the wait in `terminate`.
pub remove_pod_sandbox : Plugin → PodSandbox → Plugin
unfolding stop_process
remove_pod_sandbox pl pod = stop_process pl (lookup pod.uid pl.configuration_processes)

abbrev finish_after : Plugin → String → Option ConfigurationProcess → Plugin
finish_after pl uid none = pl
finish_after pl uid (some cp) =
    if may_proceed cp
    then record pl { configuration_processes = erase uid pl.configuration_processes }
    else pl

-- Its end, once the process lets it proceed.
pub finish_removal : Plugin → PodSandbox → Plugin
unfolding process_of
finish_removal pl pod = finish_after pl pod.uid (process_of pl pod.uid)

pub data Event : Type 0 where
  runs starts removes removal_ends : PodSandbox → Event
  begins proceeds : ℕ → Event

module _ (p : Platform) (driver_name : String) (configurators : Configurators) where
  -- A step of a goroutine that has begun: the next claim, or the end.
  abbrev pub goroutine_at :
      Done
      → List ResourceClaim
      → ConfigurationProcess
      → History
      → Result ConfigurationProcess × History
  goroutine_at unset claims cp h = (ok cp, h)
  goroutine_at closed claims cp h = (ok cp, h)
  goroutine_at opened [] cp h = (ok (end_run cp), h)
  goroutine_at opened (claim ∷ rest) cp h = run_claim p driver_name configurators cp claim rest h

  unfoldable pub goroutine : ConfigurationProcess → History → Result ConfigurationProcess × History
  goroutine cp h = goroutine_at cp.done cp.claims cp h

  abbrev begun : Done → ConfigurationProcess → ConfigurationProcess
  begun unset cp = begin_run cp
  begun opened cp = cp
  begun closed cp = cp

  unfoldable pub begin_process : ConfigurationProcess → ConfigurationProcess
  begin_process cp = begun cp.done cp

  -- The process after a step of its goroutine.
  unfoldable pub stepped : Plugin → ℕ → Result ConfigurationProcess × History → Plugin
  stepped pl i (ok next, h) = record pl { heap = set pl.heap i next; history = h }
  stepped pl i (err e, h) = record pl { crashed = true; history = h }
  stepped pl i (panic, h) = record pl { crashed = true; history = h }
  stepped pl i (unfinished, h) = record pl { crashed = true; history = h }

  abbrev proceeded : Plugin → ℕ → Option ConfigurationProcess → Plugin
  proceeded pl i none = pl
  proceeded pl i (some cp) = stepped pl i (goroutine cp pl.history)

  unfoldable pub proceed : Plugin → ℕ → Plugin
  proceed pl i = proceeded pl i (get_elem? pl.heap i)

  unfoldable pub handle : Plugin → Event → Plugin
  unfolding proceed update_process begin_process
  handle pl (runs pod) = (run_pod_sandbox pl pod).1
  handle pl (starts pod) = (start_container pl pod).1
  handle pl (removes pod) = remove_pod_sandbox pl pod
  handle pl (removal_ends pod) = finish_removal pl pod
  handle pl (begins i) = update_process pl i begin_process
  handle pl (proceeds i) = proceed pl i

  -- Nothing happens in a program that is gone.
  unfoldable pub step : Plugin → Event → Plugin
  unfolding handle
  step pl e = if pl.crashed then pl else handle pl e

  unfoldable pub run : Plugin → List Event → Plugin
  run pl [] = pl
  run pl (e ∷ es) = run (step pl e) es
