-- ===== src/Nri/Ordering.antt =====
-- pkg/nri/plugin.go: what the plugin does not wait for, and what it does not clean up.
use device_network.Prelude.{
  ℕ, String, ◌==◌, eq_refl, true, false, Bool-cases, Option-cases, some, List, [], ◌∷◌, ◌++◌, ◌≡◌,
  refl, ◌∙◌, inl, inr, length, is_empty, arith,
}
use device_network.Prelude.Results.{Result, ok, err, panic, unfinished}
use device_network.Prelude.Dict.{lookup, lookup-insert}
use device_network.Store
use device_network.Store.{Memory}
use device_network.Configurators.{Configurators}
use device_network.Platform.{Platform, History}
use device_network.Nri.Process.{
  ConfigurationProcess, new_configuration_process, is_done, request_stop,
}
use device_network.Nri.{
  PodSandbox, Plugin, get_elem?, get_network_namespace, run_pod_sandbox, process_of, ready,
  start_container, update_process, remove_pod_sandbox, finish_removal, Event, runs, starts, removes,
  removal_ends, begins, proceeds, stepped, goroutine, begin_process, proceed, handle, step, run,
}
use device_network.Nri.Settled.{start_container_iff}

get_elem?-append :
    {A : Type 0} (xs : List A) (a : A) → get_elem? (xs ++ a ∷ []) (length xs) ≡ some a
get_elem?-append [] a = refl
get_elem?-append (x ∷ xs) a = get_elem?-append xs a

new_process-is_done :
    (pl : Plugin) (pod : PodSandbox)
    → is_empty (Store.get pl.pod_resource_store pod.uid) ≡ false
    → (run_pod_sandbox pl pod).0 ≡ ok tt
    → ready (process_of (run_pod_sandbox pl pod).1 pod.uid) ≡ true
unfolding run_pod_sandbox process_of ready is_done new_configuration_process
new_process-is_done pl pod n e = elim (Bool-cases (get_network_namespace pod.namespaces == "")) [
  | inl b ↦ absurd (cc (rw b at (rw n at e)))
  | inr b ↦ rw n (
      rw b (
        rw (lookup-insert pod.uid pod.uid (length pl.heap) pl.configuration_processes) (
          rw (eq_refl pod.uid) (
            rw
              (get_elem?-append pl.heap (
                new_configuration_process (get_network_namespace pod.namespaces)
                  (Store.get pl.pod_resource_store pod.uid)))
              refl))))
]

run_pod_sandbox-history :
    (pl : Plugin) (pod : PodSandbox) → (run_pod_sandbox pl pod).1.history ≡ pl.history
unfolding run_pod_sandbox
run_pod_sandbox-history pl pod = ground arith

-- When a pod has claims in the store and the start of its sandbox succeeds, a start of a container
-- that comes next, before the goroutine of the configuration has begun, is accepted, and the start
-- of the sandbox has made no call of the system.
pub start_container-run_pod_sandbox :
    (pl : Plugin) (pod : PodSandbox)
    → is_empty (Store.get pl.pod_resource_store pod.uid) ≡ false
    → (run_pod_sandbox pl pod).0 ≡ ok tt
    → ((start_container (run_pod_sandbox pl pod).1 pod).0 ≡ ok tt)
      × ((run_pod_sandbox pl pod).1.history ≡ pl.history)
start_container-run_pod_sandbox pl pod n e = (
  (start_container_iff (run_pod_sandbox pl pod).1 pod).1 (new_process-is_done pl pod n e),
  run_pod_sandbox-history pl pod,
)

run_pod_sandbox-store :
    (pl : Plugin) (pod : PodSandbox)
    → (run_pod_sandbox pl pod).1.pod_resource_store ≡ pl.pod_resource_store
unfolding run_pod_sandbox
run_pod_sandbox-store pl pod = ground arith

start_container-store :
    (pl : Plugin) (pod : PodSandbox)
    → (start_container pl pod).1.pod_resource_store ≡ pl.pod_resource_store
unfolding start_container
start_container-store pl pod = ground arith

update_process-store :
    (pl : Plugin) (i : ℕ) (f : ConfigurationProcess → ConfigurationProcess)
    → (update_process pl i f).pod_resource_store ≡ pl.pod_resource_store
unfolding update_process
update_process-store pl i f = elim (Option-cases (get_elem? pl.heap i)) [
  | inl e ↦ rw e refl
  | inr (cp, e) ↦ rw e refl
]

remove_pod_sandbox-store :
    (pl : Plugin) (pod : PodSandbox)
    → (remove_pod_sandbox pl pod).pod_resource_store ≡ pl.pod_resource_store
unfolding remove_pod_sandbox
remove_pod_sandbox-store pl pod = elim (Option-cases (lookup pod.uid pl.configuration_processes)) [
  | inl e ↦ rw e refl
  | inr (i, e) ↦ rw e (update_process-store pl i request_stop)
]

finish_removal-store :
    (pl : Plugin) (pod : PodSandbox)
    → (finish_removal pl pod).pod_resource_store ≡ pl.pod_resource_store
unfolding finish_removal
finish_removal-store pl pod = elim (Option-cases (process_of pl pod.uid)) [
  | inl e ↦ rw e refl
  | inr (cp, e) ↦ rw e (ground arith)
]

module _ (p : Platform) (driver_name : String) (configurators : Configurators) where
  stepped-store :
      (pl : Plugin) (i : ℕ) (r : Result ConfigurationProcess × History)
      → (stepped p driver_name configurators pl i r).pod_resource_store ≡ pl.pod_resource_store
  unfolding stepped
  stepped-store pl i (ok next, t) = refl
  stepped-store pl i (err e, t) = refl
  stepped-store pl i (panic, t) = refl
  stepped-store pl i (unfinished, t) = refl

  proceed-store :
      (pl : Plugin) (i : ℕ)
      → (proceed p driver_name configurators pl i).pod_resource_store ≡ pl.pod_resource_store
  unfolding proceed
  proceed-store pl i = elim (Option-cases (get_elem? pl.heap i)) [
    | inl e ↦ rw e refl
    | inr (cp, e) ↦ rw e (stepped-store pl i (goroutine p driver_name configurators cp pl.history))
  ]

  handle-store :
      (pl : Plugin) (e : Event)
      → (handle p driver_name configurators pl e).pod_resource_store ≡ pl.pod_resource_store
  unfolding handle
  handle-store pl (runs pod) = run_pod_sandbox-store pl pod
  handle-store pl (starts pod) = start_container-store pl pod
  handle-store pl (removes pod) = remove_pod_sandbox-store pl pod
  handle-store pl (removal_ends pod) = finish_removal-store pl pod
  handle-store pl (begins i) = update_process-store pl i (begin_process p driver_name configurators)
  handle-store pl (proceeds i) = proceed-store pl i

  step-store :
      (pl : Plugin) (e : Event)
      → (step p driver_name configurators pl e).pod_resource_store ≡ pl.pod_resource_store
  unfolding step
  step-store pl e = ground (arith, handle-store pl e)

  -- No sequence of events of the plugin changes the store of claims: those of a pod whose sandbox is removed
  -- stay in it.
  pub run-pod_resource_store :
      (pl : Plugin) (es : List Event)
      → (run p driver_name configurators pl es).pod_resource_store ≡ pl.pod_resource_store
  unfolding run
  run-pod_resource_store pl [] = refl
  run-pod_resource_store pl (e ∷ es) =
      run-pod_resource_store (step p driver_name configurators pl e) es ∙ step-store pl e
