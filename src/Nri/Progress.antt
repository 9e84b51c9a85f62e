-- ===== src/Nri/Progress.antt =====
-- pkg/nri/plugin.go: what the start of a container is told about the configuration of its pod,
-- over histories of events.
use device_network.Prelude.{
  ℕ, String, Option-cases, some, List, [], ◌∷◌, ◌≡◌, refl, subst, ◌⊎◌, inl, inr,
}
use device_network.Prelude.Results.{Result-cases, Result, ok, err, panic, unfinished, ok-injective}
use device_network.Kubernetes.{ResourceClaim}
use device_network.Store.{Memory}
use device_network.Platform.{Platform, History}
use device_network.Configurators.{Configurators}
use device_network.Nri.Process.{
  ConfigurationProcess, Done, unset, opened, closed, begin_run, run_claim, configure_resource_claim,
}
use device_network.Nri.{
  PodSandbox, Plugin, new_plugin, get_elem?, process_of, ready, start_container, Event, runs,
  starts, removes, removal_ends, begins, proceeds, goroutine, goroutine_at, begin_process, stepped,
  proceed, handle, step, run,
}
use device_network.Nri.Settled.{
  IsSettled, All-set, Done-cases, opened-closed, end_run-IsSettled, Are, update_process-Are,
  heap-IsSettled, run_pod_sandbox-Are, start_container-Are, finish_removal-Are,
  remove_pod_sandbox-Are, new_plugin-Are, if-Are, start_container_iff, process_of-IsSettled,
  is_done-IsSettled,
}

module _ (p : Platform) (driver_name : String) (configurators : Configurators) where
  stepped-Are :
      (pl : Plugin) (i : ℕ) (r : Result ConfigurationProcess × History)
      → ((next : ConfigurationProcess) → r.0 ≡ ok next → IsSettled next)
      → Are pl
      → Are (stepped p driver_name configurators pl i r)
  unfolding Are stepped
  stepped-Are pl i (ok next, t) k h = All-set IsSettled pl.heap i next (k next refl) h
  stepped-Are pl i (err e, t) k h = h
  stepped-Are pl i (panic, t) k h = h
  stepped-Are pl i (unfinished, t) k h = h

  run_claim-IsSettled :
      (cp next : ConfigurationProcess) (claim : ResourceClaim) (rest : List ResourceClaim)
      (h : History)
      → cp.done ≡ opened
      → (run_claim p driver_name configurators cp claim rest h).0 ≡ ok next
      → IsSettled next
  unfolding run_claim IsSettled
  run_claim-IsSettled cp next claim rest h o e c =
      elim (Result-cases
        (configure_resource_claim p driver_name configurators cp.pod_network_namespace claim h).0) [
          | inl (a, f) ↦ absurd (opened-closed cp next o (rw f at e) c)
          | inr (inl (m, f)) ↦ absurd (opened-closed cp next o (rw f at e) c)
          | inr (inr (inl f)) ↦ absurd (cc (rw f at e))
          | inr (inr (inr f)) ↦ absurd (cc (rw f at e))
        ]

  goroutine_at-IsSettled :
      (d : Done) (claims : List ResourceClaim) (cp next : ConfigurationProcess) (h : History)
      → cp.done ≡ d
      → cp.claims ≡ claims
      → IsSettled cp
      → (goroutine_at p driver_name configurators d claims cp h).0 ≡ ok next
      → IsSettled next
  goroutine_at-IsSettled unset claims cp next h d c s e = subst IsSettled (ok-injective e) s
  goroutine_at-IsSettled closed claims cp next h d c s e = subst IsSettled (ok-injective e) s
  goroutine_at-IsSettled opened [] cp next h d c s e =
      subst IsSettled (ok-injective e) (end_run-IsSettled cp c)
  goroutine_at-IsSettled opened (claim ∷ rest) cp next h d c s e =
      run_claim-IsSettled cp next claim rest h d e

  -- What a step of a goroutine leaves is settled.
  goroutine-IsSettled :
      (cp next : ConfigurationProcess) (h : History)
      → IsSettled cp
      → (goroutine p driver_name configurators cp h).0 ≡ ok next
      → IsSettled next
  unfolding goroutine
  goroutine-IsSettled cp next h s e =
      goroutine_at-IsSettled cp.done cp.claims cp next h refl refl s e

  begin_process-IsSettled :
      (cp : ConfigurationProcess)
      → IsSettled cp
      → IsSettled (begin_process p driver_name configurators cp)
  unfolding begin_process begin_run IsSettled
  begin_process-IsSettled cp s = elim (Done-cases cp.done) [
    | inl a ↦ rw a (λ e. absurd cc)
    | inr (inl a) ↦ rw a (λ e. absurd cc)
    | inr (inr a) ↦ rw a (λ e. s a)
  ]

  proceed-Are : (pl : Plugin) (i : ℕ) → Are pl → Are (proceed p driver_name configurators pl i)
  unfolding proceed
  proceed-Are pl i h = elim (Option-cases (get_elem? pl.heap i)) [
    | inl e ↦ rw e h
    | inr (cp, e) ↦ rw e (
        stepped-Are pl i (goroutine p driver_name configurators cp pl.history)
          (λ next f. goroutine-IsSettled cp next pl.history (heap-IsSettled pl i h e) f) h)
  ]

  handle-Are : (pl : Plugin) (e : Event) → Are pl → Are (handle p driver_name configurators pl e)
  unfolding handle
  handle-Are pl (runs pod) h = run_pod_sandbox-Are pl pod h
  handle-Are pl (starts pod) h = start_container-Are pl pod h
  handle-Are pl (removes pod) h = remove_pod_sandbox-Are pl pod h
  handle-Are pl (removal_ends pod) h = finish_removal-Are pl pod h
  handle-Are pl (begins i) h =
      update_process-Are pl i (begin_process p driver_name configurators) begin_process-IsSettled h
  handle-Are pl (proceeds i) h = proceed-Are pl i h

  run-Are : (pl : Plugin) (es : List Event) → Are pl → Are (run p driver_name configurators pl es)
  unfolding run step
  run-Are pl [] h = h
  run-Are pl (e ∷ es) h =
      run-Are (step p driver_name configurators pl e) es
        (if-Are pl.crashed pl (handle p driver_name configurators pl e) h (handle-Are pl e h))

  -- After any events on a new plugin, a start of a container that is accepted means, for the process that the
  -- map has for the pod, that its goroutine has not begun or that no claim is left to configure.
  pub start_container-run :
      (store : Memory) (es : List Event) (pod : PodSandbox) (cp : ConfigurationProcess)
      → let pl = run p driver_name configurators (new_plugin store) es in
        (start_container pl pod).0 ≡ ok tt
        → process_of pl pod.uid ≡ some cp
        → (cp.done ≡ unset) ⊎ (cp.claims ≡ [])
  unfolding ready
  start_container-run store es pod cp e f =
      is_done-IsSettled cp
        (process_of-IsSettled _ pod.uid (run-Are (new_plugin store) es (new_plugin-Are store)) f)
        (rw f at ((start_container_iff _ pod).0 e))
