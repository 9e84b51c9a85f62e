-- ===== src/Nri/Settled.antt =====
-- pkg/nri/plugin.go: what the handlers of the plugin keep of every process.
use device_network.Prelude.{
  ℕ, zero, suc, String, ◌==◌, Bool, true, false, Bool-cases, Option-cases, some, List, [], ◌∷◌, ◌≡◌,
  refl, subst, ◌⊎◌, ◌↔◌, inl, inr, is_empty, All, All-append, if◌then◌else◌, arith,
}
use device_network.Prelude.Results.{ok}
use device_network.Prelude.Dict.{lookup}
use device_network.Kubernetes.{ResourceClaim}
use device_network.Store
use device_network.Store.{Memory}
use device_network.Nri.Process.{
  ConfigurationProcess, new_configuration_process, is_done, request_stop, may_proceed, Done, unset,
  opened, closed, end_run,
}
use device_network.Nri.{
  PodSandbox, Plugin, new_plugin, get_elem?, set, get_network_namespace, run_pod_sandbox,
  process_of, ready, start_container, update_process, remove_pod_sandbox, finish_removal,
}

-- A process whose channel is closed has no claim left.
unfoldable pub IsSettled : ConfigurationProcess → Type 0
IsSettled cp = cp.done ≡ closed → cp.claims ≡ []

module _ {κ} {A : Type 0} (P : A → Type κ) where
  pub All-set : (xs : List A) (i : ℕ) (a : A) → P a → All P xs → All P (set xs i a)
  All-set [] i a p h = tt
  All-set (x ∷ xs) zero a p h = (p, h.1)
  All-set (x ∷ xs) (suc i) a p h = (h.0, All-set xs i a p h.1)

  All-get_elem? : (xs : List A) (i : ℕ) {a : A} → All P xs → get_elem? xs i ≡ some a → P a
  All-get_elem? [] i h e = absurd cc
  All-get_elem? (x ∷ xs) zero {a} h e = (let q : x ≡ a = cc in subst P q h.0)
  All-get_elem? (x ∷ xs) (suc i) h e = All-get_elem? xs i h.1 e

pub Done-cases : (d : Done) → (d ≡ unset) ⊎ ((d ≡ opened) ⊎ (d ≡ closed))
Done-cases unset = inl refl
Done-cases opened = inr (inl refl)
Done-cases closed = inr (inr refl)

List-cases : {A : Type 0} (xs : List A) → (xs ≡ []) ⊎ ((a : A) × (rest : List A) × (xs ≡ a ∷ rest))
List-cases [] = inl refl
List-cases (x ∷ xs) = inr (x, xs, refl)

pub opened-closed :
    (cp next : ConfigurationProcess) {rest : List ResourceClaim}
    → cp.done ≡ opened
    → ok (record cp { claims = rest }) ≡ ok next
    → next.done ≡ closed
    → ⊥
opened-closed cp next o e c = cc

pub end_run-IsSettled : (cp : ConfigurationProcess) → cp.claims ≡ [] → IsSettled (end_run cp)
unfolding end_run request_stop IsSettled
end_run-IsSettled cp c d = elim (Bool-cases cp.cancel) [ inl b ↦ rw b c | inr b ↦ rw b c ]

unfoldable pub Are : Plugin → Type 0
Are pl = All IsSettled pl.heap

request_stop-IsSettled : (cp : ConfigurationProcess) → IsSettled cp → IsSettled (request_stop cp)
unfolding IsSettled request_stop
request_stop-IsSettled cp h = ground arith

pub update_process-Are :
    (pl : Plugin) (i : ℕ) (f : ConfigurationProcess → ConfigurationProcess)
    → ((cp : ConfigurationProcess) → IsSettled cp → IsSettled (f cp))
    → Are pl
    → Are (update_process pl i f)
unfolding Are update_process
update_process-Are pl i f k h = elim (Option-cases (get_elem? pl.heap i)) [
  | inl e ↦ rw e h
  | inr (cp, e) ↦
      rw e (All-set IsSettled pl.heap i (f cp) (k cp (All-get_elem? IsSettled pl.heap i h e)) h)
]

pub heap-IsSettled :
    (pl : Plugin) (i : ℕ) {cp : ConfigurationProcess}
    → Are pl
    → get_elem? pl.heap i ≡ some cp
    → IsSettled cp
unfolding Are
heap-IsSettled pl i h e = All-get_elem? IsSettled pl.heap i h e

pub run_pod_sandbox-Are : (pl : Plugin) (pod : PodSandbox) → Are pl → Are (run_pod_sandbox pl pod).1
unfolding Are run_pod_sandbox new_configuration_process IsSettled
run_pod_sandbox-Are pl pod h =
    elim (Bool-cases (is_empty (Store.get pl.pod_resource_store pod.uid))) [
      | inl a ↦ rw a h
      | inr a ↦ elim (Bool-cases (get_network_namespace pod.namespaces == "")) [
        | inl b ↦ rw a (rw b h)
        | inr b ↦ rw a (rw b (All-append IsSettled pl.heap _ h ((λ e. absurd cc), tt)))
      ]
    ]

pub start_container-Are : (pl : Plugin) (pod : PodSandbox) → Are pl → Are (start_container pl pod).1
unfolding Are start_container
start_container-Are pl pod h = elim (Bool-cases (ready (process_of pl pod.uid))) [
  | inl a ↦ rw a h
  | inr a ↦ rw a h
]

pub finish_removal-Are : (pl : Plugin) (pod : PodSandbox) → Are pl → Are (finish_removal pl pod)
unfolding Are finish_removal
finish_removal-Are pl pod h = elim (Option-cases (process_of pl pod.uid)) [
  | inl a ↦ rw a h
  | inr (cp, a) ↦ elim (Bool-cases (may_proceed cp)) [
    | inl b ↦ rw a (rw b h)
    | inr b ↦ rw a (rw b h)
  ]
]

pub remove_pod_sandbox-Are :
    (pl : Plugin) (pod : PodSandbox) → Are pl → Are (remove_pod_sandbox pl pod)
unfolding remove_pod_sandbox
remove_pod_sandbox-Are pl pod h = elim (Option-cases (lookup pod.uid pl.configuration_processes)) [
  | inl a ↦ rw a h
  | inr (i, a) ↦ rw a (update_process-Are pl i request_stop request_stop-IsSettled h)
]

pub new_plugin-Are : (store : Memory) → Are (new_plugin store)
unfolding Are new_plugin
new_plugin-Are store = tt

pub if-Are : (b : Bool) (x y : Plugin) → Are x → Are y → Are (if b then x else y)
if-Are true x y h k = h
if-Are false x y h k = k

-- A start is accepted when the pod has no process, or one whose channel is nil or closed.
pub start_container_iff :
    (pl : Plugin) (pod : PodSandbox)
    → ((start_container pl pod).0 ≡ ok tt) ↔ (ready (process_of pl pod.uid) ≡ true)
unfolding start_container
start_container_iff pl pod = elim (Bool-cases (ready (process_of pl pod.uid))) [
  | inl a ↦ (λ e. a, λ e. rw a refl)
  | inr a ↦ (λ e. absurd (cc (rw a at e)), λ e. absurd cc)
]

pub process_of-IsSettled :
    (pl : Plugin) (uid : String) {cp : ConfigurationProcess}
    → Are pl
    → process_of pl uid ≡ some cp
    → IsSettled cp
unfolding process_of
process_of-IsSettled pl uid h e = elim (Option-cases (lookup uid pl.configuration_processes)) [
  | inl a ↦ absurd (cc (rw a at e))
  | inr (i, a) ↦ heap-IsSettled pl i h (rw a at e)
]

pub is_done-IsSettled :
    (cp : ConfigurationProcess)
    → IsSettled cp
    → is_done cp ≡ true
    → (cp.done ≡ unset) ⊎ (cp.claims ≡ [])
unfolding IsSettled is_done
is_done-IsSettled cp s e = elim (Done-cases cp.done) [
  | inl a ↦ inl a
  | inr (inl a) ↦ absurd (cc (rw a at e))
  | inr (inr a) ↦ inr (s a)
]
