-- ===== src/Nri/Within.antt =====
-- pkg/nri/process.go: how many claims a process has left, under the handlers and the steps of
-- goroutines.
use device_network.Prelude.{
  ℕ, zero, suc, ◌<◌, String, ◌==◌, Bool-cases, Option-cases, some, List, [], ◌∷◌, ◌++◌, ◌≡◌, refl,
  subst, ◌⊎◌, inl, inr, length, is_empty, arith,
}
use device_network.Prelude.Results.{Result-cases, ok, ok-injective}
use device_network.Prelude.Dict.{lookup}
use device_network.Kubernetes.{ResourceClaim}
use device_network.Store
use device_network.Platform.{Platform, History}
use device_network.Configurators.{Configurators}
use device_network.Nri.Process.{
  ConfigurationProcess, Done, unset, opened, closed, request_stop, end_run, run_claim,
  configure_resource_claim,
}
use device_network.Nri.{
  PodSandbox, Plugin, get_elem?, set, get_network_namespace, run_pod_sandbox, process_of,
  start_container, update_process, remove_pod_sandbox, finish_removal, goroutine, goroutine_at,
  begun, begin_process,
}

-- The process is done, or has begun and has fewer claims left than so many.
unfoldable pub IsWithin : ℕ → ConfigurationProcess → Type 0
IsWithin n cp = (cp.done ≡ closed) ⊎ ((cp.done ≡ opened) × (length cp.claims < n))

unfoldable pub WithinAt : List ConfigurationProcess → ℕ → ℕ → Type 0
WithinAt xs i n = (cp : ConfigurationProcess) × (get_elem? xs i ≡ some cp) × IsWithin n cp

WithinAt-append :
    (xs ys : List ConfigurationProcess) (i n : ℕ) → WithinAt xs i n → WithinAt (xs ++ ys) i n
unfolding WithinAt
WithinAt-append [] ys i n (cp, e, h) = absurd (cc e)
WithinAt-append (x ∷ xs) ys zero n (cp, e, h) = (cp, e, h)
WithinAt-append (x ∷ xs) ys (suc i) n (cp, e, h) = WithinAt-append xs ys i n (cp, e, h)

pub WithinAt-set :
    (xs : List ConfigurationProcess) (i j n : ℕ) (c a : ConfigurationProcess)
    → get_elem? xs j ≡ some c
    → (IsWithin n c → IsWithin n a)
    → WithinAt xs i n
    → WithinAt (set xs j a) i n
unfolding WithinAt
WithinAt-set [] i j n c a e k (cp, f, h) = absurd (cc f)
WithinAt-set (x ∷ xs) zero zero n c a e k (cp, f, h) =
    let same : cp ≡ c = cc in (a, refl, k (subst (IsWithin n) same h))
WithinAt-set (x ∷ xs) zero (suc j) n c a e k (cp, f, h) = (cp, f, h)
WithinAt-set (x ∷ xs) (suc i) zero n c a e k (cp, f, h) = (cp, f, h)
WithinAt-set (x ∷ xs) (suc i) (suc j) n c a e k h = WithinAt-set xs i j n c a e k h

pub WithinAt-set_same :
    (xs : List ConfigurationProcess) (i n m : ℕ) (c a : ConfigurationProcess)
    → get_elem? xs i ≡ some c
    → (IsWithin n c → IsWithin m a)
    → WithinAt xs i n
    → WithinAt (set xs i a) i m
unfolding WithinAt
WithinAt-set_same [] i n m c a e k (cp, f, h) = absurd (cc f)
WithinAt-set_same (x ∷ xs) zero n m c a e k (cp, f, h) =
    let same : cp ≡ c = cc in (a, refl, k (subst (IsWithin n) same h))
WithinAt-set_same (x ∷ xs) (suc i) n m c a e k h = WithinAt-set_same xs i n m c a e k h

-- What the handlers leave of it.
request_stop-IsWithin :
    (n : ℕ) (cp : ConfigurationProcess) → IsWithin n cp → IsWithin n (request_stop cp)
unfolding request_stop IsWithin
request_stop-IsWithin n cp h = elim (Bool-cases cp.cancel) [ inl b ↦ rw b h | inr b ↦ rw b h ]

pub update_process-WithinAt :
    (pl : Plugin) (i j n : ℕ) (f : ConfigurationProcess → ConfigurationProcess)
    → ((cp : ConfigurationProcess) → IsWithin n cp → IsWithin n (f cp))
    → WithinAt pl.heap i n
    → WithinAt (update_process pl j f).heap i n
unfolding update_process
update_process-WithinAt pl i j n f k h = elim (Option-cases (get_elem? pl.heap j)) [
  | inl e ↦ rw e h
  | inr (c, e) ↦ rw e (WithinAt-set pl.heap i j n c (f c) e (k c) h)
]

pub run_pod_sandbox-WithinAt :
    (pl : Plugin) (pod : PodSandbox) (i n : ℕ)
    → WithinAt pl.heap i n
    → WithinAt (run_pod_sandbox pl pod).1.heap i n
unfolding run_pod_sandbox
run_pod_sandbox-WithinAt pl pod i n h =
    elim (Bool-cases (is_empty (Store.get pl.pod_resource_store pod.uid))) [
      | inl a ↦ rw a h
      | inr a ↦ elim (Bool-cases (get_network_namespace pod.namespaces == "")) [
        | inl b ↦ rw a (rw b h)
        | inr b ↦ rw a (rw b (WithinAt-append pl.heap _ i n h))
      ]
    ]

pub start_container-heap :
    (pl : Plugin) (pod : PodSandbox) → (start_container pl pod).1.heap ≡ pl.heap
unfolding start_container
start_container-heap pl pod = ground arith

pub finish_removal-heap : (pl : Plugin) (pod : PodSandbox) → (finish_removal pl pod).heap ≡ pl.heap
unfolding finish_removal
finish_removal-heap pl pod = elim (Option-cases (process_of pl pod.uid)) [
  | inl e ↦ rw e refl
  | inr (cp, e) ↦ rw e (ground arith)
]

pub remove_pod_sandbox-WithinAt :
    (pl : Plugin) (pod : PodSandbox) (i n : ℕ)
    → WithinAt pl.heap i n
    → WithinAt (remove_pod_sandbox pl pod).heap i n
unfolding remove_pod_sandbox
remove_pod_sandbox-WithinAt pl pod i n h =
    elim (Option-cases (lookup pod.uid pl.configuration_processes)) [
      | inl e ↦ rw e h
      | inr (j, e) ↦
          rw e (update_process-WithinAt pl i j n request_stop (request_stop-IsWithin n) h)
    ]

end_run-closed : (cp : ConfigurationProcess) → (end_run cp).done ≡ closed
unfolding end_run request_stop
end_run-closed cp = elim (Bool-cases cp.cancel) [ inl b ↦ rw b refl | inr b ↦ rw b refl ]

-- The process goes on, with a claim less.
goes_on :
    (n : ℕ) (cp next : ConfigurationProcess) (claim : ResourceClaim) (rest : List ResourceClaim)
    → cp.done ≡ opened
    → length (claim ∷ rest) < suc n
    → record cp { claims = rest } ≡ next
    → IsWithin n next
unfolding IsWithin
goes_on n cp next claim rest o fewer same = subst (IsWithin n) same (inr (o, (omega arith)))

module _ (p : Platform) (driver_name : String) (configurators : Configurators) where
  begun-IsWithin :
      (n : ℕ) (d : Done) (cp : ConfigurationProcess)
      → cp.done ≡ d
      → IsWithin n cp
      → IsWithin n (begun p driver_name configurators d cp)
  unfolding IsWithin
  begun-IsWithin n unset cp e h = absurd (elim h [ inl b ↦ (cc) | inr (b, l) ↦ (cc) ])
  begun-IsWithin n opened cp e h = h
  begun-IsWithin n closed cp e h = h

  pub begin_process-IsWithin :
      (n : ℕ) (cp : ConfigurationProcess)
      → IsWithin n cp
      → IsWithin n (begin_process p driver_name configurators cp)
  unfolding begin_process
  begin_process-IsWithin n cp h = begun-IsWithin n cp.done cp refl h

  -- A step of the goroutine of a process.
  goroutine_at-IsWithin :
      (n : ℕ) (d : Done) (claims : List ResourceClaim) (cp next : ConfigurationProcess)
      (h : History)
      → cp.done ≡ d
      → cp.claims ≡ claims
      → (goroutine_at p driver_name configurators d claims cp h).0 ≡ ok next
      → IsWithin (suc n) cp
      → IsWithin n next
  unfolding IsWithin run_claim
  goroutine_at-IsWithin n unset claims cp next h d c e w =
      absurd (elim w [ inl b ↦ (cc) | inr (b, l) ↦ (cc) ])
  goroutine_at-IsWithin n closed claims cp next h d c e w =
      let same : cp ≡ next = ok-injective e in inl (subst (λ x. x.done ≡ closed) same d)
  goroutine_at-IsWithin n opened [] cp next h d c e w =
      let same : end_run cp ≡ next = ok-injective e in
      inl (subst (λ x. x.done ≡ closed) same (end_run-closed cp))
  goroutine_at-IsWithin n opened (claim ∷ rest) cp next h d c e w = elim w [
    | inl b ↦ absurd (cc)
    | inr (b, l) ↦
        let fewer : length (claim ∷ rest) < suc n = subst (λ x. length x < suc n) c l in
        elim (Result-cases
          (configure_resource_claim p driver_name configurators cp.pod_network_namespace claim
            h).0) [
              | inl (a, f) ↦ goes_on n cp next claim rest b fewer (ok-injective (rw f at e))
              | inr (inl (m, f)) ↦ goes_on n cp next claim rest b fewer (ok-injective (rw f at e))
              | inr (inr (inl f)) ↦ absurd (cc (rw f at e))
              | inr (inr (inr f)) ↦ absurd (cc (rw f at e))
            ]
  ]

  pub IsWithin-suc : (n : ℕ) (cp : ConfigurationProcess) → IsWithin n cp → IsWithin (suc n) cp
  unfolding IsWithin
  IsWithin-suc n cp (inl c) = inl c
  IsWithin-suc n cp (inr (o, l)) = inr (o, (omega arith))

  pub goroutine-IsWithin :
      (n : ℕ) (cp next : ConfigurationProcess) (h : History)
      → (goroutine p driver_name configurators cp h).0 ≡ ok next
      → IsWithin (suc n) cp
      → IsWithin n next
  unfolding goroutine
  goroutine-IsWithin n cp next h e w =
      goroutine_at-IsWithin n cp.done cp.claims cp next h refl refl e w
