-- ===== src/Store/History.antt =====
-- pkg/store/memory.go: what a pod's list of claims is after a history of calls: the first claim of
-- each UID since the last deletion, in order of arrival.
use device_network.Prelude.{
  String, ◌==◌, eq_iff, ◌≡◌, refl, sym, ap, subst, ◌∙◌, true, false, inl, inr, Option, none, some,
  List, [], ◌∷◌, ◌++◌, map, if◌then◌else◌, arith, Bool-cases, contains, Distinct,
}
use device_network.Prelude.Dict.{lookup, insert, lookup-insert, lookup-erase}
use device_network.Kubernetes.{ResourceClaim}
use device_network.Store.{Memory, new_memory, is_stored, is_held, or_nil, add, get, delete}

pub data Call : Type 0 where
  adds : String → ResourceClaim → Call
  deletes : String → Call

pub apply : Memory → Call → Memory
apply m (adds pod claim) = add m pod claim
apply m (deletes pod) = delete m pod

pub run : Memory → List Call → Memory
run m [] = m
run m (c ∷ cs) = run (apply m c) cs

abbrev uids : List ResourceClaim → List String
uids cs = map (λ c. c.uid) cs

-- The claims of one pod, with no map: the specification.
pub remember : ResourceClaim → List ResourceClaim → List ResourceClaim
remember claim cs = if contains claim.uid (uids cs) then cs else cs ++ claim ∷ []

pub recall : String → List ResourceClaim → List Call → List ResourceClaim
recall pod cs [] = cs
recall pod cs (adds p claim ∷ calls) = recall pod (if p == pod then remember claim cs else cs) calls
recall pod cs (deletes p ∷ calls) = recall pod (if p == pod then [] else cs) calls

is_stored-contains :
    (claim : ResourceClaim) (cs : List ResourceClaim)
    → is_stored claim cs ≡ contains claim.uid (uids cs)
unfolding is_stored contains
is_stored-contains claim [] = refl
is_stored-contains claim (c ∷ cs) =
    ground (arith, eq_iff claim.uid c.uid, eq_iff c.uid claim.uid, is_stored-contains claim cs)

is_held-contains :
    (claim : ResourceClaim) (o : Option (List ResourceClaim))
    → is_held claim o ≡ contains claim.uid (uids (or_nil o))
unfolding contains
is_held-contains claim none = refl
is_held-contains claim (some cs) = is_stored-contains claim cs

lookup-add :
    (m : Memory) (pod p : String) (claim : ResourceClaim)
    → lookup pod (add m p claim).pod_resources ≡ (
        if contains claim.uid (uids (get m p))
        then lookup pod m.pod_resources
        else lookup pod (insert p (get m p ++ claim ∷ []) m.pod_resources))
unfolding add get
lookup-add m pod p claim =
    rw (is_held-contains claim (lookup p m.pod_resources))
      (elim (Bool-cases (contains claim.uid (uids (or_nil (lookup p m.pod_resources))))) [
        | inl e ↦ rw e
        | inr e ↦ rw e
      ])

get-add :
    (m : Memory) (pod p : String) (claim : ResourceClaim)
    → get (add m p claim) pod ≡ (if p == pod then remember claim (get m pod) else get m pod)
unfolding get remember
get-add m pod p claim =
    rw (lookup-add m pod p claim, lookup-insert p pod (get m p ++ claim ∷ []) m.pod_resources)
      (ground (arith, eq_iff p pod))

get-delete :
    (m : Memory) (pod p : String) → get (delete m p) pod ≡ (if p == pod then [] else get m pod)
unfolding get delete
get-delete m pod p = ground (arith, lookup-erase p pod m.pod_resources)

get-apply :
    (m : Memory) (pod : String) (c : Call) → get (apply m c) pod ≡ recall pod (get m pod) (c ∷ [])
unfolding apply recall
get-apply m pod (adds p claim) = get-add m pod p claim
get-apply m pod (deletes p) = get-delete m pod p

recall-cons :
    (pod : String) (cs : List ResourceClaim) (c : Call) (calls : List Call)
    → recall pod cs (c ∷ calls) ≡ recall pod (recall pod cs (c ∷ [])) calls
unfolding recall
recall-cons pod cs (adds p claim) calls = refl
recall-cons pod cs (deletes p) calls = refl

get-run_from :
    (m : Memory) (pod : String) (calls : List Call)
    → get (run m calls) pod ≡ recall pod (get m pod) calls
unfolding run
get-run_from m pod [] = unfold recall in refl
get-run_from m pod (c ∷ calls) =
    get-run_from (apply m c) pod calls
    ∙ (ap (λ cs. recall pod cs calls) (get-apply m pod c)
        ∙ sym (recall-cons pod (get m pod) c calls))

-- After any history of calls of Add and Delete on a new store, Get of a pod returns what the
-- history says of that pod alone: calls for other pods change nothing, Delete forgets all its
-- claims, and Add appends a claim unless one of the same UID is held already.
pub get-run :
    (pod : String) (calls : List Call) → get (run new_memory calls) pod ≡ recall pod [] calls
get-run pod calls = get-run_from new_memory pod calls ∙ ap (λ cs. recall pod cs calls) start
  where
    start : get new_memory pod ≡ []
    start = unfold get new_memory lookup in refl

contains-uids-concat :
    (k : String) (claim : ResourceClaim) (cs : List ResourceClaim)
    → contains k (uids (cs ++ claim ∷ [])) ≡ (if contains k (uids cs) then true else claim.uid == k)
unfolding contains
contains-uids-concat k claim [] = ground arith
contains-uids-concat k claim (c ∷ cs) = ground (arith, contains-uids-concat k claim cs)

remember-Distinct :
    (claim : ResourceClaim) (cs : List ResourceClaim)
    → Distinct (uids cs)
    → Distinct (uids (remember claim cs))
unfolding remember
remember-Distinct claim cs d = elim (Bool-cases (contains claim.uid (uids cs))) [
  | inl old ↦ rw old d
  | inr new ↦ rw new (concat cs d new)
]
  where
    concat :
        (xs : List ResourceClaim)
        → Distinct (uids xs)
        → contains claim.uid (uids xs) ≡ false
        → Distinct (uids (xs ++ claim ∷ []))
    concat [] d new = (unfold contains in refl, tt)
    concat (x ∷ xs) (fresh, d) new = (
      unfold contains in
          ground (
            arith,
            contains-uids-concat x.uid claim xs,
            eq_iff x.uid claim.uid,
            eq_iff claim.uid x.uid,
          ),
      concat xs d (unfold contains in ground (arith, eq_iff x.uid claim.uid)),
    )

recall-Distinct :
    (pod : String) (cs : List ResourceClaim) (calls : List Call)
    → Distinct (uids cs)
    → Distinct (uids (recall pod cs calls))
unfolding recall
recall-Distinct pod cs [] d = d
recall-Distinct pod cs (adds p claim ∷ calls) d =
    recall-Distinct pod (if p == pod then remember claim cs else cs) calls
      (ground (arith, remember-Distinct claim cs))
recall-Distinct pod cs (deletes p ∷ calls) d =
    recall-Distinct pod (if p == pod then [] else cs) calls (ground arith)

-- After any history of calls on a new store, no claim UID stands twice among a pod's claims.
get-Distinct : (pod : String) (calls : List Call) → Distinct (uids (get (run new_memory calls) pod))
get-Distinct pod calls =
    subst (λ cs. Distinct (uids cs)) (sym (get-run pod calls)) (recall-Distinct pod [] calls tt)
