-- ===== src/Controller/Reconciled.antt =====
-- pkg/controllers/devicenetwork/reconciler.go: what a Reconcile that succeeds leaves as the last publication.
use device_network.Prelude.{◌≡◌, inl, inr, some, List, ◌∷◌}
use device_network.Prelude.Results.{Result, ok, Result-cases}
use device_network.Kubernetes.{Node}
use device_network.Api.{DeviceNetwork}
use device_network.Reconciler.{DriverResources, reconcile, get_resources}
use device_network.Controller.{Inputs}

-- The last publication is of what getResources gives for the inputs.
pub record IsLatest (i : Inputs) (read : Result Node) (published : List DriverResources)
    : Type 1 where
  pub node : Node
  pub networks : List DeviceNetwork
  pub resources : DriverResources
  pub earlier : List DriverResources
  pub of_node : read ≡ ok node
  pub of_networks : i.device_networks ≡ ok networks
  pub computed : get_resources i.reconciler node networks ≡ ok resources
  pub last : published ≡ resources ∷ earlier

-- A Reconcile that succeeds leaves the latest resources as the last publication.
pub reconcile-IsLatest :
    (i : Inputs) (read : Result Node) (publish : DriverResources → Result (Unit {0}))
    (done : List DriverResources) (u : Unit {0})
    → (reconcile i.reconciler read i.device_networks (some publish) done).0 ≡ ok u
    → IsLatest i read (reconcile i.reconciler read i.device_networks (some publish) done).1
unfolding reconcile
reconcile-IsLatest i read publish done u e = elim (Result-cases read) [
  | inr (inl (m, a)) ↦ absurd (cc (rw a at e))
  | inr (inr (inl a)) ↦ absurd (cc (rw a at e))
  | inr (inr (inr a)) ↦ absurd (cc (rw a at e))
  | inl (node, a) ↦ elim (Result-cases i.device_networks) [
    | inr (inl (m, b)) ↦ absurd (cc (rw b at (rw a at e)))
    | inr (inr (inl b)) ↦ absurd (cc (rw b at (rw a at e)))
    | inr (inr (inr b)) ↦ absurd (cc (rw b at (rw a at e)))
    | inl (networks, b) ↦ elim (Result-cases (get_resources i.reconciler node networks)) [
      | inr (inl (m, c)) ↦ absurd (cc (rw c at (rw b at (rw a at e))))
      | inr (inr (inl c)) ↦ absurd (cc (rw c at (rw b at (rw a at e))))
      | inr (inr (inr c)) ↦ absurd (cc (rw c at (rw b at (rw a at e))))
      | inl (resources, c) ↦ record {
        node = node;
        networks = networks;
        resources = resources;
        earlier = done;
        of_node = a;
        of_networks = b;
        computed = c;
        last = simp (a, b, c);
      }
    ]
  ]
]
