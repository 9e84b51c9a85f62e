-- ===== src/Driver/Prepares.antt =====
-- pkg/driver/driver.go: what a successful preparation of a claim has done, and that a failed one
-- stores nothing.
use device_network.Prelude.{
  String, eqb, length, Bool-cases, Option-cases, some, List, ◌∷◌, ◌≡◌, refl, ◌⊎◌, inl, inr,
}
use device_network.Prelude.Results.{Result-cases, ok}
use device_network.Kubernetes.{DeviceRequestAllocationResult, AllocatedDeviceStatus, ResourceClaim}
use device_network.Store
use device_network.Platform.{Platform, History, applied}
use device_network.Driver.{
  KubeletDevice, Driver, NodeState, head?, prepare_results, node_prepare_resource,
}

-- A preparation that succeeded.
pub record IsPrepared (p : Platform) (d : Driver) (claim : ResourceClaim) (s : NodeState)
    (devices : List KubeletDevice) (t : NodeState) : Type 0 where
  pub results : List DeviceRequestAllocationResult
  pub statuses : List AllocatedDeviceStatus
  pub between : History
  pub updated : ResourceClaim
  pub pod_uid : String
  pub one_reservation : length claim.reserved_for ≡ 1
  pub is_allocated : claim.allocation ≡ some results
  pub prepares : prepare_results p d results s.history ≡ (ok (devices, statuses), between)
  pub applies :
      p.apply_status between claim.name claim.namespace statuses d.driver_name ≡ some updated
  pub reserved : head? updated.reserved_for ≡ some pod_uid
  pub stored : t.pod_resource_store ≡ Store.add s.pod_resource_store pod_uid updated
  pub last : t.history ≡ applied claim.name claim.namespace statuses ∷ between

module _ (p : Platform) (d : Driver) where
  -- A preparation gives devices, or it leaves the store alone: on every failing path, that of a
  -- refused update of the claim's status included.
  pub node_prepare_resource-fails :
      (claim : ResourceClaim) (s : NodeState)
      → ((devices : List KubeletDevice) × ((node_prepare_resource p d claim s).0 ≡ ok devices))
        ⊎ ((node_prepare_resource p d claim s).1.pod_resource_store ≡ s.pod_resource_store)
  unfolding node_prepare_resource
  node_prepare_resource-fails claim s = elim (Bool-cases (eqb (length claim.reserved_for) 1)) [
    | inr a ↦ rw a (inr refl)
    | inl a ↦ elim (Option-cases claim.allocation) [
      | inl b ↦ rw a (rw b (inr refl))
      | inr (results, b) ↦ elim (Result-cases (prepare_results p d results s.history).0) [
        | inr (inl (m, c)) ↦ rw a (rw b (rw c (inr refl)))
        | inr (inr (inl c)) ↦ rw a (rw b (rw c (inr refl)))
        | inr (inr (inr c)) ↦ rw a (rw b (rw c (inr refl)))
        | inl ((ds, ss), c) ↦
            let u = (prepare_results p d results s.history).1 in
            elim (Option-cases (p.apply_status u claim.name claim.namespace ss d.driver_name)) [
              | inl g ↦ rw a (rw b (rw c (rw g (inr refl))))
              | inr (updated, g) ↦ elim (Option-cases (head? updated.reserved_for)) [
                | inl k ↦ rw a (rw b (rw c (rw g (rw k (inr refl)))))
                | inr (pod_uid, k) ↦ rw a (rw b (rw c (rw g (rw k (inl (ds, refl))))))
              ]
            ]
      ]
    ]
  ]
