-- ===== src/Driver/Identity.antt =====
-- pkg/driver/driver.go: which devices a successful preparation gives to the kubelet.
use device_network.Prelude.{
  suc, String, ◌==◌, length, Bool-cases, Option, none, some, List, [], ◌∷◌, ◌≡◌, refl, sym, ap, ◌∙◌,
  inl, inr, map, if◌then◌else◌,
}
use device_network.Prelude.Results.{Result-cases, ok, err}
use device_network.Kubernetes.{DeviceRequestAllocationResult, AllocatedDeviceStatus}
use device_network.Resolver
use device_network.Platform.{Platform, History}
use device_network.Driver.Allocates.{allocate_device-IsAllocated}
use device_network.Driver.{
  KubeletDevice, Driver, kubelet_device, allocate_device, prepare_results, apply_status_of,
  with_status,
}

-- The results of the allocation that are for a driver.
pub own : String → List DeviceRequestAllocationResult → List DeviceRequestAllocationResult
own driver_name [] = []
own driver_name (r ∷ rs) =
    if r.driver == driver_name then r ∷ own driver_name rs else own driver_name rs

-- What names a device: its requests, pool, name and share.
pub record Identity : Type 0 where
  pub requests : List String
  pub pool : String
  pub device : String
  pub share_id : Option String

abbrev pub identity_of : DeviceRequestAllocationResult → Identity
identity_of r = record {
  requests = r.request ∷ [];
  pool = r.pool;
  device = r.device;
  share_id = r.share_id;
}

abbrev pub identity : KubeletDevice → Identity
identity k = record {
  requests = k.requests;
  pool = k.pool_name;
  device = k.device_name;
  share_id = k.share_id;
}

collected :
    (k : KubeletDevice) (ds1 : List KubeletDevice) (status : AllocatedDeviceStatus)
    (ss1 : List AllocatedDeviceStatus) (r : DeviceRequestAllocationResult)
    (rs : List DeviceRequestAllocationResult) {ds : List KubeletDevice}
    {ss : List AllocatedDeviceStatus}
    → identity k ≡ identity_of r
    → map identity ds1 ≡ map identity_of rs
    → length ss1 ≡ length ds1
    → ds ≡ k ∷ ds1
    → ss ≡ status ∷ ss1
    → (map identity ds ≡ map identity_of (r ∷ rs)) × (length ss ≡ length ds)
collected k ds1 status ss1 r rs ei ids count d s =
    (ap (map identity) d ∙ cc (ei, ids), ap length s ∙ ap suc count ∙ sym (ap length d))

module _ (p : Platform) (d : Driver) where
  -- A device that is allocated carries the identity of its result, and comes with a status.
  allocate_device-identity :
      (device : Resolver.Device) (result : DeviceRequestAllocationResult) (h t : History)
      {x : Option KubeletDevice} {y : Option AllocatedDeviceStatus}
      → device.device_request_allocation_result ≡ some result
      → allocate_device p d (some device) h ≡ (ok (x, y), t)
      → (k : KubeletDevice) × (status : AllocatedDeviceStatus) × (x ≡ some k)
        × (identity k ≡ identity_of result)
        × (y ≡ some status)
  unfolding kubelet_device
  allocate_device-identity device result h t r e =
      let a = allocate_device-IsAllocated p d device h t e in
      let same : a.result ≡ result = cc (r, a.of_result) in
      (
        kubelet_device a.result a.exposed.attributes a.status,
        apply_status_of p d a.status,
        a.for_kubelet,
        ap identity_of same,
        a.for_status,
      )

  allocate_device-nil :
      (h : History) → (allocate_device p d none h).0 ≡ err "resolved device is nil"
  unfolding allocate_device
  allocate_device-nil h = refl

  -- The resolver gives a device for the result that it was asked for.
  unfoldable pub AnswersFor : Type 0
  AnswersFor =
      (result : DeviceRequestAllocationResult) (device : Resolver.Device)
      → d.get_device (some result) ≡ ok (some device)
      → device.device_request_allocation_result ≡ some result

  -- When the resolver's answers are for the results asked for, the devices that a successful
  -- preparation gives to the kubelet are those of the driver's own results, in their order, each
  -- with its result's request, pool, name and share; there is one status for each.
  pub prepare_results-identity :
      AnswersFor
      → (results : List DeviceRequestAllocationResult) (h t : History) {ds : List KubeletDevice}
        {ss : List AllocatedDeviceStatus}
      → prepare_results p d results h ≡ (ok (ds, ss), t)
      → (map identity ds ≡ map identity_of (own d.driver_name results)) × (length ss ≡ length ds)
  unfolding prepare_results own AnswersFor with_status
  prepare_results-identity answers [] h t {ds} {ss} e = (cc e, cc e)
  prepare_results-identity answers (r ∷ rs) h t {ds} {ss} e =
      elim (Bool-cases (r.driver == d.driver_name)) [
        | inr a ↦ rw a (prepare_results-identity answers rs h t (rw a at e))
        | inl a ↦ elim (Result-cases (d.get_device (some r))) [
          | inr (inl (o, g)) ↦ absurd (cc (rw g at (rw a at e)))
          | inr (inr (inl g)) ↦ absurd (cc (rw g at (rw a at e)))
          | inr (inr (inr g)) ↦ absurd (cc (rw g at (rw a at e)))
          | inl (none, g) ↦ absurd (cc (rw (allocate_device-nil h) at (rw g at (rw a at e))))
          | inl (some device, g) ↦ elim (Result-cases (allocate_device p d (some device) h).0) [
            | inr (inl (o, b)) ↦ absurd (cc (rw b at (rw g at (rw a at e))))
            | inr (inr (inl b)) ↦ absurd (cc (rw b at (rw g at (rw a at e))))
            | inr (inr (inr b)) ↦ absurd (cc (rw b at (rw g at (rw a at e))))
            | inl ((x, y), b) ↦
                let u = (allocate_device p d (some device) h).1 in
                let (k, status, ek, ei, ey) =
                  allocate_device-identity device r h u {x = x} {y = y} (answers r device g)
                    (cc b) in
                let e3 = rw b at (rw g at (rw a at e)) in
                elim (Result-cases (prepare_results p d rs u).0) [
                  | inr (inl (o, c)) ↦ absurd (cc (rw c at (rw ek at e3)))
                  | inr (inr (inl c)) ↦ absurd (cc (rw c at (rw ek at e3)))
                  | inr (inr (inr c)) ↦ absurd (cc (rw c at (rw ek at e3)))
                  | inl ((ds1, ss1), c) ↦
                      let done = rw ey at (rw c at (rw ek at e3)) in
                      let (ids, count) =
                        prepare_results-identity answers rs u (prepare_results p d rs u).1
                          {ds = ds1} {ss = ss1} (cc c) in
                      rw a (collected k ds1 status ss1 r _ ei ids count (cc done) (cc done))
                ]
          ]
        ]
      ]
