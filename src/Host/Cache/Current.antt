-- ===== src/Host/Cache/Current.antt =====
-- pkg/host/cache.go: when the store says of a link what the host says.
use device_network.Prelude.{
  String, ◌==◌, eq_refl, eq_iff, Option, none, some, ◌≡◌, refl, subst, ap, ◌∙◌, ◌⊎◌, inl, inr,
  Bool-cases,
}
use device_network.Prelude.Results.{ok}
use device_network.Host.{DeviceSpec}
use device_network.Host.Rdma.{FileSystem}
use device_network.Host.Cache.{
  DeviceCache, Link, LinkByName, found, not_found, failed, build_device, sync_device,
}
use device_network.Host.Cache.Coherence.{sync_device-spec_at}
use device_network.Host.Cache.Coherent.{IsHonest, IsCoherent, all_ok, observe}
use device_network.Host.Cache.Keyed.{spec_at}

-- What LinkByName answers on a host with these links: the truth, or a failure.
unfoldable pub Answers : (String → Option Link) → (String → LinkByName) → Type 0
Answers links f =
    (k : String)
    → (f k ≡ failed)
      ⊎ (((links k ≡ none) × (f k ≡ not_found))
          ⊎ ((l : Link) × (links k ≡ some l) × (l.name ≡ k) × (f k ≡ found l)))

-- What the store should say of a link.
unfoldable pub expected : FileSystem → String → Option Link → Option DeviceSpec
expected fs root none = none
expected fs root (some l) = some (build_device fs root l).spec

pub Answers-IsHonest :
    (links : String → Option Link) (f : String → LinkByName) → Answers links f → IsHonest f
unfolding Answers
Answers-IsHonest links f a k l e = elim (a k) [
  | inl x ↦ absurd (cc)
  | inr (inl (x, y)) ↦ absurd (cc)
  | inr (inr (m, x, y, z)) ↦ let same : m ≡ l = cc in subst (λ (n : Link). n.name ≡ k) same y
]

module _ (fs : FileSystem) (root : String) (links : String → Option Link) where
  abbrev pub IsCurrent : String → DeviceCache → Type 0
  IsCurrent j dc = spec_at j dc.store ≡ expected fs root (links j)

  module _ (f : String → LinkByName) (answers : Answers links f) where
    -- The lookup fails, or its answer makes the key current.
    observe-expected :
        (key : String)
        → (f key ≡ failed)
          ⊎ ((old : Option DeviceSpec) → observe fs root (f key) old ≡ expected fs root (links key))
    unfolding expected Answers
    observe-expected key = elim (answers key) [
      | inl x ↦ inl x
      | inr (inl (x, y)) ↦ inr (λ old. rw x (rw y refl))
      | inr (inr (m, x, y, z)) ↦ inr (λ old. rw x (rw z refl))
    ]

    -- A sync leaves what is current, and makes its key current, or fails.
    pub sync-IsCurrent :
        (key j : String) (dc : DeviceCache)
        → IsCoherent dc
        → IsCurrent j dc
        → IsCurrent j (sync_device fs root f all_ok key dc).1
    sync-IsCurrent key j dc h c =
        sync_device-spec_at fs root f (Answers-IsHonest links f answers) key dc h j
        ∙ elim (Bool-cases (key == j)) [
          | inr other ↦ rw other c
          | inl same ↦ rw same (elim (observe-expected key) [
            | inl x ↦ rw x c
            | inr x ↦ x _ ∙ ap (λ k. expected fs root (links k)) ((eq_iff key j).0 same)
          ])
        ]

    sync-fails :
        (key : String) (dc : DeviceCache) {u : Unit {0}}
        → f key ≡ failed
        → (sync_device fs root f all_ok key dc).0 ≡ ok u
        → ⊥
    unfolding sync_device
    sync-fails key dc x e = cc (rw (x, sync_device) at e)

    pub sync-own :
        (key : String) (dc : DeviceCache) {u : Unit {0}}
        → IsCoherent dc
        → (sync_device fs root f all_ok key dc).0 ≡ ok u
        → IsCurrent key (sync_device fs root f all_ok key dc).1
    sync-own key dc h e =
        sync_device-spec_at fs root f (Answers-IsHonest links f answers) key dc h key
        ∙ elim (observe-expected key) [
          | inl x ↦ absurd (sync-fails key dc x e)
          | inr x ↦ rw (eq_refl key) (x _)
        ]
