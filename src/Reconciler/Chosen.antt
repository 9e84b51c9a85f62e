-- ===== src/Reconciler/Chosen.antt =====
-- pkg/controllers/devicenetwork/reconciler.go: which host devices a configuration ends up with:
-- those that its selectors list.
use device_network.Prelude.{
  String, ◌==◌, ◌≡◌, refl, subst, ap, ◌∙◌, true, false, some, List, [], ◌∷◌, inl, inr, Bool-cases,
  contains, eq_iff, eq_refl, Distinct, In, All, map,
}
use device_network.Prelude.Dict.{Dict, lookup, insert, lookup-insert}
use device_network.Kubernetes.{Node}
use device_network.Api.{DeviceSelector}
use device_network.Host
use device_network.Reconciler.{
  Reconciler, applies_to_node, list_devices, device_for_selector, insert_devices, or_none,
  device_for_configuration,
}

pub In-map : {A B : Type 0} (f : A → B) (a : A) (xs : List A) → In a xs → In (f a) (map f xs)
In-map f a [] i = elim i [ ]
In-map f a (x ∷ xs) (inl e) = inl (ap f e)
In-map f a (x ∷ xs) (inr i) = inr (In-map f a xs i)

-- An entry that is found stands in the map.
pub lookup-In : {V : Type 0} (k : String) (m : Dict V) {v : V} → lookup k m ≡ some v → In (k, v) m
unfolding lookup
lookup-In k [] e = absurd (cc)
lookup-In k ((j, w) ∷ m) {v} e = elim (Bool-cases (j == k)) [
  | inl hit ↦ let same : some w ≡ some v = rw hit at e in inl (cc (same, (eq_iff j k).0 hit))
  | inr miss ↦ inr (lookup-In k m (rw miss at e))
]

module _ (r : Reconciler) (node : Node) where
  -- A selector of another name changes nothing.
  device_for_selector-other :
      (k : String) (selectors : List DeviceSelector) (m : Dict (List Host.Device))
      → contains k (map (λ (s : DeviceSelector). s.name) selectors) ≡ false
      → lookup k (device_for_selector r node m selectors) ≡ lookup k m
  unfolding device_for_selector contains
  device_for_selector-other k [] m h = refl
  device_for_selector-other k (s ∷ selectors) m h = elim (Bool-cases (s.name == k)) [
    | inl b ↦ absurd (cc (rw b at h))
    | inr b ↦
        device_for_selector-other k selectors _ (rw b at h)
        ∙ elim (Bool-cases (applies_to_node r node s.node_selector)) [
          | inl a ↦ rw a (rw (lookup-insert s.name k (list_devices r node s) m) (rw b refl))
          | inr a ↦ rw a refl
        ]
  ]

  pub device_for_selector-lookup :
      (selectors : List DeviceSelector) (m : Dict (List Host.Device)) (s : DeviceSelector)
      → Distinct (map (λ (s : DeviceSelector). s.name) selectors)
      → In s selectors
      → applies_to_node r node s.node_selector ≡ true
      → lookup s.name (device_for_selector r node m selectors) ≡ some (list_devices r node s)
  unfolding device_for_selector
  device_for_selector-lookup [] m s distinct i a = elim i [ ]
  device_for_selector-lookup (x ∷ selectors) m s distinct (inl e) a = rw e (
      device_for_selector-other x.name selectors _ distinct.0
      ∙ rw (subst (λ y. applies_to_node r node y.node_selector ≡ true) e a)
          (rw (lookup-insert x.name x.name (list_devices r node x) m) (rw (eq_refl x.name) refl)))
  device_for_selector-lookup (x ∷ selectors) m s distinct (inr i) a =
      device_for_selector-lookup selectors _ s distinct.1 i a

-- Host devices of one name are one.
unfoldable pub IsOne : Host.Device → List Host.Device → Type 0
IsOne host devices = All (λ d. d.name ≡ host.name → d ≡ host) devices

module _ (host : Host.Device) where
  insert_devices-keeps :
      (m : Dict Host.Device) (devices : List Host.Device)
      → IsOne host devices
      → lookup host.name m ≡ some host
      → lookup host.name (insert_devices m devices) ≡ some host
  unfolding insert_devices IsOne
  insert_devices-keeps m [] one h = h
  insert_devices-keeps m (d ∷ devices) one h =
      insert_devices-keeps (insert d.name d m) devices one.1 (
        rw (lookup-insert d.name host.name d m) (elim (Bool-cases (d.name == host.name)) [
          | inl e ↦ rw e (ap some (one.0 ((eq_iff d.name host.name).0 e)))
          | inr e ↦ rw e h
        ]))

  insert_devices-In :
      (m : Dict Host.Device) (devices : List Host.Device)
      → IsOne host devices
      → In host devices
      → lookup host.name (insert_devices m devices) ≡ some host
  unfolding insert_devices IsOne
  insert_devices-In m [] one i = elim i [ ]
  insert_devices-In m (d ∷ devices) one (inl e) =
      insert_devices-keeps _ devices one.1
        (rw (lookup-insert d.name host.name d m) (rw e (rw (eq_refl d.name) refl)))
  insert_devices-In m (d ∷ devices) one (inr i) =
      insert_devices-In (insert d.name d m) devices one.1 i

  module _ (by_selector : Dict (List Host.Device))
      (one : (name : String) → IsOne host (or_none (lookup name by_selector))) where
    configuration-keeps :
        (names : List String) (m : Dict Host.Device)
        → lookup host.name m ≡ some host
        → lookup host.name (device_for_configuration by_selector m names) ≡ some host
    unfolding device_for_configuration
    configuration-keeps [] m h = h
    configuration-keeps (name ∷ names) m h =
        configuration-keeps names _ (insert_devices-keeps m _ (one name) h)

    -- A device that a named selector lists is there.
    pub device_for_configuration-In :
        (names : List String) (m : Dict Host.Device) (name : String)
        → In name names
        → In host (or_none (lookup name by_selector))
        → lookup host.name (device_for_configuration by_selector m names) ≡ some host
    unfolding device_for_configuration
    device_for_configuration-In [] m name i l = elim i [ ]
    device_for_configuration-In (x ∷ names) m name (inl e) l =
        configuration-keeps names _ (
          insert_devices-In m _ (one x) (subst (λ n. In host (or_none (lookup n by_selector))) e l))
    device_for_configuration-In (x ∷ names) m name (inr i) l =
        device_for_configuration-In names _ name i l
