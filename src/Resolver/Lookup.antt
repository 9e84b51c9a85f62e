-- ===== src/Resolver/Lookup.antt =====
-- pkg/resolver/resolver.go: what the index and the loops of the resolver find.
use device_network.Prelude.{
  String, ◌==◌, eq_iff, ◌≡◌, refl, ap, true, false, some, List, [], ◌∷◌, ◌++◌, inl, inr, map, In,
  All, Distinct, contains, if◌then◌else◌, arith, Bool-cases,
}
use device_network.Kubernetes
use device_network.Kubernetes.{ResourceSlice, DeviceRequestAllocationResult, Node}
use device_network.Api.{DeviceConfiguration}
use device_network.Resolver.{find_device, find_configuration, index_keys, by_index}

abbrev pub names : List Kubernetes.Device → List String
names ds = map (λ d. d.name) ds

-- The devices of the slices, in order.
abbrev pub all_devices : List ResourceSlice → List Kubernetes.Device
all_devices [] = []
all_devices (rs ∷ slices) = rs.devices ++ all_devices slices

In-name :
    (d : Kubernetes.Device) (ds : List Kubernetes.Device)
    → In d ds
    → contains d.name (names ds) ≡ true
unfolding contains
In-name d [] i = elim i [ ]
In-name d (x ∷ ds) (inl e) =
    ground (arith, ap (λ (y : Kubernetes.Device). y.name) e, eq_iff x.name d.name)
In-name d (x ∷ ds) (inr i) = ground (arith, In-name d ds i)

pub find_device-In :
    (d : Kubernetes.Device) (ds : List Kubernetes.Device)
    → Distinct (names ds)
    → In d ds
    → find_device d.name ds ≡ some d
unfolding find_device
find_device-In d [] u i = elim i [ ]
find_device-In d (x ∷ ds) u (inl e) =
    ground (arith, ap (λ (y : Kubernetes.Device). y.name) e, eq_iff x.name d.name)
find_device-In d (x ∷ ds) u (inr i) =
    ground (arith, In-name d ds i, eq_iff x.name d.name, find_device-In d ds u.1 i)

In-configuration_name :
    (dc : DeviceConfiguration) (dcs : List DeviceConfiguration)
    → In dc dcs
    → contains dc.name (map (λ (c : DeviceConfiguration). c.name) dcs) ≡ true
unfolding contains
In-configuration_name dc [] i = elim i [ ]
In-configuration_name dc (x ∷ dcs) (inl e) =
    ground (arith, ap (λ (y : DeviceConfiguration). y.name) e, eq_iff x.name dc.name)
In-configuration_name dc (x ∷ dcs) (inr i) = ground (arith, In-configuration_name dc dcs i)

pub find_configuration-In :
    (dc : DeviceConfiguration) (dcs : List DeviceConfiguration)
    → Distinct (map (λ c. c.name) dcs)
    → In dc dcs
    → find_configuration dc.name dcs ≡ some dc
unfolding find_configuration
find_configuration-In dc [] u i = elim i [ ]
find_configuration-In dc (x ∷ dcs) u (inl e) =
    ground (arith, ap (λ (y : DeviceConfiguration). y.name) e, eq_iff x.name dc.name)
find_configuration-In dc (x ∷ dcs) u (inr i) = ground (
  arith,
  In-configuration_name dc dcs i,
  eq_iff x.name dc.name,
  find_configuration-In dc dcs u.1 i,
)

contains-append :
    (k : String) (xs ys : List Kubernetes.Device)
    → contains k (names (xs ++ ys))
      ≡ (if contains k (names xs) then true else contains k (names ys))
unfolding contains
contains-append k [] ys = refl
contains-append k (x ∷ xs) ys = ground (arith, contains-append k xs ys)

-- In a list with no name twice, a name of the first part is not in the second.
apart :
    (d : Kubernetes.Device) (xs ys : List Kubernetes.Device)
    → Distinct (names (xs ++ ys))
    → contains d.name (names xs) ≡ true
    → In d (xs ++ ys)
    → In d xs
unfolding contains
apart d [] ys u c i = absurd (cc)
apart d (x ∷ xs) ys u c (inl e) = inl e
apart d (x ∷ xs) ys u c (inr i) = elim (Bool-cases (x.name == d.name)) [
  | inl same ↦ absurd (ground (arith, u.0, In-name d (xs ++ ys) i, eq_iff x.name d.name, same))
  | inr other ↦ inr (apart d xs ys u.1 (rw other at c) i)
]

Distinct-left : (xs ys : List Kubernetes.Device) → Distinct (names (xs ++ ys)) → Distinct (names xs)
Distinct-left [] ys u = tt
Distinct-left (x ∷ xs) ys u =
    (ground (arith, u.0, contains-append x.name xs ys), Distinct-left xs ys u.1)

Distinct-right :
    (xs ys : List Kubernetes.Device) → Distinct (names (xs ++ ys)) → Distinct (names ys)
Distinct-right [] ys u = u
Distinct-right (x ∷ xs) ys u = Distinct-right xs ys u.1

later :
    (d : Kubernetes.Device) (xs ys : List Kubernetes.Device)
    → contains d.name (names xs) ≡ false
    → In d (xs ++ ys)
    → In d ys
unfolding contains
later d [] ys c i = i
later d (x ∷ xs) ys c (inl e) =
    absurd (ground (arith, c, ap (λ (y : Kubernetes.Device). y.name) e, eq_iff x.name d.name))
later d (x ∷ xs) ys c (inr i) = later d xs ys (ground (arith, c)) i

module _ (make_device_id : String → String → String → String)
    (make_device_id-injective : (driver pool a b : String)
      → make_device_id driver pool a ≡ make_device_id driver pool b
      → a ≡ b) where
  contains-index_keys :
      (driver pool name : String) (ds : List Kubernetes.Device)
      → contains (make_device_id driver pool name) (index_keys make_device_id driver pool ds)
        ≡ contains name (names ds)
  unfolding contains index_keys
  contains-index_keys driver pool name [] = refl
  contains-index_keys driver pool name (d ∷ ds) = ground (
    arith,
    contains-index_keys driver pool name ds,
    eq_iff (make_device_id driver pool d.name) (make_device_id driver pool name),
    eq_iff d.name name,
    make_device_id-injective driver pool d.name name,
  )

  -- The slices are of one driver and pool, and no device name stands twice in them: the index finds
  -- the slice of a device, and the slice's list the device.
  pub find_published :
      (driver pool : String) (slices : List ResourceSlice) (d : Kubernetes.Device)
      → All (λ rs. (rs.driver ≡ driver) × (rs.pool ≡ pool)) slices
      → Distinct (names (all_devices slices))
      → In d (all_devices slices)
      → (rs : ResourceSlice) × (by_index make_device_id (make_device_id driver pool d.name) slices
          ≡ some rs)
        × (find_device d.name rs.devices ≡ some d)
  unfolding by_index
  find_published driver pool [] d a u i = elim i [ ]
  find_published driver pool (rs ∷ slices) d ((e, f), a) u i =
      elim (Bool-cases (contains d.name (names rs.devices))) [
        | inl here ↦ (
          rs,
          ground (arith, hit, here),
          find_device-In d rs.devices (Distinct-left rs.devices (all_devices slices) u)
              (apart d rs.devices (all_devices slices) u here i),
        )
        | inr there ↦
            let (x, index, find) =
              find_published driver pool slices d a
                (Distinct-right rs.devices (all_devices slices) u)
                (later d rs.devices (all_devices slices) there i) in
            (x, ground (arith, hit, there, index), find)
      ]
    where
      hit :
          contains
            (make_device_id driver pool d.name)
            (index_keys make_device_id rs.driver rs.pool rs.devices)
          ≡ contains d.name (names rs.devices)
      hit = rw (e, f) (contains-index_keys driver pool d.name rs.devices)
