-- ===== src/Host/Cache/Keyed.antt =====
-- pkg/host/cache.go: devices under their names, and what a map says of one.
use device_network.Prelude.{
  String, ◌==◌, eq_iff, ◌≡◌, refl, ap, subst, Option, none, some, [], ◌∷◌, inl, inr, In, arith,
  Bool-cases,
}
use device_network.Prelude.Dict.{Dict, lookup, insert, erase, values, lookup-insert, lookup-erase}
use device_network.Host.{Device, DeviceSpec}

-- Each device stands under its name, once.
abbrev pub IsKeyed : Dict Device → Type 0
IsKeyed [] = Unit
IsKeyed ((k, d) ∷ m) = (d.name ≡ k) × (lookup k m ≡ none) × IsKeyed m

pub insert-IsKeyed : (d : Device) (m : Dict Device) → IsKeyed m → IsKeyed (insert d.name d m)
unfolding insert lookup
insert-IsKeyed d [] h = (refl, refl, tt)
insert-IsKeyed d ((k, x) ∷ m) (n, new, h) = elim (Bool-cases (k == d.name)) [
  | inl e ↦ rw e (refl, subst (λ j. lookup j m ≡ none) ((eq_iff k d.name).0 e) new, h)
  | inr e ↦ rw e (
    n,
    ground (arith, lookup-insert d.name k d m, eq_iff k d.name, eq_iff d.name k),
    insert-IsKeyed d m h,
  )
]

pub erase-IsKeyed : (k : String) (m : Dict Device) → IsKeyed m → IsKeyed (erase k m)
unfolding erase
erase-IsKeyed k [] h = tt
erase-IsKeyed k ((j, x) ∷ m) (n, new, h) = elim (Bool-cases (j == k)) [
  | inl e ↦ rw e (erase-IsKeyed k m h)
  | inr e ↦ rw e (n, ground (arith, lookup-erase k j m), erase-IsKeyed k m h)
]

pub name_of_lookup :
    (k : String) {d : Device} (m : Dict Device) → IsKeyed m → lookup k m ≡ some d → d.name ≡ k
unfolding lookup
name_of_lookup k [] h e = cc
name_of_lookup k {d} ((j, x) ∷ m) (n, new, h) e =
    ground (arith, eq_iff j k, name_of_lookup k {d = d} m h)

-- So a device among the values is found by its name.
pub lookup-name :
    (d : Device) (m : Dict Device) → IsKeyed m → In d (values m) → lookup d.name m ≡ some d
unfolding lookup
lookup-name d [] h i = elim i [ ]
lookup-name d ((j, x) ∷ m) (n, new, h) (inl e) =
    ground (arith, eq_iff j d.name, ap (λ (y : Device). y.name) e)
lookup-name d ((j, x) ∷ m) (n, new, h) (inr i) =
    ground (arith, eq_iff j d.name, lookup-name d m h i)

abbrev pub spec_of : Option Device → Option DeviceSpec
spec_of none = none
spec_of (some d) = some d.spec

abbrev pub spec_at : String → Dict Device → Option DeviceSpec
spec_at k m = spec_of (lookup k m)
