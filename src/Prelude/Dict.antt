-- ===== src/Prelude/Dict.antt =====
-- A Go map with text keys, as an association list.
use Prim.Native.String.{String}
use mathlib.Core.Path.{◌≡◌, refl, subst}
use mathlib.Core.Logic.{inl, inr}
use device_network.Prelude.Lists.{All}
use mathlib.Core.Option.{Option, none, some}
use mathlib.Core.List.{List, [], ◌∷◌, map}
use native.Mathlib.Omega.{arith}
use text.Mathlib.Text.{◌==◌}
use text.Mathlib.TextEquality.{eq_iff}
use device_network.Prelude.Tests.{if◌then◌else◌, Bool-cases}

abbrev pub Dict {ℓ} : Type ℓ → Type ℓ
Dict V = List (String × V)

abbrev pub keys {ℓ} : {V : Type ℓ} → Dict V → List String
keys m = map (λ e. e.0) m

abbrev pub values {ℓ} : {V : Type ℓ} → Dict V → List V
values m = map (λ e. e.1) m

module _ {ℓ} {V : Type ℓ} where
  -- The value of the first entry of a key.
  unfoldable pub lookup : String → Dict V → Option V
  lookup key [] = none
  lookup key ((name, value) ∷ rest) = if name == key then some value else lookup key rest

  -- `delete(m, key)`: all entries of the key go.
  unfoldable pub erase : String → Dict V → Dict V
  erase key [] = []
  erase key ((name, value) ∷ rest) =
      if name == key then erase key rest else (name, value) ∷ erase key rest

  pub lookup-erase :
      (k key : String) (m : Dict V)
      → lookup key (erase k m) ≡ (if k == key then none else lookup key m)
  unfolding lookup erase
  lookup-erase k key [] = ground arith
  lookup-erase k key ((name, value) ∷ rest) =
      ground (arith, eq_iff k key, eq_iff name key, eq_iff name k, lookup-erase k key rest)

  -- `m[key] = value`
  unfoldable pub insert : String → V → Dict V → Dict V
  insert key value [] = (key, value) ∷ []
  insert key value ((name, old) ∷ rest) =
      if name == key then (key, value) ∷ rest else (name, old) ∷ insert key value rest

  pub lookup-insert :
      (key other : String) (value : V) (m : Dict V)
      → lookup other (insert key value m) ≡ (if key == other then some value else lookup other m)
  unfolding insert lookup
  lookup-insert key other value [] = refl
  lookup-insert key other value ((name, old) ∷ rest) = ground (
    arith,
    eq_iff name other,
    eq_iff name key,
    eq_iff key other,
    lookup-insert key other value rest,
  )

-- What holds of every entry.
module _ {κ} {V : Type 0} (P : String × V → Type κ) where
  pub All-insert : (k : String) (v : V) (m : Dict V) → P (k, v) → All P m → All P (insert k v m)
  unfolding insert
  All-insert k v [] p h = (p, tt)
  All-insert k v ((j, w) ∷ m) p h = elim (Bool-cases (j == k)) [
    | inl e ↦ rw e (p, h.1)
    | inr e ↦ rw e (h.0, All-insert k v m p h.1)
  ]

  pub All-lookup : (k : String) {v : V} (m : Dict V) → lookup k m ≡ some v → All P m → P (k, v)
  unfolding lookup
  All-lookup k [] e h = cc
  All-lookup k {v} ((j, w) ∷ m) e h = elim (Bool-cases (j == k)) [
    | inl hit ↦
        let here : some w ≡ some v = rw hit at e in subst P (cc (here, (eq_iff j k).0 hit)) h.0
    | inr miss ↦ All-lookup k m (rw miss at e) h.1
  ]
