-- ===== src/Prelude/Lists.antt =====
-- Lists measured by native numbers, membership of texts, and predicates by recursion.
use Prim.Native.Nat.{ℕ, suc, ◌+◌}
use Prim.Native.String.{String}
use mathlib.Core.Path.{◌≡◌, refl, sym, subst}
use mathlib.Core.Logic.{◌⊎◌, inl, inr, ◌↔◌}
use mathlib.Core.Bool.{Bool, true, false}
use mathlib.Core.List.{List, [], ◌∷◌, ◌++◌}
use native.Mathlib.Omega.{arith}
use text.Mathlib.Text.{◌==◌}
use text.Mathlib.TextEquality.{eq_iff}
use device_network.Prelude.Tests.{if◌then◌else◌}

module _ {ℓ} {A : Type ℓ} where
  abbrev pub length : List A → ℕ
  length [] = 0
  length (x ∷ xs) = suc (length xs)

  pub length-append : (xs ys : List A) → length (xs ++ ys) ≡ length xs + length ys
  length-append [] ys = omega arith
  length-append (x ∷ xs) ys = omega (arith, length-append xs ys)

  abbrev pub is_empty : List A → Bool
  is_empty [] = true
  is_empty (x ∷ xs) = false

module _ {A : Type 0} where
  -- `a` stands in the list, with its place.
  abbrev pub In : A → List A → Type 0
  In a [] = ⊥
  In a (x ∷ xs) = (a ≡ x) ⊎ In a xs

  pub In-append_left : (a : A) (xs ys : List A) → In a xs → In a (xs ++ ys)
  In-append_left a [] ys h = elim h [ ]
  In-append_left a (x ∷ xs) ys (inl e) = inl e
  In-append_left a (x ∷ xs) ys (inr h) = inr (In-append_left a xs ys h)

  pub In-append_right : (a : A) (xs ys : List A) → In a ys → In a (xs ++ ys)
  In-append_right a [] ys h = h
  In-append_right a (x ∷ xs) ys h = inr (In-append_right a xs ys h)

  pub In-append_cases : (a : A) (xs ys : List A) → In a (xs ++ ys) → In a xs ⊎ In a ys
  In-append_cases a [] ys h = inr h
  In-append_cases a (x ∷ xs) ys (inl e) = inl (inl e)
  In-append_cases a (x ∷ xs) ys (inr h) = elim (In-append_cases a xs ys h) [
    | inl l ↦ inl (inr l)
    | inr r ↦ inr r
  ]

module _ {ℓ κ} {A : Type ℓ} (P : A → Type κ) where
  abbrev pub All : List A → Type κ
  All [] = Unit
  All (x ∷ xs) = P x × All xs

  pub All-append : (xs ys : List A) → All xs → All ys → All (xs ++ ys)
  All-append [] ys h k = k
  All-append (x ∷ xs) ys (p, h) k = (p, All-append xs ys h k)

-- Membership in a `sets.Set[string]`, kept as the list of its items.
unfoldable pub contains : String → List String → Bool
contains k [] = false
contains k (x ∷ xs) = if x == k then true else contains k xs

-- `Insert` of a set.
unfoldable pub include : String → List String → List String
include k xs = if contains k xs then xs else k ∷ xs

pub contains-In : (k : String) (xs : List String) → contains k xs ≡ true → In k xs
unfolding contains
contains-In k [] h = cc
contains-In k (x ∷ xs) h = ground (arith, eq_iff x k, contains-In k xs)

pub In-contains : (k : String) (xs : List String) → In k xs → contains k xs ≡ true
unfolding contains
In-contains k [] h = elim h [ ]
In-contains k (x ∷ xs) (inl e) = ground (arith, eq_iff x k)
In-contains k (x ∷ xs) (inr h) = ground (arith, In-contains k xs h)

-- No text stands twice.
abbrev pub Distinct : List String → Type 0
Distinct [] = Unit
Distinct (x ∷ xs) = (contains x xs ≡ false) × Distinct xs

pub include-Distinct : (k : String) (xs : List String) → Distinct xs → Distinct (include k xs)
unfolding include
include-Distinct k xs h = ground arith

pub contains-include :
    (j k : String) (xs : List String)
    → contains j (include k xs) ≡ (if k == j then true else contains j xs)
unfolding contains include
contains-include j k xs = ground (arith, eq_iff k j)

-- An error list is empty when each part of it is.
pub append-eq-nil_iff {ℓ} :
    {A : Type ℓ} (xs ys : List A) → (xs ++ ys ≡ []) ↔ ((xs ≡ []) × (ys ≡ []))
append-eq-nil_iff [] ys = (λ e. (refl, e), λ h. h.1)
append-eq-nil_iff (x ∷ xs) ys = (λ e. cc, λ h. cc)

module _ {κ} {A : Type 0} (P : A → Type κ) where
  pub All-at : (xs : List A) → All P xs → (a : A) → In a xs → P a
  All-at [] h a i = elim i [ ]
  All-at (x ∷ xs) h a (inl e) = subst P (sym e) h.0
  All-at (x ∷ xs) h a (inr i) = All-at xs h.1 a i

  pub All-intro : (xs : List A) → ((a : A) → In a xs → P a) → All P xs
  All-intro [] h = tt
  All-intro (x ∷ xs) h = (h x (inl refl), All-intro xs (λ a i. h a (inr i)))

  pub All-map {ν} : {Q : A → Type ν} (xs : List A) → ((a : A) → P a → Q a) → All P xs → All Q xs
  All-map [] f h = tt
  All-map (x ∷ xs) f h = (f x h.0, All-map xs f h.1)

pub All-In : {A : Type 0} (xs : List A) → All (λ a. In a xs) xs
All-In xs = All-intro _ xs (λ a i. i)
