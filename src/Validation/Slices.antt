-- ===== src/Validation/Slices.antt =====
-- When the slice validators of pkg/validation/helpers.go report nothing.
use device_network.Prelude.{
  ℕ, ◌+◌, ◌≤◌, String, ◌≡◌, refl, ◌↔◌, inl, inr, Bool, true, false, List, [], ◌∷◌, map, length,
  if◌then◌else◌, arith, Bool-cases, contains, include, contains-include, Distinct, All,
  append-eq-nil_iff, eq_iff,
}
use device_network.Validation.{
  FieldPath, ErrorList, FieldError, ValidationOption, Size, nonneg, negative, exceeds,
  items_covered, mark_covered, has_option, items_from, validate_items, duplicates_from,
  validate_set, validate_slice, index,
}

map-eq-nil_iff : (f : FieldError → FieldError) (es : ErrorList) → (map f es ≡ []) ↔ (es ≡ [])
map-eq-nil_iff f [] = (λ e. refl, λ e. refl)
map-eq-nil_iff f (x ∷ es) = (λ e. cc, λ e. cc)

-- The length is within the limit, if there is one.
abbrev pub Fits : Size → ℕ → Type 0
Fits (nonneg n) len = len ≤ n
Fits (negative n) len = Unit

Fits-iff : (m : Size) (len : ℕ) → (exceeds m len ≡ false) ↔ Fits m len
Fits-iff (nonneg n) len = ground arith
Fits-iff (negative n) len = (λ e. tt, λ h. refl)

if-eq-nil_iff :
    (b : Bool) (es fs : ErrorList)
    → (es ≡ [] → fs ≡ [])
    → (fs ≡ [] → es ≡ [])
    → ((if b then es else fs) ≡ []) ↔ (fs ≡ [])
if-eq-nil_iff true es fs to from = (to, from)
if-eq-nil_iff false es fs to from = (λ e. e, λ e. e)

module _ {T : Type 0} (validate_item : T → FieldPath → ErrorList) (P : T → Type 0)
    (item_iff : (t : T) (p : FieldPath) → (validate_item t p ≡ []) ↔ P t) (path : FieldPath)
    (opts : List ValidationOption) where
  items_from_iff :
      (i : ℕ) (slice : List T) → (items_from i slice validate_item path opts ≡ []) ↔ All P slice
  unfolding items_from
  items_from_iff i [] = (λ e. tt, λ h. refl)
  items_from_iff i (t ∷ slice) = (
    λ e.
        let (a, b) = (append-eq-nil_iff _ _).0 e in
        ((item_iff t _).0 (one.0 a), (items_from_iff (i + 1) slice).0 b),
    λ h.
        (append-eq-nil_iff _ _).1
          (one.1 ((item_iff t _).1 h.0), (items_from_iff (i + 1) slice).1 h.1),
  )
    where
      errs : ErrorList
      errs = validate_item t (index i ∷ path)

      one :
          ((if has_option items_covered opts then map mark_covered errs else errs) ≡ [])
          ↔ (errs ≡ [])
      one =
          if-eq-nil_iff (has_option items_covered opts) (map mark_covered errs) errs
            (map-eq-nil_iff mark_covered errs).0 (map-eq-nil_iff mark_covered errs).1

  pub validate_slice_iff :
      (slice : List T) (m : Size)
      → (validate_slice slice m validate_item path opts ≡ [])
        ↔ (Fits m (length slice) × All P slice)
  unfolding validate_slice validate_items
  validate_slice_iff slice m = elim (Bool-cases (exceeds m (length slice))) [
    | inl over ↦
        rw over (λ e. cc, λ h. absurd (ground (arith, over, (Fits-iff m (length slice)).1 h.0)))
    | inr fits ↦ rw fits (
      λ e. ((Fits-iff m (length slice)).0 fits, (items_from_iff 0 slice).0 e),
      λ h. (items_from_iff 0 slice).1 h.1,
    )
  ]

module _ {T : Type 0} (item_key : T → String) (path : FieldPath)
    (opts : List ValidationOption) where
  -- No key of the slice was seen before, and none stands twice.
  abbrev Fresh : List String → List T → Type 0
  Fresh seen slice = All (λ t. contains (item_key t) seen ≡ false) slice

  Fresh-include :
      (k : String) (seen : List String) (slice : List T)
      → Fresh (include k seen) slice
        ↔ ((contains k (map item_key slice) ≡ false) × Fresh seen slice)
  unfolding contains
  Fresh-include k seen [] = (λ h. (refl, tt), λ h. tt)
  Fresh-include k seen (t ∷ slice) = (
    λ h.
        let (a, b) = (Fresh-include k seen slice).0 h.1 in
        (
          ground (
            arith,
            contains-include (item_key t) k seen,
            eq_iff (item_key t) k,
            eq_iff k (item_key t),
          ),
          (ground (arith, contains-include (item_key t) k seen), b),
        ),
    λ h. (
      ground (
        arith,
        contains-include (item_key t) k seen,
        eq_iff (item_key t) k,
        eq_iff k (item_key t),
      ),
      (Fresh-include k seen slice).1 (ground arith, h.1.1),
    ),
  )

  duplicates_from_iff :
      (i : ℕ) (seen : List String) (slice : List T)
      → (duplicates_from i seen slice item_key path opts ≡ [])
        ↔ (Fresh seen slice × Distinct (map item_key slice))
  unfolding duplicates_from
  duplicates_from_iff i seen [] = (λ e. (tt, tt), λ h. refl)
  duplicates_from_iff i seen (t ∷ slice) = elim (Bool-cases (contains (item_key t) seen)) [
    | inl old ↦ rw old (λ e. cc, λ h. cc)
    | inr new ↦ rw new (
      λ e.
          let (fresh, distinct) =
            (duplicates_from_iff (i + 1) (include (item_key t) seen) slice).0 e in
          let (other, rest) = (Fresh-include (item_key t) seen slice).0 fresh in
          ((refl, rest), (other, distinct)),
      λ h.
          (duplicates_from_iff (i + 1) (include (item_key t) seen) slice).1
            ((Fresh-include (item_key t) seen slice).1 (h.1.0, h.0.1), h.1.1),
    )
  ]

  Fresh-nil : (slice : List T) → Fresh [] slice
  unfolding contains
  Fresh-nil [] = tt
  Fresh-nil (t ∷ slice) = (refl, Fresh-nil slice)

  no_duplicates_iff :
      (slice : List T)
      → (duplicates_from 0 [] slice item_key path opts ≡ []) ↔ Distinct (map item_key slice)
  no_duplicates_iff slice = (
    λ e. ((duplicates_from_iff 0 [] slice).0 e).1,
    λ d. (duplicates_from_iff 0 [] slice).1 (Fresh-nil slice, d),
  )

-- Given that the item validator reports nothing just for the items that meet `P`, ValidateSet
-- reports nothing just when the slice is within the limit (a negative limit is none), every item
-- meets `P`, and no key stands twice. This holds for every path and all options.
pub validate_set_iff :
    {T : Type 0} (validate_item : T → FieldPath → ErrorList) (P : T → Type 0)
    (item_iff : (t : T) (p : FieldPath) → (validate_item t p ≡ []) ↔ P t) (item_key : T → String)
    (path : FieldPath) (opts : List ValidationOption) (slice : List T) (m : Size)
    → (validate_set slice m validate_item item_key path opts ≡ [])
      ↔ (Fits m (length slice) × All P slice × Distinct (map item_key slice))
unfolding validate_set validate_items
validate_set_iff validate_item P item_iff item_key path opts slice m =
    elim (Bool-cases (exceeds m (length slice))) [
      | inl over ↦
          rw over (λ e. cc, λ h. absurd (ground (arith, over, (Fits-iff m (length slice)).1 h.0)))
      | inr fits ↦ rw fits (
        λ e.
            let (a, b) = (append-eq-nil_iff _ _).0 e in
            (
              (Fits-iff m (length slice)).0 fits,
              (items_from_iff validate_item P item_iff path opts 0 slice).0 a,
              (no_duplicates_iff item_key path opts slice).0 b,
            ),
        λ h. (append-eq-nil_iff _ _).1 (
          (items_from_iff validate_item P item_iff path opts 0 slice).1 h.1,
          (no_duplicates_iff item_key path opts slice).1 h.2,
        ),
      )
    ]
