-- ===== src/Validation.antt =====
-- pkg/validation/helpers.go: validation of slices, over the field errors of
-- k8s.io/apimachinery/pkg/util/validation/field.
pub mod Slices
pub mod Kubernetes
pub mod Network
use device_network.Prelude.{
  ℕ, suc, ◌+◌, String, Bool, true, false, ◌&&◌, List, [], ◌∷◌, ◌++◌, map, length, ltb,
  if◌then◌else◌, contains, include,
}

-- A field path, innermost step first.
pub data Step : Type 0 where
  child : String → Step
  index : ℕ → Step

abbrev pub FieldPath : Type 0
FieldPath = List Step

pub data ErrorType : Type 0 where
  required forbidden invalid not_found duplicate too_long too_many : ErrorType

-- A field error without the value that it quotes.
pub record FieldError : Type 0 where
  pub type : ErrorType
  pub path : FieldPath
  pub detail : String
  pub origin : String
  pub covered : Bool

abbrev pub ErrorList : Type 0
ErrorList = List FieldError

abbrev pub field_error : ErrorType → FieldPath → String → FieldError
field_error t p d = record { type = t; path = p; detail = d; origin = ""; covered = false }

abbrev pub with_origin : String → FieldError → FieldError
with_origin o e = record e { origin = o }

abbrev pub mark_covered : FieldError → FieldError
mark_covered e = record e { covered = true }

pub data ValidationOption : Type 0 where
  items_covered size_covered uniqueness_covered : ValidationOption

-- `slices.Contains(opts, o)`
abbrev same_option : ValidationOption → ValidationOption → Bool
same_option items_covered items_covered = true
same_option size_covered size_covered = true
same_option uniqueness_covered uniqueness_covered = true
same_option _ _ = false

has_option : ValidationOption → List ValidationOption → Bool
has_option o [] = false
has_option o (p ∷ ps) = if same_option p o then true else has_option o ps

-- A Go `int` as the limit of a slice.
pub data Size : Type 0 where
  nonneg : ℕ → Size
  negative : ℕ → Size

-- `maxSize >= 0 && len(slice) > maxSize`
abbrev pub exceeds : Size → ℕ → Bool
exceeds (nonneg n) len = ltb n len
exceeds (negative n) len = false

module _ {T : Type 0} where
  -- The loop of `ValidateItems` from index `i` on.
  items_from :
      ℕ → List T → (T → FieldPath → ErrorList) → FieldPath → List ValidationOption → ErrorList
  items_from i [] validate_item path opts = []
  items_from i (item ∷ slice) validate_item path opts =
      (let errs = validate_item item (index i ∷ path) in
        if has_option items_covered opts then map mark_covered errs else errs)
      ++ items_from (i + 1) slice validate_item path opts

  pub validate_items :
      List T → (T → FieldPath → ErrorList) → FieldPath → List ValidationOption → ErrorList
  validate_items slice validate_item path opts = items_from 0 slice validate_item path opts

  too_many_error : List T → FieldPath → List ValidationOption → FieldError
  too_many_error slice path opts =
      let e = with_origin "maxItems" (field_error too_many path "") in
      if has_option size_covered opts then mark_covered e else e

  -- The loop of `ValidateSet` over the keys, with the set of those seen before.
  duplicates_from :
      ℕ → List String → List T → (T → String) → FieldPath → List ValidationOption → ErrorList
  duplicates_from i all_items [] item_key path opts = []
  duplicates_from i all_items (item ∷ slice) item_key path opts =
      let e = field_error duplicate (index i ∷ path) (item_key item) in
      let found = if has_option uniqueness_covered opts then mark_covered e else e in
      let again = contains (item_key item) all_items in
      (if again then found ∷ [] else [])
      ++ duplicates_from (i + 1) (if again then all_items else include (item_key item) all_items)
          slice item_key path opts

  -- The key is a text at every call in the repository.
  pub validate_set :
      List T
      → Size
      → (T → FieldPath → ErrorList)
      → (T → String)
      → FieldPath
      → List ValidationOption
      → ErrorList
  validate_set slice max_size validate_item item_key path opts =
      if exceeds max_size (length slice)
      then too_many_error slice path opts ∷ []
      else (validate_items slice validate_item path opts
          ++ duplicates_from 0 [] slice item_key path opts)

  pub validate_slice :
      List T → Size → (T → FieldPath → ErrorList) → FieldPath → List ValidationOption → ErrorList
  validate_slice slice max_size validate_item path opts =
      if exceeds max_size (length slice)
      then too_many_error slice path opts ∷ []
      else validate_items slice validate_item path opts
