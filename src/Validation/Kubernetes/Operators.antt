-- ===== src/Validation/Kubernetes/Operators.antt =====
-- pkg/validation/kubernetes.go: which operators go with how many values.
use device_network.Prelude.{
  String, ◌==◌, eq_iff, ◌≡◌, refl, ◌≢◌, ◌↔◌, ◌⊎◌, inl, inr, ◌||◌, List, [], ◌∷◌, length, eqb,
  if◌then◌else◌, arith,
}
use device_network.Validation.{FieldPath, child, field_error, invalid, required}
use device_network.Validation.Kubernetes.{LabelValidators, operator_errors}

-- How many values an operator takes.
abbrev pub IsWellFormed : String → List String → Type 0
IsWellFormed operator values =
    (((operator ≡ "In") ⊎ (operator ≡ "NotIn")) × (values ≢ []))
    ⊎ (((operator ≡ "Exists") ⊎ (operator ≡ "DoesNotExist")) × (values ≡ []))
    ⊎ (((operator ≡ "Gt") ⊎ (operator ≡ "Lt")) × (length values ≡ 1))

abbrev pub NoOperatorErrors : LabelValidators → String → List String → FieldPath → Type 0
NoOperatorErrors v operator values path = operator_errors v operator values path ≡ []

pub operator_errors_complete :
    (v : LabelValidators) (operator : String) (values : List String) (path : FieldPath)
    → IsWellFormed operator values
    → NoOperatorErrors v operator values path
unfolding operator_errors
operator_errors_complete v op [] path (inl (_, h)) = absurd (h refl)
operator_errors_complete v op (x ∷ xs) path (inl (inl e, _)) = rw e refl
operator_errors_complete v op (x ∷ xs) path (inl (inr e, _)) = rw e refl
operator_errors_complete v op values path (inr (inl (inl e, h))) = rw (e, h) refl
operator_errors_complete v op values path (inr (inl (inr e, h))) = rw (e, h) refl
operator_errors_complete v op values path (inr (inr (inl e, h))) = rw (e, h) refl
operator_errors_complete v op values path (inr (inr (inr e, h))) = rw (e, h) refl

pub operator_errors_sound :
    (v : LabelValidators) (operator : String) (values : List String) (path : FieldPath)
    → NoOperatorErrors v operator values path
    → IsWellFormed operator values
unfolding operator_errors
operator_errors_sound v op values path h = ground (
  arith,
  eq_iff op "In",
  eq_iff op "NotIn",
  eq_iff op "Exists",
  eq_iff op "DoesNotExist",
  eq_iff op "Gt",
  eq_iff op "Lt",
)

pub field_operator_iff :
    (operator : String) (values : List String) (path : FieldPath)
    → ((if operator == "In" || operator == "NotIn"
          then (if eqb (length values) 1
              then []
              else field_error required
                  (child "values" ∷ path)
                  "must be only one value when `operator` is 'In' or 'NotIn' for node field selector"
                ∷ [])
          else field_error invalid (child "operator" ∷ path) "not a valid selector operator" ∷ [])
        ≡ [])
      ↔ (((operator ≡ "In") ⊎ (operator ≡ "NotIn")) × (length values ≡ 1))
field_operator_iff operator values path =
    ground (arith, eq_iff operator "In", eq_iff operator "NotIn")
