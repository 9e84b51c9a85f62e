-- ===== src/Examples/Validated.antt =====
-- The network of the example is validated.
use device_network.Prelude.{
  String, List, [], ◌∷◌, ◌≡◌, refl, ◌↔◌, length, map, Distinct, All, false,
}
use device_network.Kubernetes.{NodeSelector}
use device_network.Validation.{FieldPath, child, ErrorList, nonneg, validate_set}
use device_network.Validation.Slices.{Fits, validate_set_iff}
use device_network.Validation.Kubernetes.{LabelValidators, validate_node_selector}
use device_network.Validation.Kubernetes.Accepts.{IsNodeSelector, validate_node_selector_iff}

-- Every text is a label name.
abbrev validators : LabelValidators
validators = record {
  validate_label_name = λ s p. [];
  is_valid_label_value = λ s. [];
  name_is_dns_subdomain = λ s prefix. [];
}

abbrev IsAny : String → Type 0
IsAny s = Unit {0}

any_iff : (s : String) (p : FieldPath) → (validators.validate_label_name s p ≡ []) ↔ IsAny s
any_iff s p = (λ e. tt, λ h. refl)

abbrev selector : NodeSelector
selector = record {
  node_selector_terms =
      record {
        match_expressions = record { key = "zone"; operator = "In"; values = "a" ∷ [] } ∷ [];
        match_fields = [];
      }
      ∷ [];
}

validate_node_selector_iff_example :
    (validate_node_selector validators selector false (child "nodeSelector" ∷ []) ≡ [])
    ↔ IsNodeSelector validators IsAny any_iff selector
validate_node_selector_iff_example =
    validate_node_selector_iff validators IsAny any_iff selector (child "nodeSelector" ∷ [])

abbrev texts : List String
texts = "a" ∷ "b" ∷ []

abbrev no_errors : String → FieldPath → ErrorList
no_errors s p = []

validate_set_iff_example :
    (validate_set texts (nonneg 2) no_errors (λ s. s) (child "names" ∷ []) [] ≡ [])
    ↔ (Fits (nonneg 2) (length texts) × All IsAny texts × Distinct (map (λ (s : String). s) texts))
validate_set_iff_example =
    validate_set_iff no_errors IsAny (λ s p. (λ e. tt, λ h. refl)) (λ s. s) (child "names" ∷ []) []
      texts (nonneg 2)
