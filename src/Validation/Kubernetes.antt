-- ===== src/Validation/Kubernetes.antt =====
-- pkg/validation/kubernetes.go: validation of node selectors. The validators of labels and names
-- are those of k8s.io/apimachinery, which enter as parameters.
pub mod Accepts
pub mod Operators
use device_network.Prelude.{
  ℕ, suc, ◌+◌, String, ◌==◌, Bool, true, false, ◌||◌, not, List, [], ◌∷◌, ◌++◌, map, is_empty,
  length, eqb, if◌then◌else◌, ◌≡◌, refl, ◌↔◌, ◌⊎◌, inl, inr, All, arith, eq_iff, Bool-cases,
  append-eq-nil_iff,
}
use device_network.Kubernetes.{NodeSelectorRequirement, NodeSelectorTerm, NodeSelector}
use device_network.Validation.{
  FieldPath, child, index, ErrorList, FieldError, field_error, required, forbidden, invalid,
  with_origin,
}

-- k8s.io/apimachinery: `ValidateLabelName`, `IsValidLabelValue`, `NameIsDNSSubdomain`.
pub record LabelValidators : Type 0 where
  pub validate_label_name : String → FieldPath → ErrorList
  pub is_valid_label_value : String → List String
  pub name_is_dns_subdomain : String → Bool → List String

module _ (v : LabelValidators) where
  open v use {validate_label_name, is_valid_label_value, name_is_dns_subdomain}

  -- One error for each message.
  messages : List String → FieldPath → ErrorList
  messages [] path = []
  messages (msg ∷ msgs) path = field_error invalid path msg ∷ messages msgs path

  -- `WithOrigin` marks the whole list so far, at each message of a value.
  append_messages : ErrorList → List String → FieldPath → ErrorList
  append_messages errs [] path = errs
  append_messages errs (msg ∷ msgs) path =
      append_messages
        (map (with_origin "format=k8s-label-value") (errs ++ field_error invalid path msg ∷ []))
        msgs path

  label_values : ErrorList → ℕ → List String → FieldPath → ErrorList
  label_values errs i [] path = errs
  label_values errs i (value ∷ values) path =
      label_values (append_messages errs (is_valid_label_value value) (index i ∷ path)) (i + 1)
        values path

  -- The switch on the operator.
  pub operator_errors : String → List String → FieldPath → ErrorList
  operator_errors operator values path =
      if operator == "In" || operator == "NotIn"
      then (if is_empty values
          then field_error required (child "values" ∷ path)
              "must be specified when `operator` is 'In' or 'NotIn'"
            ∷ []
          else [])
      else (if operator == "Exists" || operator == "DoesNotExist"
          then (if is_empty values
              then []
              else field_error forbidden (child "values" ∷ path)
                  "may not be specified when `operator` is 'Exists' or 'DoesNotExist'"
                ∷ [])
          else (if operator == "Gt" || operator == "Lt"
              then (if eqb (length values) 1
                  then []
                  else field_error required (child "values" ∷ path)
                      "must be specified single value when `operator` is 'Lt' or 'Gt'"
                    ∷ [])
              else field_error invalid (child "operator" ∷ path) "not a valid selector operator"
                ∷ []))

  pub validate_node_selector_requirement : NodeSelectorRequirement → Bool → FieldPath → ErrorList
  validate_node_selector_requirement rq allow_invalid path =
      let errs =
        operator_errors rq.operator rq.values path
        ++ validate_label_name rq.key (child "key" ∷ path) in
      if allow_invalid then errs else label_values errs 0 rq.values (child "values" ∷ path)

  -- The loop over the values of a field requirement, with the one validator of the map.
  field_values : ℕ → List String → FieldPath → ErrorList
  field_values i [] path = []
  field_values i (value ∷ values) path =
      messages (name_is_dns_subdomain value false) (index i ∷ child "values" ∷ path)
      ++ field_values (i + 1) values path

  -- `nodeFieldSelectorValidators` has the one key "metadata.name".
  pub validate_node_field_selector_requirement : NodeSelectorRequirement → FieldPath → ErrorList
  validate_node_field_selector_requirement req path =
      (if req.operator == "In" || req.operator == "NotIn"
        then (if eqb (length req.values) 1
            then []
            else field_error required (child "values" ∷ path)
                "must be only one value when `operator` is 'In' or 'NotIn' for node field selector"
              ∷ [])
        else field_error invalid (child "operator" ∷ path) "not a valid selector operator" ∷ [])
      ++ (if req.key == "metadata.name"
          then field_values 0 req.values path
          else field_error invalid (child "key" ∷ path) "not a valid field selector key" ∷ [])

  expressions : ℕ → List NodeSelectorRequirement → Bool → FieldPath → ErrorList
  expressions j [] allow_invalid path = []
  expressions j (req ∷ reqs) allow_invalid path =
      validate_node_selector_requirement req allow_invalid
        (index j ∷ child "matchExpressions" ∷ path)
      ++ expressions (j + 1) reqs allow_invalid path

  fields : ℕ → List NodeSelectorRequirement → FieldPath → ErrorList
  fields j [] path = []
  fields j (req ∷ reqs) path =
      validate_node_field_selector_requirement req (index j ∷ child "matchFields" ∷ path)
      ++ fields (j + 1) reqs path

  pub validate_node_selector_term : NodeSelectorTerm → Bool → FieldPath → ErrorList
  validate_node_selector_term term allow_invalid path =
      expressions 0 term.match_expressions allow_invalid path ++ fields 0 term.match_fields path

  terms : ℕ → List NodeSelectorTerm → Bool → FieldPath → ErrorList
  terms i [] allow_invalid path = []
  terms i (term ∷ rest) allow_invalid path =
      validate_node_selector_term term allow_invalid (index i ∷ path)
      ++ terms (i + 1) rest allow_invalid path

  pub validate_node_selector : NodeSelector → Bool → FieldPath → ErrorList
  validate_node_selector node_selector allow_invalid path =
      if is_empty node_selector.node_selector_terms
      then field_error required (child "nodeSelectorTerms" ∷ path)
          "must have at least one node selector term"
        ∷ []
      else terms 0 node_selector.node_selector_terms allow_invalid
          (child "nodeSelectorTerms" ∷ path)
