-- ===== src/Validation/Kubernetes/Accepts.antt =====
-- pkg/validation/kubernetes.go: which node selectors pass validation.
use device_network.Prelude.{
  ℕ, ◌+◌, String, ◌==◌, eq_iff, ◌≡◌, refl, ◌≢◌, ◌↔◌, ◌⊎◌, inl, inr, false, List, [], ◌∷◌, ◌++◌,
  length, is_empty, if◌then◌else◌, arith, Bool-cases, All, append-eq-nil_iff,
}
use device_network.Kubernetes.{NodeSelectorRequirement, NodeSelectorTerm, NodeSelector}
use device_network.Validation.{
  FieldPath, child, index, ErrorList, FieldError, field_error, invalid, required,
}
use device_network.Validation.Kubernetes.{
  LabelValidators, messages, append_messages, label_values, operator_errors,
  validate_node_selector_requirement, field_values, validate_node_field_selector_requirement,
  expressions, fields, validate_node_selector_term, terms, validate_node_selector,
}
use device_network.Validation.Kubernetes.Operators.{
  IsWellFormed, operator_errors_complete, operator_errors_sound, field_operator_iff,
}

pub parts_iff {κ} :
    {P Q : Type κ} (xs ys : ErrorList) → (xs ≡ []) ↔ P → (ys ≡ []) ↔ Q → (xs ++ ys ≡ []) ↔ (P × Q)
parts_iff xs ys p q = (
  λ e. let (a, b) = (append-eq-nil_iff xs ys).0 e in (p.0 a, q.0 b),
  λ h. (append-eq-nil_iff xs ys).1 (p.1 h.0, q.1 h.1),
)

module _ (v : LabelValidators) where
  open v use {validate_label_name, is_valid_label_value, name_is_dns_subdomain}

  messages_iff : (msgs : List String) (path : FieldPath) → (messages v msgs path ≡ []) ↔ (msgs ≡ [])
  unfolding messages
  messages_iff [] path = (λ e. refl, λ e. refl)
  messages_iff (m ∷ ms) path = (λ e. cc, λ e. cc)

  append_messages-ne-nil :
      (e : FieldError) (errs : ErrorList) (msgs : List String) (path : FieldPath)
      → append_messages v (e ∷ errs) msgs path ≢ []
  unfolding append_messages
  append_messages-ne-nil e errs [] path h = cc
  append_messages-ne-nil e errs (m ∷ ms) path h = append_messages-ne-nil _ _ ms path h

  append_messages_iff :
      (errs : ErrorList) (msgs : List String) (path : FieldPath)
      → (append_messages v errs msgs path ≡ []) ↔ ((errs ≡ []) × (msgs ≡ []))
  unfolding append_messages
  append_messages_iff errs [] path = (λ e. (e, refl), λ h. h.0)
  append_messages_iff [] (m ∷ ms) path =
      (λ e. absurd (append_messages-ne-nil _ _ ms path e), λ h. cc)
  append_messages_iff (x ∷ xs) (m ∷ ms) path =
      (λ e. absurd (append_messages-ne-nil _ _ ms path e), λ h. cc)

  label_values_iff :
      (errs : ErrorList) (i : ℕ) (values : List String) (path : FieldPath)
      → (label_values v errs i values path ≡ [])
        ↔ ((errs ≡ []) × All (λ s. is_valid_label_value s ≡ []) values)
  unfolding label_values
  label_values_iff errs i [] path = (λ e. (e, tt), λ h. h.0)
  label_values_iff errs i (s ∷ ss) path = (
    λ e.
        let (a, rest) =
          (label_values_iff (append_messages v errs (is_valid_label_value s) (index i ∷ path))
              (i + 1) ss path).0
            e in
        let (nil, good) =
          (append_messages_iff errs (is_valid_label_value s) (index i ∷ path)).0 a in
        (nil, (good, rest)),
    λ h.
        (label_values_iff (append_messages v errs (is_valid_label_value s) (index i ∷ path)) (i + 1)
            ss path).1
          (
            (append_messages_iff errs (is_valid_label_value s) (index i ∷ path)).1 (h.0, h.1.0),
            h.1.1,
          ),
  )

  field_values_iff :
      (i : ℕ) (values : List String) (path : FieldPath)
      → (field_values v i values path ≡ []) ↔ All (λ s. name_is_dns_subdomain s false ≡ []) values
  unfolding field_values
  field_values_iff i [] path = (λ e. tt, λ h. refl)
  field_values_iff i (s ∷ ss) path =
      parts_iff _ _ (messages_iff _ _) (field_values_iff (i + 1) ss path)

  -- A requirement on a field of the node: only its name, and one value.
  abbrev pub IsFieldRequirement : NodeSelectorRequirement → Type 0
  IsFieldRequirement req =
      (((req.operator ≡ "In") ⊎ (req.operator ≡ "NotIn")) × (length req.values ≡ 1))
      × ((req.key ≡ "metadata.name") × All (λ s. name_is_dns_subdomain s false ≡ []) req.values)

  field_key_iff :
      (key : String) (values : List String) (path : FieldPath)
      → ((if key == "metadata.name"
            then field_values v 0 values path
            else field_error invalid (child "key" ∷ path) "not a valid field selector key" ∷ [])
          ≡ [])
        ↔ ((key ≡ "metadata.name") × All (λ s. name_is_dns_subdomain s false ≡ []) values)
  field_key_iff key values path = elim (Bool-cases (key == "metadata.name")) [
    | inl e ↦ rw e (
      λ h. ((eq_iff key "metadata.name").0 e, (field_values_iff 0 values path).0 h),
      λ h. (field_values_iff 0 values path).1 h.1,
    )
    | inr e ↦ rw e (λ h. cc, λ h. absurd (ground (arith, e, eq_iff key "metadata.name", h.0)))
  ]

  IsFieldRequirement-iff :
      (req : NodeSelectorRequirement) (path : FieldPath)
      → (validate_node_field_selector_requirement v req path ≡ []) ↔ IsFieldRequirement req
  unfolding validate_node_field_selector_requirement
  IsFieldRequirement-iff req path =
      parts_iff _ _ (field_operator_iff req.operator req.values path)
        (field_key_iff req.key req.values path)

  fields_iff :
      (j : ℕ) (reqs : List NodeSelectorRequirement) (path : FieldPath)
      → (fields v j reqs path ≡ []) ↔ All IsFieldRequirement reqs
  unfolding fields
  fields_iff j [] path = (λ e. tt, λ h. refl)
  fields_iff j (r ∷ rs) path =
      parts_iff _ _ (IsFieldRequirement-iff r _) (fields_iff (j + 1) rs path)

  module _ (IsLabelName : String → Type 0)
      (label_name_iff : (s : String) (p : FieldPath)
        → (validate_label_name s p ≡ []) ↔ IsLabelName s) where
    -- A requirement on a label of the node.
    abbrev pub IsLabelRequirement : NodeSelectorRequirement → Type 0
    IsLabelRequirement rq =
        (IsWellFormed rq.operator rq.values × IsLabelName rq.key)
        × All (λ s. is_valid_label_value s ≡ []) rq.values

    abbrev pub IsTerm : NodeSelectorTerm → Type 0
    IsTerm term =
        All IsLabelRequirement term.match_expressions × All IsFieldRequirement term.match_fields

    abbrev pub IsNodeSelector : NodeSelector → Type 0
    IsNodeSelector ns = (ns.node_selector_terms ≢ []) × All IsTerm ns.node_selector_terms

    IsLabelRequirement-iff :
        (rq : NodeSelectorRequirement) (path : FieldPath)
        → (validate_node_selector_requirement v rq false path ≡ []) ↔ IsLabelRequirement rq
    unfolding validate_node_selector_requirement
    IsLabelRequirement-iff rq path = (
      λ e. let (a, b) = (label_values_iff _ 0 rq.values _).0 e in (base.0 a, b),
      λ h. (label_values_iff _ 0 rq.values _).1 (base.1 h.0, h.1),
    )
      where
        base :
            (operator_errors v rq.operator rq.values path
                ++ validate_label_name rq.key (child "key" ∷ path)
              ≡ [])
            ↔ (IsWellFormed rq.operator rq.values × IsLabelName rq.key)
        base =
            parts_iff _ _
              (
                operator_errors_sound v rq.operator rq.values path,
                operator_errors_complete v rq.operator rq.values path,
              )
              (label_name_iff rq.key _)

    expressions_iff :
        (j : ℕ) (reqs : List NodeSelectorRequirement) (path : FieldPath)
        → (expressions v j reqs false path ≡ []) ↔ All IsLabelRequirement reqs
    unfolding expressions
    expressions_iff j [] path = (λ e. tt, λ h. refl)
    expressions_iff j (r ∷ rs) path =
        parts_iff _ _ (IsLabelRequirement-iff r _) (expressions_iff (j + 1) rs path)

    terms_iff :
        (i : ℕ) (ts : List NodeSelectorTerm) (path : FieldPath)
        → (terms v i ts false path ≡ []) ↔ All IsTerm ts
    unfolding terms validate_node_selector_term
    terms_iff i [] path = (λ e. tt, λ h. refl)
    terms_iff i (t ∷ ts) path =
        parts_iff _ _
          (parts_iff _ _ (expressions_iff 0 t.match_expressions _) (fields_iff 0 t.match_fields _))
          (terms_iff (i + 1) ts path)

    terms_cases :
        (ts : List NodeSelectorTerm) (path : FieldPath)
        → ((if is_empty ts
              then field_error required
                  (child "nodeSelectorTerms" ∷ path)
                  "must have at least one node selector term"
                ∷ []
              else terms v 0 ts false (child "nodeSelectorTerms" ∷ path))
            ≡ [])
          ↔ ((ts ≢ []) × All IsTerm ts)
    terms_cases [] path = (λ e. cc, λ h. absurd (h.0 refl))
    terms_cases (t ∷ ts) path =
        (λ e. (λ n. cc, (terms_iff 0 (t ∷ ts) _).0 e), λ h. (terms_iff 0 (t ∷ ts) _).1 h.1)

    -- Given that the label name validator reports nothing just for label names, and with invalid
    -- label values not allowed, a node selector passes just when it has a term and every
    -- requirement of every term is well formed: In and NotIn with a value, Exists and DoesNotExist
    -- with none, Gt and Lt with one, a valid key and valid values for a label; In or NotIn, one
    -- valid value and the key metadata.name for a field.
    pub validate_node_selector_iff :
        (ns : NodeSelector) (path : FieldPath)
        → (validate_node_selector v ns false path ≡ []) ↔ IsNodeSelector ns
    unfolding validate_node_selector
    validate_node_selector_iff ns path = terms_cases ns.node_selector_terms path
