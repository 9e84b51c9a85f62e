-- ===== src/Validation/Network/Names.antt =====
-- apis/v1alpha1/validation/validation.go: the names of the selectors, and those that
-- configurations refer to.
use device_network.Prelude.{
  String, ◌≡◌, ◌↔◌, ◌⊎◌, inl, inr, true, List, [], ◌∷◌, ◌++◌, map, Bool-cases, contains, include,
  contains-In, In-contains, In, In-append_left, In-append_right, In-append_cases,
}
use device_network.Api.{DeviceSelector, DeviceConfiguration}
use device_network.Validation.Network.{
  list_selector_names_from, list_selector_names, insert_all, list_used_selector_names_from,
  list_used_selector_names,
}

-- The names of the selectors, and those that some configuration refers to.
abbrev pub selector_names : List DeviceSelector → List String
selector_names ss = map (λ s. s.name) ss

abbrev pub used_names : List DeviceConfiguration → List String
used_names [] = []
used_names (c ∷ cs) = c.device_selectors ++ used_names cs

include_cases : (k j : String) (xs : List String) → In j (include k xs) ↔ ((j ≡ k) ⊎ In j xs)
unfolding include
include_cases k j xs = elim (Bool-cases (contains k xs)) [
  | inl old ↦ rw old (λ h. inr h, λ h. elim h [ inl e ↦ rw e (contains-In k xs old) | inr i ↦ i ])
  | inr new ↦ rw new (λ h. h, λ h. h)
]

In-list_selector_names_from :
    (names : List String) (ss : List DeviceSelector) (k : String)
    → In k (list_selector_names_from names ss) ↔ (In k names ⊎ In k (selector_names ss))
unfolding list_selector_names_from
In-list_selector_names_from names [] k = (λ h. inl h, λ h. elim h [ inl i ↦ i | inr e ↦ absurd e ])
In-list_selector_names_from names (s ∷ ss) k = (
  λ h. elim ((In-list_selector_names_from (include s.name names) ss k).0 h) [
    | inl i ↦ elim ((include_cases s.name k names).0 i) [ inl e ↦ inr (inl e) | inr j ↦ inl j ]
    | inr i ↦ inr (inr i)
  ],
  λ h. (In-list_selector_names_from (include s.name names) ss k).1 (place h),
)
  where
    place :
        In k names ⊎ In k (selector_names (s ∷ ss))
        → In k (include s.name names) ⊎ In k (selector_names ss)
    place (inl i) = inl ((include_cases s.name k names).1 (inr i))
    place (inr (inl e)) = inl ((include_cases s.name k names).1 (inl e))
    place (inr (inr i)) = inr i

In-insert_all :
    (names ns : List String) (k : String) → In k (insert_all names ns) ↔ (In k names ⊎ In k ns)
unfolding insert_all
In-insert_all names [] k = (λ h. inl h, λ h. elim h [ inl i ↦ i | inr e ↦ absurd e ])
In-insert_all names (n ∷ ns) k = (
  λ h. elim ((In-insert_all (include n names) ns k).0 h) [
    | inl i ↦ elim ((include_cases n k names).0 i) [ inl e ↦ inr (inl e) | inr j ↦ inl j ]
    | inr i ↦ inr (inr i)
  ],
  λ h. (In-insert_all (include n names) ns k).1 (place h),
)
  where
    place : In k names ⊎ In k (n ∷ ns) → In k (include n names) ⊎ In k ns
    place (inl i) = inl ((include_cases n k names).1 (inr i))
    place (inr (inl e)) = inl ((include_cases n k names).1 (inl e))
    place (inr (inr i)) = inr i

In-list_used_selector_names_from :
    (names : List String) (cs : List DeviceConfiguration) (k : String)
    → In k (list_used_selector_names_from names cs) ↔ (In k names ⊎ In k (used_names cs))
unfolding list_used_selector_names_from
In-list_used_selector_names_from names [] k =
    (λ h. inl h, λ h. elim h [ inl i ↦ i | inr e ↦ absurd e ])
In-list_used_selector_names_from names (c ∷ cs) k = (
  λ h. elim ((In-list_used_selector_names_from (insert_all names c.device_selectors) cs k).0 h) [
    | inl i ↦ elim ((In-insert_all names c.device_selectors k).0 i) [
      | inl j ↦ inl j
      | inr j ↦ inr (In-append_left k c.device_selectors (used_names cs) j)
    ]
    | inr i ↦ inr (In-append_right k c.device_selectors (used_names cs) i)
  ],
  λ h. (In-list_used_selector_names_from (insert_all names c.device_selectors) cs k).1 (place h),
)
  where
    split :
        In k c.device_selectors ⊎ In k (used_names cs)
        → In k (insert_all names c.device_selectors) ⊎ In k (used_names cs)
    split (inl i) = inl ((In-insert_all names c.device_selectors k).1 (inr i))
    split (inr i) = inr i

    place :
        In k names ⊎ In k (used_names (c ∷ cs))
        → In k (insert_all names c.device_selectors) ⊎ In k (used_names cs)
    place (inl i) = inl ((In-insert_all names c.device_selectors k).1 (inl i))
    place (inr i) = split (In-append_cases k c.device_selectors (used_names cs) i)

-- The test against either set.
pub selector_name_iff :
    (ss : List DeviceSelector) (k : String)
    → (contains k (list_selector_names ss) ≡ true) ↔ In k (selector_names ss)
unfolding list_selector_names
selector_name_iff ss k = (
  λ h. elim ((In-list_selector_names_from [] ss k).0 (contains-In k _ h)) [
    | inl e ↦ absurd e
    | inr i ↦ i
  ],
  λ i. In-contains k _ ((In-list_selector_names_from [] ss k).1 (inr i)),
)

pub used_name_iff :
    (cs : List DeviceConfiguration) (k : String)
    → (contains k (list_used_selector_names cs) ≡ true) ↔ In k (used_names cs)
unfolding list_used_selector_names
used_name_iff cs k = (
  λ h. elim ((In-list_used_selector_names_from [] cs k).0 (contains-In k _ h)) [
    | inl e ↦ absurd e
    | inr i ↦ i
  ],
  λ i. In-contains k _ ((In-list_used_selector_names_from [] cs k).1 (inr i)),
)
