-- ===== src/Host/Cache/Selected.antt =====
-- pkg/host/cache.go: what List returns for any selectors, those that fail included.
use device_network.Prelude.{
  String, ◌≡◌, refl, sym, subst, ◌∙◌, ◌↔◌, Option, none, some, List, [], ◌∷◌, In, Bool, true, inl,
  inr, if◌then◌else◌,
}
use device_network.Prelude.Results.{
  Result, ok, err, panic, unfinished, wrap, >>=-eq-ok, wrap-eq-ok, ok-injective,
}
use device_network.Prelude.Dict.{values}
use device_network.Api.{Selector, CelDeviceSelector}
use device_network.Host.{Device}
use device_network.Host.Filter.{Cel, cel_program, eval, filter_devices, eval_devices}
use device_network.Host.Filter.Exact.{eval_devices_iff}
use device_network.Host.Cache.{DeviceCache, evaluated, apply_selector, apply_selectors, list}

-- The program gives a Boolean for every device of a set.
abbrev pub Evaluates : (c : Cel) → c.Program → (Device → Type 0) → Type 0
Evaluates c p S = (x : Device) → S x → (b : Bool) × (eval c p x ≡ ok b)

-- What is left of a set of devices: those that the expression is true of, if it compiles and evaluates
-- on the whole set.
abbrev pub Left : Cel → Option CelDeviceSelector → (Device → Type 0) → Device → Type 0
Left c none S d = S d
Left c (some cel) S d =
    S d
    × ((p : c.Program)
        → cel_program c cel.expression ≡ ok p
        → Evaluates c p S
        → eval c p d ≡ ok true)

abbrev pub Survives : Cel → List Selector → (Device → Type 0) → Device → Type 0
Survives c [] S d = S d
Survives c (s ∷ selectors) S d = Survives c selectors (Left c s.cel S) d

module _ (c : Cel) where
  filter_devices-Evaluates :
      (p : c.Program) (ds : List Device) {out : List Device}
      → filter_devices c p ds ≡ ok out
      → Evaluates c p (λ x. In x ds)
  unfolding filter_devices
  filter_devices-Evaluates p [] e x i = elim i [ ]
  filter_devices-Evaluates p (y ∷ ds) e x i =
      let (b, one, more) = >>=-eq-ok (wrap "error evaluating CEL program" (eval c p y)) _ e in
      let (rest, others, same) = >>=-eq-ok (filter_devices c p ds) _ more in
      elim i [
        | inl s ↦ (b, subst (λ z. eval c p z ≡ ok b) (sym s) (wrap-eq-ok _ (eval c p y) one))
        | inr j ↦ filter_devices-Evaluates p ds others x j
      ]

  Evaluates-filter_devices :
      (p : c.Program) (ds : List Device)
      → Evaluates c p (λ x. In x ds)
      → (out : List Device) × (filter_devices c p ds ≡ ok out)
  unfolding filter_devices
  Evaluates-filter_devices p [] h = ([], refl)
  Evaluates-filter_devices p (y ∷ ds) h =
      let (b, one) = h y (inl refl) in
      let (rest, others) = Evaluates-filter_devices p ds (λ x i. h x (inr i)) in
      ((if b then y ∷ rest else rest), rw one (rw others refl))

  Evaluates-eval_devices :
      (expression : String) (p : c.Program) (ds : List Device)
      → cel_program c expression ≡ ok p
      → Evaluates c p (λ x. In x ds)
      → (out : List Device) × (eval_devices c expression ds ≡ ok out)
  unfolding eval_devices
  Evaluates-eval_devices expression p ds compiled h =
      let (out, e) = Evaluates-filter_devices p ds h in (out, rw compiled e)

  eval_devices-Evaluates :
      (expression : String) (p : c.Program) (ds : List Device) {out : List Device}
      → cel_program c expression ≡ ok p
      → eval_devices c expression ds ≡ ok out
      → Evaluates c p (λ x. In x ds)
  unfolding eval_devices
  eval_devices-Evaluates expression p ds compiled e =
      filter_devices-Evaluates p ds (rw compiled at e)

module _ (c : Cel) (order : List Device → List Device)
    (order_iff : (ds : List Device) (d : Device) → In d (order ds) ↔ In d ds) where
  selected :
      (cel : CelDeviceSelector) (ds : List Device) (S : Device → Type 0)
      (h : (d : Device) → In d ds ↔ S d) {out : List Device}
      → eval_devices c cel.expression (order ds) ≡ ok out
      → (d : Device) → In d out ↔ Left c (some cel) S d
  selected cel ds S h e d =
      let (p, compiled, matches) = eval_devices_iff c cel.expression (order ds) e in
      (
        λ i.
            let (a, t) = (matches d).0 i in
            (
              (h d).0 ((order_iff ds d).0 a),
              λ q program_ works.
                  subst (λ r. eval c r d ≡ ok true) (ok-injective (sym compiled ∙ program_)) t,
            ),
        λ (s, passes). (matches d).1 (
          (order_iff ds d).1 ((h d).1 s),
          passes p compiled (λ x i.
              eval_devices-Evaluates c cel.expression p (order ds) compiled e x
                ((order_iff ds x).1 ((h x).1 i))),
        ),
      )

  -- An evaluation that does not succeed was not of a program that evaluates on the whole set.
  passed_over :
      (cel : CelDeviceSelector) (ds : List Device) (S : Device → Type 0)
      (h : (d : Device) → In d ds ↔ S d)
      → ((out : List Device) → eval_devices c cel.expression (order ds) ≡ ok out → ⊥)
      → (d : Device) → In d ds ↔ Left c (some cel) S d
  passed_over cel ds S h fails d = (
    λ i. (
      (h d).0 i,
      λ p compiled works.
          let (out, e) =
            Evaluates-eval_devices c cel.expression p (order ds) compiled
              (λ x j. works x ((h x).0 ((order_iff ds x).0 j))) in
          absurd (fails out e),
    ),
    λ (s, passes). (h d).1 s,
  )

  apply_selector_iff :
      (o : Option CelDeviceSelector) (ds : List Device) (S : Device → Type 0)
      → ((d : Device) → In d ds ↔ S d)
      → (d : Device) → In d (apply_selector c order o ds) ↔ Left c o S d
  unfolding apply_selector evaluated
  apply_selector_iff none ds S h d = h d
  apply_selector_iff (some cel) ds S h d = go (eval_devices c cel.expression (order ds)) refl
    where
      go :
          (r : Result (List Device))
          → eval_devices c cel.expression (order ds) ≡ r
          → In d (evaluated c order r ds) ↔ Left c (some cel) S d
      go (ok out) e = selected cel ds S h e d
      go (err m) e = passed_over cel ds S h (λ out f. cc (e, f)) d
      go panic e = passed_over cel ds S h (λ out f. cc (e, f)) d
      go unfinished e = passed_over cel ds S h (λ out f. cc (e, f)) d

  apply_selectors_iff :
      (selectors : List Selector) (ds : List Device) (S : Device → Type 0)
      → ((d : Device) → In d ds ↔ S d)
      → (d : Device) → In d (apply_selectors c order selectors ds) ↔ Survives c selectors S d
  unfolding apply_selectors
  apply_selectors_iff [] ds S h d = h d
  apply_selectors_iff (s ∷ selectors) ds S h d =
      apply_selectors_iff selectors (apply_selector c order s.cel ds) (Left c s.cel S)
        (apply_selector_iff s.cel ds S h) d

  -- When an unsorted list shows exactly the devices of the set, then for any selectors List returns
  -- exactly the devices of the store that every selector in turn leaves. A selector with no expression
  -- leaves all. One whose expression compiles, and evaluates on every device that is left when its turn
  -- comes, leaves those that it is true of; one that fails to leaves all of them.
  pub list-Survives :
      (dc : DeviceCache) (selectors : List Selector) (d : Device)
      → In d (list c order dc selectors) ↔ Survives c selectors (λ x. In x (values dc.store)) d
  unfolding list
  list-Survives dc selectors d =
      let (there, back) =
        apply_selectors_iff selectors (values dc.store) (λ x. In x (values dc.store))
          (λ x. (λ i. i, λ i. i)) d in
      (λ i. there ((order_iff _ d).0 i), λ s. (order_iff _ d).1 (back s))
