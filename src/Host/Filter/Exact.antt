-- ===== src/Host/Filter/Exact.antt =====
-- pkg/host/filter.go: what a CEL filter selects.
use device_network.Prelude.{
  String, ◌≡◌, sym, subst, Bool, true, false, List, [], ◌∷◌, inl, inr, In, if◌then◌else◌, ◌↔◌,
}
use device_network.Prelude.Results.{ok, >>=-eq-ok, ok-injective, wrap, wrap-eq-ok}
use device_network.Host.{Device}
use device_network.Host.Filter.{Cel, cel_program, eval, filter_devices, eval_devices}

module _ (c : Cel) where
  -- `d` stands among the devices and the program is true of it.
  abbrev pub Matches : c.Program → List Device → Device → Type 0
  Matches p devices d = In d devices × (eval c p d ≡ ok true)

  kept :
      (p : c.Program) (x : Device) (xs rest : List Device) (b : Bool)
      → eval c p x ≡ ok b
      → ((d : Device) → In d rest ↔ Matches p xs d)
      → (d : Device) → In d (if b then x ∷ rest else rest) ↔ Matches p (x ∷ xs) d
  kept p x xs rest true e h d = (
    λ i. elim i [
      | inl s ↦ (inl s, subst (λ y. eval c p y ≡ ok true) (sym s) e)
      | inr j ↦ let (a, b) = (h d).0 j in (inr a, b)
    ],
    λ (i, t). elim i [ inl s ↦ inl s | inr j ↦ inr ((h d).1 (j, t)) ],
  )
  kept p x xs rest false e h d = (
    λ i. let (a, b) = (h d).0 i in (inr a, b),
    λ (i, t). elim i [
      | inl s ↦
          let wrong : eval c p x ≡ ok true = subst (λ y. eval c p y ≡ ok true) s t in
          absurd (cc (e, wrong))
      | inr j ↦ (h d).1 (j, t)
    ],
  )

  pub filter_devices_iff :
      (p : c.Program) (devices : List Device) {out : List Device}
      → filter_devices c p devices ≡ ok out
      → (d : Device) → In d out ↔ Matches p devices d
  unfolding filter_devices
  filter_devices_iff p [] e d =
      subst (λ out. In d out ↔ Matches p [] d) (ok-injective e) (λ i. absurd i, λ h. absurd h.0)
  filter_devices_iff p (x ∷ xs) e d =
      let (b, one, more) = >>=-eq-ok (wrap "error evaluating CEL program" (eval c p x)) _ e in
      let (rest, others, same) = >>=-eq-ok (filter_devices c p xs) _ more in
      subst (λ out. In d out ↔ Matches p (x ∷ xs) d) (ok-injective same)
        (kept p x xs rest b (wrap-eq-ok _ (eval c p x) one) (filter_devices_iff p xs others) d)

  -- A successful EvalDevices has a compiled program for the expression, and returns exactly the
  -- devices of the list of which the program is true.
  pub eval_devices_iff :
      (expression : String) (devices : List Device) {out : List Device}
      → eval_devices c expression devices ≡ ok out
      → (p : c.Program) × (cel_program c expression ≡ ok p)
        × ((d : Device) → In d out ↔ Matches p devices d)
  unfolding eval_devices
  eval_devices_iff expression devices e =
      let (p, compiled, filtered) =
        >>=-eq-ok (wrap "error creating CEL program" (cel_program c expression)) _ e in
      (p, wrap-eq-ok _ (cel_program c expression) compiled, filter_devices_iff p devices filtered)
