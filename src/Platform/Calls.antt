-- ===== src/Platform/Calls.antt =====
-- Inversion of calls of the system.
use device_network.Prelude.{ℕ, String, ◌≡◌, refl, ◌⊎◌, Bool, true, false, Option, none, some, ◌∷◌}
use device_network.Prelude.Results.{Result, ok}
use device_network.Prelude.Exec.{guarded, required_ptr}
use device_network.Platform.{
  Platform, Sys, History, Effect, opened_ns, call, call_ok, closing, closed_ns,
}

pub call-eq-ok :
    {A : Type 0} (outcome : History → Option A) (e : Effect) (message : String) (h : History)
    {a : A} {t : History}
    → call outcome e message h ≡ (ok a, t)
    → (outcome h ≡ some a) × (e ∷ h ≡ t)
call-eq-ok {A} outcome e message h {a} {t} eq = go (outcome h) refl eq
  where
    go :
        (o : Option A)
        → outcome h ≡ o
        → required_ptr o message (e ∷ h) ≡ (ok a, t)
        → (outcome h ≡ some a) × (e ∷ h ≡ t)
    go none same k = cc
    go (some x) same k = (cc, cc)

pub call_ok-eq-ok :
    (outcome : History → Bool) (e : Effect) (message : String) (h : History) {v : Unit {0}}
    {t : History}
    → call_ok outcome e message h ≡ (ok v, t)
    → (outcome h ≡ true) × (e ∷ h ≡ t)
call_ok-eq-ok outcome e message h {v} {t} eq = go (outcome h) refl eq
  where
    go :
        (b : Bool)
        → outcome h ≡ b
        → guarded b message (e ∷ h) ≡ (ok v, t)
        → (outcome h ≡ true) × (e ∷ h ≡ t)
    go true same k = (same, cc)
    go false same k = cc

pub closing-eq-ok :
    {A : Type 0} (ns : ℕ) (m : Sys A) (h : History) {a : A} {t : History}
    → closing ns m h ≡ (ok a, t)
    → (u : History) × (m h ≡ (ok a, u)) × (closed_ns ns ∷ u ≡ t)
closing-eq-ok {A} ns m h {a} {t} eq = go (m h).0 (m h).1 refl eq
  where
    go :
        (r : Result A) (u : History)
        → ◌≡◌ {A = Result A × History} (m h) (r, u)
        → ◌≡◌ {A = Result A × History} (r, closed_ns ns ∷ u) (ok a, t)
        → (u : History) × (m h ≡ (ok a, u)) × (closed_ns ns ∷ u ≡ t)
    go r u same k = (u, cc, cc)

-- Nothing was done, the namespace could not be opened, or it was opened and at the end closed.
abbrev pub IsBalanced : Platform → String → History → History → Type 0
IsBalanced p path before after =
    (after ≡ before)
    ⊎ ((p.ns_from_path before path ≡ none) × (after ≡ opened_ns path ∷ before))
    ⊎ ((ns : ℕ) × (inner : History) × (p.ns_from_path before path ≡ some ns)
        × (after ≡ closed_ns ns ∷ inner))
