-- ===== src/Prelude/Exec.antt =====
-- Functions that act on a state and may fail. What was done before a failure stays done, so the
-- state comes back beside the error too.
use Prim.Native.String.{String}
use mathlib.Core.Path.{◌≡◌, refl}
use mathlib.Core.Bool.{Bool, true, false}
use mathlib.Core.Option.{Option, none, some}
use device_network.Prelude.Results
use device_network.Prelude.Results.{Result, ok, err, panic, unfinished}

abbrev pub Exec : Type 0 → Type 0 → Type 0
Exec S A = S → Result A × S

module _ {S A : Type 0} where
  abbrev pub pure : A → Exec S A
  pure a s = (ok a, s)

  abbrev pub fail : String → Exec S A
  fail e s = (err e, s)

  abbrev pub lift : Result A → Exec S A
  lift r s = (r, s)

  abbrev pub gets : (S → A) → Exec S A
  gets f s = (ok (f s), s)

  -- The error of a call, wrapped.
  abbrev pub wrapped : String → Exec S A → Exec S A
  wrapped e m s = let (r, t) = m s in (Results.wrap e r, t)

abbrev pub modify : {S : Type 0} → (S → S) → Exec S (Unit {0})
modify f s = (ok tt, f s)

abbrev pub guarded : {S : Type 0} → Bool → String → Exec S (Unit {0})
guarded b e = lift (Results.guard b e)

abbrev pub required_ptr : {S A : Type 0} → Option A → String → Exec S A
required_ptr p e = lift (Results.required p e)

abbrev pub deref_ptr : {S A : Type 0} → Option A → Exec S A
deref_ptr p = lift (Results.deref p)

module _ {S A B : Type 0} where
  abbrev pub continue : Result A → (A → Exec S B) → Exec S B
  continue (ok a) f s = f a s
  continue (err e) f s = (err e, s)
  continue panic f s = (panic, s)
  continue unfinished f s = (unfinished, s)

  infixl 5 ◌>>=◌
  abbrev pub ◌>>=◌ : Exec S A → (A → Exec S B) → Exec S B
  ◌>>=◌ m f s = continue (m s).0 f (m s).1

infixl 5 ◌>>◌
abbrev pub ◌>>◌ : {S B : Type 0} → Exec S (Unit {0}) → Exec S B → Exec S B
m >> k = m >>= λ _. k

-- Inversion of a successful bind.
module _ {S A B : Type 0} where
  continue-eq-ok :
      (r : Result A) (f : A → Exec S B) (u : S) {b : B} {t : S}
      → continue r f u ≡ (ok b, t)
      → (a : A) × (r ≡ ok a) × (f a u ≡ (ok b, t))
  continue-eq-ok (ok a) f u h = (a, refl, h)
  continue-eq-ok (err e) f u h = cc
  continue-eq-ok panic f u h = cc
  continue-eq-ok unfinished f u h = cc

  pub bind-eq-ok :
      (m : Exec S A) (f : A → Exec S B) (s : S) {b : B} {t : S}
      → (m >>= f) s ≡ (ok b, t)
      → (a : A) × (u : S) × (m s ≡ (ok a, u)) × (f a u ≡ (ok b, t))
  bind-eq-ok m f s h = let (a, e, k) = continue-eq-ok (m s).0 f (m s).1 h in (a, (m s).1, cc e, k)

module _ {S A : Type 0} where
  pub required_ptr-eq-ok :
      (o : Option A) (e : String) (s : S) {a : A} {t : S}
      → required_ptr o e s ≡ (ok a, t)
      → (o ≡ some a) × (s ≡ t)
  required_ptr-eq-ok none e s h = cc
  required_ptr-eq-ok (some x) e s h = (cc, cc)

  pub deref_ptr-eq-ok :
      (o : Option A) (s : S) {a : A} {t : S} → deref_ptr o s ≡ (ok a, t) → (o ≡ some a) × (s ≡ t)
  deref_ptr-eq-ok none s h = cc
  deref_ptr-eq-ok (some x) s h = (cc, cc)

  pub wrapped-eq-ok :
      (e : String) (m : Exec S A) (s : S) {a : A} {t : S}
      → wrapped e m s ≡ (ok a, t)
      → m s ≡ (ok a, t)
  wrapped-eq-ok e m s h = go (m s).0 (m s).1 h
    where
      go :
          (r : Result A) (u : S) {a : A} {t : S}
          → ◌≡◌ {A = Result A × S} (Results.wrap e r, u) (ok a, t)
          → ◌≡◌ {A = Result A × S} (r, u) (ok a, t)
      go (ok x) u k = k
      go (err x) u k = cc
      go panic u k = cc
      go unfinished u k = cc

  pub pure-eq-ok : (x : A) (s : S) {a : A} {t : S} → pure x s ≡ (ok a, t) → (x ≡ a) × (s ≡ t)
  pure-eq-ok x s h = (cc, cc)

pub guarded-eq-ok :
    {S : Type 0} (b : Bool) (e : String) (s : S) {v : Unit {0}} {t : S}
    → guarded b e s ≡ (ok v, t)
    → (b ≡ true) × (s ≡ t)
guarded-eq-ok true e s h = (refl, cc)
guarded-eq-ok false e s h = cc
