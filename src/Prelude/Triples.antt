-- ===== src/Prelude/Triples.antt =====
-- What a function that may fail keeps, and what it has brought about when it succeeds.
use mathlib.Core.Path.{◌≡◌}
use mathlib.Core.Logic.{inl, inr}
use mathlib.Core.Bool.{Bool}
use Prim.Native.String.{String}
use device_network.Prelude.Results.{Result-cases, ok}
use device_network.Prelude.Exec.{Exec, ◌>>◌, wrapped, modify, gets, guarded, ◌>>=◌}

-- From a state with the first property, the function keeps the invariant on every path, and when it
-- succeeds the state has the last property.
pub record Triple {S : Type 0} (I P : S → Type 0) (m : Exec S (Unit {0})) (Q : S → Type 0)
    : Type 0 where
  pub keeps : (s : S) → P s → I (m s).1
  pub brings : (s : S) → P s → (m s).0 ≡ ok tt → Q (m s).1

module _ {S : Type 0} {I P Q R : S → Type 0} where
  pub then : {m k : Exec S (Unit {0})} → Triple I P m Q → Triple I Q k R → Triple I P (m >> k) R
  then {m} {k} a b = record {
    keeps = λ s p. elim (Result-cases (m s).0) [
      | inl (u, e) ↦ rw e (b.keeps (m s).1 (a.brings s p e))
      | inr (inl (t, e)) ↦ rw e (a.keeps s p)
      | inr (inr (inl e)) ↦ rw e (a.keeps s p)
      | inr (inr (inr e)) ↦ rw e (a.keeps s p)
    ];
    brings = λ s p f. elim (Result-cases (m s).0) [
      | inl (u, e) ↦ rw e (b.brings (m s).1 (a.brings s p e) (rw e at f))
      | inr (inl (t, e)) ↦ absurd (cc (rw e at f))
      | inr (inr (inl e)) ↦ absurd (cc (rw e at f))
      | inr (inr (inr e)) ↦ absurd (cc (rw e at f))
    ];
  }

module _ {S : Type 0} {I P Q : S → Type 0} where
  pub wrapping : (e : String) {m : Exec S (Unit {0})} → Triple I P m Q → Triple I P (wrapped e m) Q
  wrapping message {m} a = record {
    keeps = a.keeps;
    brings = λ s p f. elim (Result-cases (m s).0) [
      | inl (u, e) ↦ a.brings s p e
      | inr (inl (t, e)) ↦ absurd (cc (rw e at f))
      | inr (inr (inl e)) ↦ absurd (cc (rw e at f))
      | inr (inr (inr e)) ↦ absurd (cc (rw e at f))
    ];
  }

  -- From a state of which more is known.
  pub from :
      {P2 : S → Type 0} {m : Exec S (Unit {0})}
      → ((s : S) → P2 s → P s)
      → Triple I P m Q
      → Triple I P2 m Q
  from k a = record { keeps = λ s p. a.keeps s (k s p); brings = λ s p e. a.brings s (k s p) e }

  -- A change of the state that cannot fail, and one that is a call.
  pub modifying :
      (f : S → S) → ((s : S) → P s → I (f s)) → ((s : S) → P s → Q (f s)) → Triple I P (modify f) Q
  modifying f k q = record { keeps = k; brings = λ s p e. q s p }

  pub calling :
      (f : S → S) (outcome : S → Bool) (message : String)
      → ((s : S) → P s → I (f s))
      → ((s : S) → P s → Q (f s))
      → Triple I P (gets outcome >>= λ r. modify f >> guarded r message) Q
  calling f outcome message k q = record { keeps = k; brings = λ s p e. q s p }
