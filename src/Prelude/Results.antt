-- ===== src/Prelude/Results.antt =====
-- The outcome of a fallible function: a value, an error with its message, a run-time panic (a nil
-- dereference, an index out of range), or a loop that has used up its fuel.
use Prim.Native.String.{String}
use mathlib.Core.Path.{◌≡◌, refl}
use mathlib.Core.Logic.{◌⊎◌, inl, inr}
use mathlib.Core.Bool.{Bool, true, false}
use mathlib.Core.Option.{Option, none, some}

pub data Result {ℓ} (A : Type ℓ) : Type ℓ where
  ok : A → Result A
  err : String → Result A
  panic : Result A
  unfinished : Result A

-- `if !condition { return err }`
abbrev pub guard : Bool → String → Result (Unit {0})
guard false message = err message
guard true message = ok tt

infixl 5 ◌>>=◌ ◌>>◌
-- What comes next, when there is a value: the other outcomes end a function.
abbrev pub ◌>>=◌ {ℓ κ} : {A : Type ℓ} {B : Type κ} → Result A → (A → Result B) → Result B
panic >>= next = panic
unfinished >>= next = unfinished
err message >>= next = err message
ok value >>= next = next value

-- `if p == nil { return err }`
abbrev pub required {ℓ} : {A : Type ℓ} → Option A → String → Result A
required none e = err e
required (some a) e = ok a

-- A dereference of a pointer.
abbrev pub deref {ℓ} : {A : Type ℓ} → Option A → Result A
deref none = panic
deref (some a) = ok a

-- The message is wrapped: `fmt.Errorf("...: %v", err)`. Only the outer text is kept.
abbrev pub wrap {ℓ} : {A : Type ℓ} → String → Result A → Result A
wrap e (ok a) = ok a
wrap e (err _) = err e
wrap e panic = panic
wrap e unfinished = unfinished

-- A function that succeeds has gone through each of its parts.
pub >>=-eq-ok {ℓ κ} :
    {A : Type ℓ} {B : Type κ} (part : Result A) (next : A → Result B) {b : B}
    → (part >>= next) ≡ ok b
    → (a : A) × (part ≡ ok a) × (next a ≡ ok b)
>>=-eq-ok panic next same = cc
>>=-eq-ok unfinished next same = cc
>>=-eq-ok (err message) next same = cc
>>=-eq-ok (ok value) next same = (value, refl, same)

pub ok-injective {ℓ} : {A : Type ℓ} {a b : A} → ok a ≡ ok b → a ≡ b
ok-injective e = cc

abbrev pub ◌>>◌ {ℓ} : {B : Type ℓ} → Result (Unit {0}) → Result B → Result B
check >> after = check >>= λ done. after

pub Result-cases {ℓ} :
    {A : Type ℓ} (r : Result A)
    → ((a : A) × (r ≡ ok a)) ⊎ ((m : String) × (r ≡ err m)) ⊎ (r ≡ panic) ⊎ (r ≡ unfinished)
Result-cases unfinished = inr (inr (inr refl))
Result-cases panic = inr (inr (inl refl))
Result-cases (err m) = inr (inl (m, refl))
Result-cases (ok a) = inl (a, refl)

pub wrap-eq-ok {ℓ} : {A : Type ℓ} (e : String) (m : Result A) {a : A} → wrap e m ≡ ok a → m ≡ ok a
wrap-eq-ok e (ok a) h = h
wrap-eq-ok e (err x) h = cc
wrap-eq-ok e panic h = cc
wrap-eq-ok e unfinished h = cc

pub required-eq-ok {ℓ} :
    {A : Type ℓ} (o : Option A) (e : String) {a : A} → required o e ≡ ok a → o ≡ some a
required-eq-ok none e h = cc
required-eq-ok (some a) e h = cc

pub guard-eq-ok : (b : Bool) (e : String) {u : Unit {0}} → guard b e ≡ ok u → b ≡ true
guard-eq-ok false e h = cc
guard-eq-ok true e h = refl

pub some-injective {ℓ} : {A : Type ℓ} {a b : A} → some a ≡ some b → a ≡ b
some-injective e = cc
