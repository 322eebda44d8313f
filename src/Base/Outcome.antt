-- ===== src/Base/Outcome.antt =====
-- A call that returns or raises, with the exceptions of type `E`.
use mathlib.Core.Path.{◌≡◌, refl}
use mathlib.Core.Logic.{◌⊎◌, inl, inr}
use mathlib.Core.Bool.{Bool, true, false}
use mathlib.Core.Option.{Option, none, some}
use native.Mathlib.Omega.{arith}

pub data Result (E A : Type 0) : Type 0 where
  ok : A → Result E A
  err : E → Result E A

infixl 5 ◌>>=◌ ◌>>◌
abbrev pub ◌>>=◌ : {E A B : Type 0} → Result E A → (A → Result E B) → Result E B
ok a >>= f = f a
err e >>= f = err e

abbrev pub ◌>>◌ : {E A B : Type 0} → Result E A → Result E B → Result E B
m >> k = m >>= λ _. k

-- `if test: raise e`
abbrev pub raise_if : {E : Type 0} → Bool → E → Result E (Unit {0})
raise_if true e = err e
raise_if false e = ok tt

abbrev pub or_raise : {E A : Type 0} → Option A → E → Result E A
or_raise none e = err e
or_raise (some a) e = ok a

-- `try: m except: raise e`
abbrev pub raise_as : {E F A : Type 0} → Result F A → E → Result E A
raise_as (ok a) e = ok a
raise_as (err _) e = err e

pub Result-cases :
    {E A : Type 0} (r : Result E A) → ((a : A) × (r ≡ ok a)) ⊎ ((e : E) × (r ≡ err e))
Result-cases (ok a) = inl (a, refl)
Result-cases (err e) = inr (e, refl)

abbrev pub is_some {ℓ} : {A : Type ℓ} → Option A → Bool
is_some none = false
is_some (some _) = true

-- The parts of a chain that returned.
pub >>=-eq-ok :
    {E A B : Type 0} (call : Result E A) (next : A → Result E B) {answer : B}
    → (call >>= next) ≡ ok answer
    → (given : A) × (call ≡ ok given) × (next given ≡ ok answer)
>>=-eq-ok (err raised) next chain = absurd (cc chain)
>>=-eq-ok (ok given) next chain = (given, refl, chain)

-- A guard that let its caller pass.
pub raise_if-ok : {E : Type 0} (b : Bool) (e : E) (u : Unit {0}) → raise_if b e ≡ ok u → b ≡ false
raise_if-ok true e u passed = absurd (cc passed)
raise_if-ok false e u passed = refl

pub or_raise-ok : {E A : Type 0} (o : Option A) (e : E) (a : A) → or_raise o e ≡ ok a → o ≡ some a
or_raise-ok none e a there = absurd (cc there)
or_raise-ok (some b) e a there = ground (arith, there)
