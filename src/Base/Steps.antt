-- ===== src/Base/Steps.antt =====
-- Calls that change a state, and return or raise: what a call that raises has changed stays changed.
use mathlib.Core.Path.{◌≡◌, refl}
use media_bridge.Base.Outcome.{Result, ok, err}

abbrev pub Steps : Type 0 → Type 0 → Type 0 → Type 0
Steps E S A = S → Result E A × S

infixl 5 ◌>>=◌ ◌>>◌
abbrev pub ◌>>=◌ : {E S A B : Type 0} → Steps E S A → (A → Steps E S B) → Steps E S B
◌>>=◌ call next s = let (r, s') = call s in elim r [ ok a ↦ next a s' | err e ↦ (err e, s') ]

abbrev pub ◌>>◌ : {E S A B : Type 0} → Steps E S A → Steps E S B → Steps E S B
call >> next = call >>= λ _. next

abbrev pub pure : {E S A : Type 0} → A → Steps E S A
pure a s = (ok a, s)

abbrev pub fail : {E S A : Type 0} → E → Steps E S A
fail e s = (err e, s)

-- The parts of a chain that returned.
pub >>=-eq-ok :
    {E S A B : Type 0} (call : Steps E S A) (next : A → Steps E S B) (s s'' : S) {b : B}
    → (call >>= next) s ≡ (ok b, s'')
    → (a : A) × (s' : S) × (call s ≡ (ok a, s')) × (next a s' ≡ (ok b, s''))
>>=-eq-ok {E} {S} {A} {B} call next s s'' {b} h = parts (call s) refl h
  where
    parts :
        (p : Result E A × S)
        → call s ≡ p
        → ◌>>=◌ (λ _. p) next s ≡ (ok b, s'')
        → (a : A) × (s' : S) × (call s ≡ (ok a, s')) × (next a s' ≡ (ok b, s''))
    parts (ok a, s') e k = (a, s', e, k)
    parts (err x, s') e k = absurd (cc k)

-- A property of the state that a call keeps, whether it returns or raises.
abbrev pub Preserves : {E S A : Type 0} → (S → Type 0) → Steps E S A → Type 0
Preserves {S = S} P call = (s : S) → P s → P (call s).1

pub Preserves-bind :
    {E S A B : Type 0} (P : S → Type 0) (call : Steps E S A) (next : A → Steps E S B)
    → Preserves P call
    → ((a : A) → Preserves P (next a))
    → Preserves P (call >>= next)
Preserves-bind {E} {S} {A} P call next h k s p = go (call s) (h s p)
  where
    go : (r : Result E A × S) → P r.1 → P (◌>>=◌ (λ _. r) next s).1
    go (ok a, s') q = k a s' q
    go (err e, s') q = q

pub Preserves-then :
    {E S A B : Type 0} (P : S → Type 0) (call : Steps E S A) (next : Steps E S B)
    → Preserves P call
    → Preserves P next
    → Preserves P (call >> next)
Preserves-then P call next h k = Preserves-bind P call (λ _. next) h (λ _. k)
