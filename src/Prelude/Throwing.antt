-- ===== src/Prelude/Throwing.antt =====
-- Pure code that may throw: a computation that throws ends there.
use mathlib.Core.Path.{◌≡◌, refl, ap, subst}
use mathlib.Core.Bool.{Bool, true, false}
use wizpay_core.Prelude.Outcome.{Outcome, done, threw, Error}

infixl 5 ◌>>=◌ ◌>>◌
abbrev pub ◌>>=◌ : {A B : Type 0} → Outcome A → (A → Outcome B) → Outcome B
r >>= f = elim r [ done a ↦ f a | threw e ↦ threw e ]

abbrev pub ◌>>◌ : {A B : Type 0} → Outcome A → Outcome B → Outcome B
r >> s = r >>= λ _. s

-- `if (b) throw e;`
abbrev pub refuse_if : Bool → Error → Outcome (Unit {0})
refuse_if true e = threw e
refuse_if false e = done tt

-- A computation that returned has returned at each of its parts.
pub returned :
    {A B P : Type 0} (r : Outcome A) (f : A → Outcome B) {b : B}
    → (r >>= f) ≡ done b
    → ((a : A) → r ≡ done a → f a ≡ done b → P)
    → P
returned (done a) f h k = k a refl h
returned (threw e) f h k = cc

pub not_refused :
    {B P : Type 0} (b : Bool) (e : Error) (s : Outcome B) {x : B}
    → (refuse_if b e >> s) ≡ done x
    → (b ≡ false → s ≡ done x → P)
    → P
not_refused true e s h k = cc
not_refused false e s h k = k refl h

-- What holds of a value that is returned holds of the value that a computation is known to return.
pub carry : {A : Type 0} (P : A → Type 0) {a b : A} → done a ≡ done b → P a → P b
carry P {a} {b} h p = subst P (ap (λ r. elim r [ done x ↦ x | threw e ↦ a ]) h) p
