-- ===== src/Prelude/Outcome.antt =====
-- Handlers: a step on a state that returns a value or throws. What is written before a throw
-- stays written, as it does outside a database transaction; `atomic` is the transaction.
use Prim.Native.String.{String}
use mathlib.Core.Path.{◌≡◌, refl, ap}
use mathlib.Core.Logic.{◌⊎◌, inl, inr}
use mathlib.Core.Bool.{Bool, true, false}
use mathlib.Core.Option.{Option, none, some}

-- The exceptions by their HTTP class, with the machine-readable code where the code gives one.
pub data Error : Type 0 where
  not_found : Error
  bad_request : Error
  rejected : String → Error
  forbidden : String → Error
  gone : String → Error
  unprocessable : String → Error
  unavailable : String → Error
  conflict : String → Error
  protocol : String → Error
  failure : Error

pub data Outcome (A : Type 0) : Type 0 where
  done : A → Outcome A
  threw : Error → Outcome A

abbrev pub Handler : Type 0 → Type 0 → Type 0
Handler S A = S → S × Outcome A

infixl 5 ◌>>=◌ ◌>>◌
abbrev pub ◌>>=◌ : {S A B : Type 0} → Handler S A → (A → Handler S B) → Handler S B
◌>>=◌ m f s = let (s', r) = m s in elim r [ done a ↦ f a s' | threw e ↦ (s', threw e) ]

abbrev pub ◌>>◌ : {S A B : Type 0} → Handler S A → Handler S B → Handler S B
m >> k = m >>= λ _. k

abbrev pub return : {S A : Type 0} → A → Handler S A
return a s = (s, done a)

abbrev pub throw : {S A : Type 0} → Error → Handler S A
throw e s = (s, threw e)

-- `if (b) throw e;`
abbrev pub throw_if : {S : Type 0} → Bool → Error → Handler S (Unit {0})
throw_if true e s = (s, threw e)
throw_if false e s = (s, done tt)

abbrev pub when : {S : Type 0} → Bool → Handler S (Unit {0}) → Handler S (Unit {0})
when true m s = m s
when false m s = (s, done tt)

-- A database transaction: a throw undoes what was written.
abbrev pub atomic : {S A : Type 0} → Handler S A → Handler S A
atomic m s = let (s', r) = m s in elim r [ done a ↦ (s', done a) | threw e ↦ (s, threw e) ]

-- A lookup that throws on a missing row.
abbrev pub or_throw : {S A : Type 0} → Option A → Error → Handler S A
or_throw none e s = (s, threw e)
or_throw (some a) e s = (s, done a)

pub Outcome-cases :
    {A : Type 0} (r : Outcome A) → ((a : A) × (r ≡ done a)) ⊎ ((e : Error) × (r ≡ threw e))
Outcome-cases (done a) = inl (a, refl)
Outcome-cases (threw e) = inr (e, refl)

-- A handler that returns hands its state and its value on; one that throws ends there.
pub bind_of_done :
    {S A B : Type 0} (m : Handler S A) (f : A → Handler S B) (s : S) {s' : S} {a : A}
    → m s ≡ (s', done a)
    → (m >>= f) s ≡ f a s'
bind_of_done m f s e = ap (λ r. elim (r.1) [ done a ↦ f a r.0 | threw x ↦ (r.0, threw x) ]) e

pub bind_of_threw :
    {S A B : Type 0} (m : Handler S A) (f : A → Handler S B) (s : S) {s' : S} {x : Error}
    → m s ≡ (s', threw x)
    → (m >>= f) s ≡ (s', threw x)
bind_of_threw m f s e = ap (λ r. elim (r.1) [ done a ↦ f a r.0 | threw y ↦ (r.0, threw y) ]) e

-- A computation that reads and writes nothing, as a step.
abbrev pub lift : {S A : Type 0} → Outcome A → Handler S A
lift o s = (s, o)

pub lift-threw :
    {S A B : Type 0} (o : Outcome A) (f : A → Handler S B) (s : S) {x : Error}
    → o ≡ threw x
    → (lift o >>= f) s ≡ (s, threw x)
lift-threw o f s e = bind_of_threw (lift o) f s (ap (λ r. (s, r)) e)

-- `try`: what a step returns or throws, as a value.
abbrev pub attempt : {S A : Type 0} → Handler S A → Handler S (Outcome A)
attempt m s = let (s', r) = m s in (s', done r)
