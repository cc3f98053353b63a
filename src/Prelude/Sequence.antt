-- ===== src/Prelude/Sequence.antt =====
-- The sequence of two handlers as a name that proofs see: what each part keeps, the whole keeps.
use mathlib.Core.Path.{◌≡◌, ap, sym, ◌∙◌}
use mathlib.Core.Logic.{inl, inr}
use wizpay_core.Prelude.Outcome
use wizpay_core.Prelude.Outcome.{
  Handler, Outcome, done, threw, bind_of_done, bind_of_threw, Outcome-cases,
}

infixl 5 ◌>>=◌ ◌>>◌
unfoldable pub ◌>>=◌ : {S A B : Type 0} → Handler S A → (A → Handler S B) → Handler S B
m >>= f = Outcome.◌>>=◌ m f

abbrev pub ◌>>◌ : {S A B : Type 0} → Handler S A → Handler S B → Handler S B
m >> k = m >>= λ _. k

-- A sequence that returned has returned at each of its parts.
pub both_returned :
    {S A B P : Type 0} (m : Handler S A) (f : A → Handler S B) (s : S) {s' : S} {b : B}
    → (m >>= f) s ≡ (s', done b)
    → ((t : S) (a : A) → m s ≡ (t, done a) → f a t ≡ (s', done b) → P)
    → P
unfolding ◌>>=◌
both_returned m f s h k = elim (Outcome-cases (m s).1) [
  | inl (a, e) ↦
      let here : m s ≡ ((m s).0, done a) = ap (λ o. ((m s).0, o)) e in
      k (m s).0 a here (sym (bind_of_done m f s here) ∙ h)
  | inr (x, e) ↦
      let here : m s ≡ ((m s).0, threw x) = ap (λ o. ((m s).0, o)) e in
      let clash = ap (λ r. r.1) (sym (bind_of_threw m f s here) ∙ h) in cc
]
