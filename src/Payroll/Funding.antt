-- ===== src/Payroll/Funding.antt =====
-- The amounts that a payroll asks for: totals, approvals and fees.
use mathlib.Core.Path.{subst₂}
use wizpay_core.Prelude.{
  ℕ, suc, ◌+◌, ◌*◌, ◌/◌, ◌≤◌, ◌≡◌, refl, sym, ◌∙◌, inl, inr, String, List, [], ◌∷◌, length, arith,
  sum_by, sum_by-cons, sum_by-congr, All, Bool-cases, if◌then◌else◌, ◌==◌,
}
use wizpay_core.Prelude.Text.{same}
use wizpay_core.Payroll.{
  Recipient, Batch, units, split_into_batches, calculate_totals, calculate_approval_requirement,
  funding, same_token_approval_amount_with_fee,
}
use wizpay_core.Payroll.Sums.{sum-split_into_batches}
use wizpay_core.Payroll.Batches.{IsBatch, split_into_batches-AreBatches}

length-sum_by : (rs : List Recipient) → length rs ≡ sum_by (λ _. 1) 0 rs
unfolding sum_by
length-sum_by [] = refl
length-sum_by (r ∷ rs) = omega (arith, length-sum_by rs, sum_by-cons (λ (x : Recipient). 1) r rs)

totals_agree :
    (bs : List Batch)
    → All IsBatch bs
    → All (λ (b : Batch). b.total_amount ≡ sum_by units 0 b.recipients) bs
totals_agree [] h = tt
totals_agree (b ∷ bs) h = (h.0.total, totals_agree bs h.1)

lengths_agree :
    (bs : List Batch) → All (λ (b : Batch). length b.recipients ≡ sum_by (λ _. 1) 0 b.recipients) bs
lengths_agree [] = tt
lengths_agree (b ∷ bs) = (length-sum_by b.recipients, lengths_agree bs)

-- The totals of the batches are those of the recipients that were split.
pub calculate_totals-split :
    (rs : List Recipient)
    → ((calculate_totals (split_into_batches rs)).total_amount ≡ sum_by units 0 rs)
      × ((calculate_totals (split_into_batches rs)).total_recipients ≡ length rs)
unfolding calculate_totals
calculate_totals-split rs = (
  sum_by-congr (λ (b : Batch). b.total_amount) (λ (b : Batch). sum_by units 0 b.recipients)
        (split_into_batches rs)
        (totals_agree (split_into_batches rs) (split_into_batches-AreBatches rs).0)
      ∙ sum-split_into_batches units rs,
  sum_by-congr (λ (b : Batch). length b.recipients)
        (λ (b : Batch). sum_by (λ (_ : Recipient). 1) 0 b.recipients) (split_into_batches rs)
        (lengths_agree (split_into_batches rs))
      ∙ sum-split_into_batches (λ _. 1) rs
      ∙ sym (length-sum_by rs),
)

-- What the recipients paid in the source token receive.
abbrev pub payout : String → Recipient → ℕ
payout source_token r = if same r.target_token source_token then r.amount_units else 0

fee_bounds :
    (a fee_bps : ℕ)
    → (10000 * (a + a * fee_bps / 10000) ≤ (10000 + fee_bps) * a)
      × ((10000 + fee_bps) * a ≤ 10000 * (a + a * fee_bps / 10000) + 9999)
fee_bounds a fee_bps = omega arith

-- The bounds of `approval_bounds`, for a payout `p`, a funding `q` and a number of recipients `n`.
abbrev Bounded : ℕ → ℕ → ℕ → ℕ → Type 0
Bounded fee_bps p q n =
    (p ≤ q) × (10000 * q ≤ (10000 + fee_bps) * p) × ((10000 + fee_bps) * p ≤ 10000 * q + 9999 * n)

funding-Bounded :
    (source_token : String) (fee_bps : ℕ) (r : Recipient)
    → Bounded fee_bps (payout source_token r) (funding source_token fee_bps r) 1
unfolding funding
funding-Bounded source_token fee_bps r = elim (Bool-cases (same r.target_token source_token)) [
  | inl own ↦ rw own (elim (Bool-cases (r.amount_units == 0)) [
    | inl none_left ↦
        let gone : r.amount_units ≡ 0 = ground arith in
        rw gone (omega arith, omega arith, omega arith)
    | inr some_left ↦
        rw some_left (
          omega arith,
          (fee_bounds r.amount_units fee_bps).0,
          (fee_bounds r.amount_units fee_bps).1,
        )
  ])
  | inr other ↦ rw other (omega arith, omega arith, omega arith)
]

Bounded-suc :
    (fee_bps p q p' q' n : ℕ)
    → Bounded fee_bps p q 1
    → Bounded fee_bps p' q' n
    → Bounded fee_bps (p + p') (q + q') (suc n)
Bounded-suc fee_bps p q p' q' n h k = (omega arith, omega arith, omega arith)

sums-Bounded :
    (source_token : String) (fee_bps : ℕ) (rs : List Recipient)
    → Bounded fee_bps
        (sum_by (payout source_token) 0 rs)
        (sum_by (funding source_token fee_bps) 0 rs)
        (length rs)
unfolding sum_by
sums-Bounded source_token fee_bps [] = (omega arith, omega arith, omega arith)
sums-Bounded source_token fee_bps (r ∷ rs) =
    subst₂ (λ p q. Bounded fee_bps p q (suc (length rs)))
      (sym (sum_by-cons (payout source_token) r rs))
      (sym (sum_by-cons (funding source_token fee_bps) r rs))
      (Bounded-suc fee_bps (payout source_token r) (funding source_token fee_bps r)
        (sum_by (payout source_token) 0 rs) (sum_by (funding source_token fee_bps) 0 rs) (length rs)
        (funding-Bounded source_token fee_bps r) (sums-Bounded source_token fee_bps rs))

-- The amount that the approval of a payroll asks for lies between what its recipients of the source token
-- receive and that with the exact fee, and the rounding takes less than one base unit per recipient from
-- the fee.
pub approval_bounds :
    (rs : List Recipient) (source_token : String) (fee_bps : ℕ)
    → (sum_by (payout source_token) 0 rs
        ≤ same_token_approval_amount_with_fee rs source_token fee_bps)
      × (10000 * same_token_approval_amount_with_fee rs source_token fee_bps
          ≤ (10000 + fee_bps) * sum_by (payout source_token) 0 rs)
      × ((10000 + fee_bps) * sum_by (payout source_token) 0 rs
          ≤ 10000 * same_token_approval_amount_with_fee rs source_token fee_bps + 9999 * length rs)
unfolding same_token_approval_amount_with_fee
approval_bounds rs source_token fee_bps = sums-Bounded source_token fee_bps rs

abbrev exchanged : String → Recipient → ℕ
exchanged source_token r = if same r.target_token source_token then 0 else r.amount_units

exchanged-payout :
    (source_token : String) (rs : List Recipient)
    → sum_by (exchanged source_token) 0 rs + sum_by (payout source_token) 0 rs ≡ sum_by units 0 rs
unfolding sum_by
exchanged-payout source_token [] = omega arith
exchanged-payout source_token (r ∷ rs) = ground (
  arith,
  exchanged-payout source_token rs,
  sum_by-cons (exchanged source_token) r rs,
  sum_by-cons (payout source_token) r rs,
  sum_by-cons units r rs,
)

-- In a batch as `splitIntoBatches` makes them (IsBatch), the approval for the exchange and what is paid
-- in the source token make its total.
pub calculate_approval_requirement-split :
    (b : Batch) (source_token : String)
    → IsBatch b
    → calculate_approval_requirement b source_token + sum_by (payout source_token) 0 b.recipients
      ≡ b.total_amount
unfolding calculate_approval_requirement
calculate_approval_requirement-split b source_token h =
    exchanged-payout source_token b.recipients ∙ sym h.total
