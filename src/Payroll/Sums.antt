-- ===== src/Payroll/Sums.antt =====
-- What the batches of a payroll sum to: every measure of the recipients, amounts and fundings
-- included, is kept by the split, so no recipient is lost and none is paid twice.
use wizpay_core.Prelude.{
  ℕ, zero, suc, ◌+◌, ◌≤◌, ◌≡◌, inl, inr, List, [], ◌∷◌, ◌++◌, length, drop, arith, sum_by,
  sum_by-cons, sum_by-append, sum_by-take-drop, length-drop-le, Bool-cases,
}
use wizpay_core.Prelude.Text.{same}
use wizpay_core.Payroll.{
  Recipient, Batch, max_batch_size, Groups, add_to_group, group_from, chunks, units, push_batches,
  cut_groups, split_into_batches,
}

module _ (f : Recipient → ℕ) where
  abbrev measure : Batch → ℕ
  measure b = sum_by f 0 b.recipients

  abbrev sum_groups : Groups → ℕ
  sum_groups [] = 0
  sum_groups ((token, rs) ∷ groups) = sum_by f 0 rs + sum_groups groups

  abbrev sum_chunks : List (List Recipient) → ℕ
  sum_chunks [] = 0
  sum_chunks (c ∷ cs) = sum_by f 0 c + sum_chunks cs

  sum-add_to_group :
      (r : Recipient) (groups : Groups)
      → sum_groups (add_to_group r groups) ≡ f r + sum_groups groups
  unfolding add_to_group sum_by
  sum-add_to_group r [] = omega arith
  sum-add_to_group r ((token, rs) ∷ groups) = elim (Bool-cases (same token r.target_token)) [
    | inl here ↦ rw here (omega (arith, sum_by-append f rs (r ∷ []), sum_by-cons f r []))
    | inr there ↦ rw there (omega (arith, sum-add_to_group r groups))
  ]

  sum-group_from :
      (groups : Groups) (rs : List Recipient)
      → sum_groups (group_from groups rs) ≡ sum_groups groups + sum_by f 0 rs
  unfolding group_from sum_by
  sum-group_from groups [] = omega arith
  sum-group_from groups (r ∷ rs) = omega (
    arith,
    sum-group_from (add_to_group r groups) rs,
    sum-add_to_group r groups,
    sum_by-cons f r rs,
  )

  sum-chunks :
      (fuel : ℕ) (rs : List Recipient)
      → length rs ≤ fuel
      → sum_chunks (chunks fuel rs) ≡ sum_by f 0 rs
  unfolding chunks sum_by
  sum-chunks zero [] h = omega arith
  sum-chunks zero (r ∷ rs) h = absurd (omega arith)
  sum-chunks (suc fuel) [] h = omega arith
  sum-chunks (suc fuel) (r ∷ rs) h = omega (
    arith,
    sum-chunks fuel (drop max_batch_size (r ∷ rs)) (omega (arith, length-drop-le 49 rs)),
    sum_by-take-drop f max_batch_size (r ∷ rs),
  )

  sum-push_batches :
      (bs : List Batch) (cs : List (List Recipient))
      → sum_by measure 0 (push_batches bs cs) ≡ sum_by measure 0 bs + sum_chunks cs
  unfolding push_batches sum_by
  sum-push_batches bs [] = omega arith
  sum-push_batches bs (c ∷ cs) =
      let b : Batch = record {
        index = length bs;
        recipients = c;
        total_amount = sum_by units 0 c;
      } in
      omega (
        arith,
        sum-push_batches (bs ++ b ∷ []) cs,
        sum_by-append measure bs (b ∷ []),
        sum_by-cons measure b [],
      )

  sum-cut_groups :
      (bs : List Batch) (groups : Groups)
      → sum_by measure 0 (cut_groups bs groups) ≡ sum_by measure 0 bs + sum_groups groups
  unfolding cut_groups
  sum-cut_groups bs [] = omega arith
  sum-cut_groups bs ((token, rs) ∷ groups) = omega (
    arith,
    sum-cut_groups (push_batches bs (chunks (length rs) rs)) groups,
    sum-push_batches bs (chunks (length rs) rs),
    sum-chunks (length rs) rs (omega arith),
  )

-- Whatever is summed over the recipients, the batches sum to the same.
pub sum-split_into_batches :
    (f : Recipient → ℕ) (rs : List Recipient)
    → sum_by (λ (b : Batch). sum_by f 0 b.recipients) 0 (split_into_batches rs) ≡ sum_by f 0 rs
unfolding split_into_batches sum_by
sum-split_into_batches f rs =
    omega (arith, sum-cut_groups f [] (group_from [] rs), sum-group_from f [] rs)
