-- ===== src/Payroll/Tests.antt =====
-- Runs of the split of a payroll, and the theorems at those inputs.
use wizpay_core.Prelude.{
  ◌≤◌, ◌*◌, ◌+◌, length, ℕ, ◌≡◌, refl, String, List, [], ◌∷◌, sum_by, All, arith,
}
use wizpay_core.Payroll.{
  Recipient, Batch, units, split_into_batches, calculate_approval_requirement,
  same_token_approval_amount_with_fee,
}
use wizpay_core.Payroll.Batches.{IsBatch, IsNumbered, split_into_batches-AreBatches}
use wizpay_core.Payroll.Sums.{sum-split_into_batches}
use wizpay_core.Payroll.Funding.{payout, approval_bounds}

abbrev paid : String → ℕ → Recipient
paid token n = record { address = "0x01"; amount = "1"; amount_units = n; target_token = token }

abbrev three : List Recipient
three = paid "USDC" 1000000 ∷ paid "EURC" 7 ∷ paid "USDC" 399 ∷ []

abbrev usdc_batch : Batch
usdc_batch = record {
  index = 0;
  recipients = paid "USDC" 1000000 ∷ paid "USDC" 399 ∷ [];
  total_amount = 1000399;
}

abbrev eurc_batch : Batch
eurc_batch = record { index = 1; recipients = paid "EURC" 7 ∷ []; total_amount = 7 }

split_tests :
    (split_into_batches three ≡ usdc_batch ∷ eurc_batch ∷ [])
    × (same_token_approval_amount_with_fee three "USDC" 25 ≡ 1002899)
    × (calculate_approval_requirement eurc_batch "USDC" ≡ 7)
unfolding split_into_batches same_token_approval_amount_with_fee calculate_approval_requirement
split_tests = (refl, refl, refl)

split_into_batches-AreBatches_example :
    All IsBatch (split_into_batches three) × IsNumbered 0 (split_into_batches three)
split_into_batches-AreBatches_example = split_into_batches-AreBatches three

sum-split_into_batches_example :
    sum_by (λ (b : Batch). sum_by units 0 b.recipients) 0 (split_into_batches three) ≡ 1000406
unfolding sum_by
sum-split_into_batches_example = sum-split_into_batches units three

approval_bounds_example :
    (sum_by (payout "USDC") 0 three ≤ same_token_approval_amount_with_fee three "USDC" 25)
    × (10000 * same_token_approval_amount_with_fee three "USDC" 25
        ≤ 10025 * sum_by (payout "USDC") 0 three)
    × (10025 * sum_by (payout "USDC") 0 three
        ≤ 10000 * same_token_approval_amount_with_fee three "USDC" 25 + 9999 * length three)
approval_bounds_example = approval_bounds three "USDC" 25

eurc_batch-IsBatch : IsBatch eurc_batch
unfolding sum_by
eurc_batch-IsBatch = record {
  payable = record {
    nonempty = omega arith;
    small = omega arith;
    token = "EURC";
    one_token = (refl, tt);
  };
  total = refl;
}
