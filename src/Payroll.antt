-- ===== src/Payroll.antt =====
-- apps/backend/src/agents/payroll/payroll-batch.service.ts and the approval amount of
-- apps/backend/src/task/task.service.ts: recipients are grouped by token, cut into batches, and
-- summed. Amounts are `bigint` base units that validation has found positive: natural numbers.
pub mod Batches
pub mod Sums
pub mod Funding
mod Tests
use wizpay_core.Prelude.{
  ℕ, zero, suc, ◌+◌, ◌*◌, ◌/◌, String, Bool, true, false, not, List, [], ◌∷◌, ◌++◌, length, take,
  drop, sum_by, if◌then◌else◌, ◌==◌,
}
use wizpay_core.Prelude.Text.{same}

pub record Recipient : Type 0 where
  pub address : String
  pub amount : String
  pub amount_units : ℕ
  pub target_token : String

pub record Batch : Type 0 where
  pub index : ℕ
  pub recipients : List Recipient
  pub total_amount : ℕ

abbrev pub max_batch_size : ℕ
max_batch_size = 50

-- The `Map` of groups in the order in which their tokens were first met.
abbrev pub Groups : Type 0
Groups = List (String × List Recipient)

-- `group.push(recipient)`, or `groups.set(token, [recipient])` for a new token.
unfoldable pub add_to_group : Recipient → Groups → Groups
add_to_group r [] = (r.target_token, r ∷ []) ∷ []
add_to_group r ((token, rs) ∷ groups) =
    if same token r.target_token
    then (token, rs ++ r ∷ []) ∷ groups
    else (token, rs) ∷ add_to_group r groups

unfoldable pub group_from : Groups → List Recipient → Groups
group_from groups [] = groups
group_from groups (r ∷ rs) = group_from (add_to_group r groups) rs

-- `for (i = 0; i < length; i += 50) slice(i, i + 50)`, with the rest of the list for `i`. Each round
-- takes a recipient, so the length is fuel enough.
unfoldable pub chunks : ℕ → List Recipient → List (List Recipient)
chunks zero rs = []
chunks (suc fuel) [] = []
chunks (suc fuel) (r ∷ rs) =
    take max_batch_size (r ∷ rs) ∷ chunks fuel (drop max_batch_size (r ∷ rs))

abbrev pub units : Recipient → ℕ
units r = r.amount_units

unfoldable pub push_batches : List Batch → List (List Recipient) → List Batch
unfolding sum_by
push_batches batches [] = batches
push_batches batches (chunk ∷ more) =
    push_batches
      (batches
        ++ (record {
          index = length batches;
          recipients = chunk;
          total_amount = sum_by units 0 chunk;
        })
          ∷ [])
      more

unfoldable pub cut_groups : List Batch → Groups → List Batch
unfolding push_batches chunks
cut_groups batches [] = batches
cut_groups batches ((token, rs) ∷ groups) =
    cut_groups (push_batches batches (chunks (length rs) rs)) groups

unfoldable pub split_into_batches : List Recipient → List Batch
unfolding cut_groups group_from add_to_group
split_into_batches recipients = cut_groups [] (group_from [] recipients)

pub record Totals : Type 0 where
  pub total_amount : ℕ
  pub total_recipients : ℕ
  pub total_batches : ℕ

unfoldable pub calculate_totals : List Batch → Totals
unfolding sum_by
calculate_totals batches = record {
  total_amount = sum_by (λ b. b.total_amount) 0 batches;
  total_recipients = sum_by (λ b. length b.recipients) 0 batches;
  total_batches = length batches;
}

-- Recipients paid in the source token need no approval to the exchange.
unfoldable pub calculate_approval_requirement : Batch → String → ℕ
unfolding sum_by
calculate_approval_requirement batch source_token =
    sum_by (λ r. if same r.target_token source_token then 0 else r.amount_units) 0 batch.recipients

-- The amount and the fee of one recipient in `payrollSameTokenApprovalAmountWithFee`; the `continue`
-- of the loop adds nothing.
unfoldable pub funding : String → ℕ → Recipient → ℕ
funding source_token fee_bps r =
    if not (same r.target_token source_token)
    then 0
    else if r.amount_units == 0
    then 0
    else r.amount_units + r.amount_units * fee_bps / 10000

unfoldable pub same_token_approval_amount_with_fee : List Recipient → String → ℕ → ℕ
unfolding funding sum_by
same_token_approval_amount_with_fee recipients source_token fee_bps =
    sum_by (funding source_token fee_bps) 0 recipients
