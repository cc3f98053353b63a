-- ===== src/Swap/Receipt/Laws.antt =====
-- What a receipt that `verifySwapReceipt` accepts proves of the swap.
use wizpay_core.Prelude.{◌≤◌, ◌≡◌, ◌⊎◌, inl, inr, true, false, count, sum_by, arith, Bool-cases}
use wizpay_core.Prelude.Text.{same}
use wizpay_core.Prelude.Outcome.{done}
use wizpay_core.Swap.{Viem, usdc}
use wizpay_core.Swap.Receipt.{
  Receipt, Expected, Tally, no_tally, Evidence, scan, check_tally, require_address,
  verify_swap_receipt,
}
use wizpay_core.Swap.Receipt.Scan.{spends, spends_native, pays, is_swap, scan_sums}

-- What the logs show: one event of the expected swap, an output that is enough, and an input that is
-- exact, in the token that was sold.
abbrev pub IsPaid : Viem → Expected → Receipt → Type 0
IsPaid viem expected receipt =
    (count (is_swap viem expected) receipt.logs ≡ 1)
    × (expected.min_amount_out ≤ sum_by (pays viem expected) 0 receipt.logs)
    × (((viem.is_address_equal expected.token_in usdc ≡ true)
          × (sum_by (spends_native viem expected) 0 receipt.logs ≡ expected.transaction_value))
        ⊎ ((viem.is_address_equal expected.token_in usdc ≡ false)
            × (sum_by (spends viem expected) 0 receipt.logs ≡ expected.amount_in)))

check_tally_lem :
    (viem : Viem) (expected : Expected) (receipt : Receipt) (evidence : Evidence)
    → check_tally viem expected (scan viem expected receipt.logs no_tally) ≡ done evidence
    → IsPaid viem expected receipt
      × (expected.min_amount_out ≤ evidence.amount_out)
      × (evidence.token_in_spent ≡ expected.amount_in)
unfolding check_tally
check_tally_lem viem expected receipt evidence h =
    let tally : Tally = scan viem expected receipt.logs no_tally in
    let sums = scan_sums viem expected receipt.logs no_tally in
    elim (Bool-cases (viem.is_address_equal expected.token_in usdc)) [
      | inl native ↦
          ((ground arith, ground arith, inl (native, ground arith)), ground arith, ground arith)
      | inr token ↦
          ((ground arith, ground arith, inr (token, ground arith)), ground arith, ground arith)
    ]

-- A receipt that `verifySwapReceipt` accepts is that of a successful transaction on Arc Mainnet, with
-- the prepared data and native value, whose logs show one event of the expected swap, the exact input
-- leaving the wallet and at least the least output reaching the recipient, which is the wallet; the
-- evidence that is returned has such an output and that input.
pub verify_swap_receipt_sound :
    (viem : Viem) (expected : Expected) (receipt : Receipt) (evidence : Evidence)
    → verify_swap_receipt viem expected receipt ≡ done evidence
    → (receipt.chain_id ≡ 5042)
      × (receipt.succeeded ≡ true)
      × (viem.is_address_equal expected.wallet_address expected.recipient ≡ true)
      × (same (viem.lower receipt.input) (viem.lower expected.transaction_data) ≡ true)
      × (viem.big_int receipt.value ≡ expected.transaction_value)
      × IsPaid viem expected receipt
      × (expected.min_amount_out ≤ evidence.amount_out)
      × (evidence.token_in_spent ≡ expected.amount_in)
unfolding verify_swap_receipt require_address
verify_swap_receipt_sound viem expected receipt evidence h =
    let checked : check_tally viem expected (scan viem expected receipt.logs no_tally)
        ≡ done evidence =
      ground arith in
    let (paid, enough, exact_) = check_tally_lem viem expected receipt evidence checked in
    (ground arith, ground arith, ground arith, ground arith, ground arith, paid, enough, exact_)
