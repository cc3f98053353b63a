-- ===== src/Swap/Tests.antt =====
-- Runs of the swap's checks on concrete amounts and a receipt, and the theorems at those inputs.
use wizpay_core.Prelude.{
  ◌+◌, ◌-◌, ◌*◌, ◌≤◌, ◌<◌, ◌≡◌, refl, String, true, false, [], ◌∷◌, count, sum_by,
}
use wizpay_core.Prelude.Text.{same}
use wizpay_core.Prelude.Outcome.{done, threw}
use wizpay_core.Chain.{is_0x_hex}
use wizpay_core.Swap.{Viem, usdc, eurc, pool_id, quoter, swap_executor, invalid_slippage}
use wizpay_core.Swap.Quote.{
  apply_slippage, calculate_min_hop_price_x36, Request, Observation, ValidatedQuote,
  observation_matches, validate_quote_observation, zero_for_one_from_tokens, require_canonical_uint,
  is_canonical_uint,
}
use wizpay_core.Swap.Quote.Laws.{validate_quote_observation_sound}
use wizpay_core.Swap.Receipt.{
  executed, undecodable, Receipt, Expected, transfer_topic, verify_swap_receipt, require_address,
  check_tally, scan, scan_log, scan_transfer, add_event, add_transfer, is_word,
}
use wizpay_core.Swap.Receipt.Laws.{IsPaid, verify_swap_receipt_sound}

-- Numbers are read as 950 000 everywhere, but for the input of the request, 1 000 000.
abbrev viem : Viem
viem = record {
  is_address = λ s. true;
  get_address = λ s. s;
  is_address_equal = same;
  zero_address = "0x0";
  lower = λ s. s;
  big_int = λ s. 950000;
  to_text = λ n. "1000000";
  topic_address = λ s. s;
}

abbrev a_request : Request
a_request = record {
  token_in = eurc;
  token_out = usdc;
  amount_in = 1000000;
  slippage_bps = 50;
  recipient = "w";
  deadline = 100;
}

abbrev an_observation : Observation
an_observation = record {
  chain_id = 5042;
  quoter_address = quoter;
  pool_id = pool_id;
  token_in = eurc;
  token_out = usdc;
  amount_in = "1000000";
  block_number = 7;
  amount_out = "950000";
  gas_estimate = "950000";
}

abbrev a_quote : ValidatedQuote
a_quote = record {
  zero_for_one = false;
  token_in = eurc;
  token_out = usdc;
  amount_in = 1000000;
  amount_out = 950000;
  gas_estimate = 950000;
  min_amount_out = 945250;
  min_hop_price_x36 = 945250000000000000000000000000000000;
  slippage_bps = 50;
}

abbrev word : String
word = "0x00000000000000000000000000000000000000000000000000000000000000aa"

abbrev executor_word : String
executor_word = "0x00000000000000000000000000000000000000000000000000000000000000bb"

abbrev receipt_viem : Viem
receipt_viem = record viem {
  topic_address = λ s. elim (same s word) [ true ↦ "w" | false ↦ swap_executor ];
}

abbrev expected : Expected
expected = record {
  wallet_address = "w";
  recipient = "w";
  token_in = eurc;
  token_out = usdc;
  amount_in = 950000;
  min_amount_out = 945250;
  transaction_data = "0xda";
  transaction_value = 950000;
}

abbrev a_receipt : Receipt
a_receipt = record {
  chain_id = 5042;
  succeeded = true;
  from = "w";
  to = swap_executor;
  input = "0xda";
  value = "950000";
  logs =
      record {
        address = eurc;
        topics = transfer_topic ∷ word ∷ executor_word ∷ [];
        data_ = "0xe7ef0";
        decoded = undecodable;
      }
      ∷ record {
        address = usdc;
        topics = transfer_topic ∷ executor_word ∷ word ∷ [];
        data_ = "0xe7ef0";
        decoded = undecodable;
      }
      ∷ record {
        address = swap_executor;
        topics = [];
        data_ = "0x";
        decoded = executed (record {
          caller = "w";
          token_in = eurc;
          token_out = usdc;
          amount_in = 950000;
          amount_out = 950000;
        });
      }
      ∷ [];
}

engine : Unit {0}
unfolding count sum_by is_0x_hex apply_slippage calculate_min_hop_price_x36
    validate_quote_observation zero_for_one_from_tokens require_canonical_uint is_canonical_uint
    verify_swap_receipt require_address check_tally scan scan_log scan_transfer add_event
    add_transfer is_word
engine = tt

quote_tests :
    (apply_slippage 950000 50 ≡ done 945250)
    × (apply_slippage 950000 501 ≡ threw invalid_slippage)
    × (calculate_min_hop_price_x36 1000000 950000 50 ≡ done 945250000000000000000000000000000000)
    × (validate_quote_observation viem a_request an_observation ≡ done a_quote)
unfolding engine
quote_tests = (refl, refl, refl, refl)

accepted :
    verify_swap_receipt receipt_viem expected a_receipt
    ≡ done (record { amount_out = 950000; token_in_spent = 950000 })
unfolding engine
accepted = refl

validate_quote_observation_sound_example :
    (observation_matches viem a_request an_observation ≡ true)
    × (eurc ≡ eurc)
    × (usdc ≡ usdc)
    × (a_quote.amount_in ≡ a_request.amount_in)
    × (zero_for_one_from_tokens viem eurc usdc ≡ done false)
    × (a_quote.amount_out ≡ viem.big_int "950000")
    × (0 < 945250)
    × (945250 ≤ 950000)
    × (950000 * (10000 - 50) < (945250 + 1) * 10000)
validate_quote_observation_sound_example =
    validate_quote_observation_sound viem a_request an_observation a_quote quote_tests.3

verify_swap_receipt_sound_example :
    (a_receipt.chain_id ≡ 5042)
    × (true ≡ true)
    × (same "w" "w" ≡ true)
    × (same "0xda" "0xda" ≡ true)
    × (viem.big_int a_receipt.value ≡ expected.transaction_value)
    × IsPaid receipt_viem expected a_receipt
    × (945250 ≤ 950000)
    × (expected.amount_in ≡ expected.amount_in)
verify_swap_receipt_sound_example =
    verify_swap_receipt_sound receipt_viem expected a_receipt
      (record { amount_out = 950000; token_in_spent = 950000 }) accepted
