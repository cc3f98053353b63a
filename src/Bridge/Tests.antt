-- ===== src/Bridge/Tests.antt =====
-- Runs of the bridge's handlers on one intent, and the theorems at those inputs.
use wizpay_core.Prelude.{
  ℕ, ◌*◌, ◌≤◌, ◌≡◌, refl, ap, String, Bool, true, false, List, [], ◌∷◌, none, some, find, count,
  update_where, arith,
}
use wizpay_core.Prelude.Text.{same, same_refl}
use wizpay_core.Prelude.Outcome.{done, threw}
use wizpay_core.Chain.{length, is_digit, is_0x_hex, trim}
use wizpay_core.Bridge.{
  BridgeStatus, verifying_destination, completed, Payload, LifecycleResult, Row, Db, Runtime,
}
use wizpay_core.Bridge.Message.{
  decode_cctp_v2_message, cctp_message_body, fields, read_number, slice_bytes, read_address,
  address_to_bytes32,
}
use wizpay_core.Bridge.Message.Encoding.{Content, IsContent, encode, pieces, decoded, decode-encode}
use wizpay_core.Bridge.Message.Layout.{hex_of}
use wizpay_core.Bridge.Creation.{create_intent, new_row, payload_of}
use wizpay_core.Bridge.Creation.Input.{
  CreateInput, FastAnswers, Accepted, check_input, route, read_amount, read_address as read_wallet,
  first_fee, assert_fast_ready, protocol_fee, is_canonical, is_units_text, allowance_subunits,
}
use wizpay_core.Bridge.Creation.Laws.{IsAccepted, check_input_sound, protocol_fee_least}
use wizpay_core.Bridge.Creation.Idempotency.{create_intent_again}
use wizpay_core.Bridge.Attestation.{Answer, answered, fetch_attestation, read_message}
use wizpay_core.Bridge.Refinement.{
  Request, ask_approval, ask_report, ask_verify, ask_attestation, ask_authorize, ask_submit, serve,
  Refines, serve-Refines,
}
use wizpay_core.Bridge.Quote.{
  quote, fast_quote, fast_fee, route_fee, fast_allowance, calculate_fast_protocol_fee,
  calculate_fast_max_fee, IsQuote, quote-IsQuote,
}
use wizpay_core.Bridge.Steps.{Proven}
use wizpay_core.Bridge.Laws.{run, IsSound}
use wizpay_core.Bridge.History.{Keeps, run-Keeps, run-IsSound}
use wizpay_core.Bridge.Proof.{serve_foreign, verify_destination_sound}
use wizpay_core.Bridge.Reopening.{CanReopen, reopening_keeps_verified}
use wizpay_core.Bridge.Rows.{HasRow, shown}
use wizpay_core.Bridge.Registry.{
  get_bridge_chain, bridge_chains, cctp_token_messenger_v2, cctp_message_transmitter_v2,
  assert_bridge_route, is_fast, get_bridge_finality_threshold,
}
use wizpay_core.Bridge.Evidence.{
  ReceiptLog, matches_bridge_attestation, destination_mint_receipt_matches, is_expected_mint,
  matches_cctp_v2_message_received,
}
use wizpay_core.Bridge.Store.{collides, required, update, ownership, view, intent_forbidden}
use wizpay_core.Bridge.Destination.{
  Observation, set_completed, verify_destination, prove_destination_receipt, destination_rpc,
  check_observation, is_proof, complete_bridge,
}

abbrev runtime : Runtime
runtime = record {
  is_address = λ s. true;
  get_address = λ s. s;
  is_address_equal = same;
  zero_address = "0x0000000000000000000000000000000000000000";
  is_hex = λ s. true;
  keccak256 = λ s. "0xk";
  lower = λ s. s;
  resources_available = true;
  arc_network_chain_id = 5042;
  arc_rpc_url = "https://rpc.arc.io";
  configured_rpc = λ n. none;
}

abbrev a_digits : String
a_digits = "1111111111111111111111111111111111111111"

abbrev an_address : String
an_address = "0x1111111111111111111111111111111111111111"

abbrev a_nonce : String
a_nonce = "00000000000000000000000000000000000000000000000000000000000000aa"

-- The message of a transfer of 5000000 units from Ethereum to Arc.
abbrev a_content : Content
a_content = record {
  version = 1;
  source_domain = 0;
  destination_domain = 26;
  nonce = a_nonce;
  sender = a_digits;
  recipient = a_digits;
  destination_caller = a_digits;
  min_finality_threshold = 1000;
  finality_threshold_executed = 1000;
  burn_version = 1;
  burn_token = a_digits;
  mint_recipient = a_digits;
  amount = 5000000;
  message_sender = a_digits;
  max_fee = 500;
  fee_executed = 500;
  expiration_block = 0;
  hook_data = "";
}

a_content-IsContent : IsContent a_content
a_content-IsContent = record {
  version = omega arith;
  source_domain = omega arith;
  destination_domain = omega arith;
  nonce = refl;
  sender = refl;
  recipient = refl;
  destination_caller = refl;
  min_finality_threshold = omega arith;
  finality_threshold_executed = omega arith;
  burn_version = omega arith;
  burn_token = refl;
  mint_recipient = refl;
  amount = omega arith;
  message_sender = refl;
  max_fee = omega arith;
  fee_executed = omega arith;
  expiration_block = omega arith;
}

decode-encode_example :
    decode_cctp_v2_message runtime (encode a_content) ≡ done (decoded a_content runtime)
decode-encode_example = decode-encode runtime a_content a_content-IsContent refl

a_message_length : length (encode a_content) ≡ 754
unfolding encode pieces hex_of
a_message_length = refl

abbrev a_message : String
a_message =
    "0x00000001000000000000001a00000000000000000000000000000000000000000000000000000000000000aa000000000000000000000000111111111111111111111111111111111111111100000000000000000000000011111111111111111111111111111111111111110000000000000000000000001111111111111111111111111111111111111111000003e8000003e8000000010000000000000000000000001111111111111111111111111111111111111111000000000000000000000000111111111111111111111111111111111111111100000000000000000000000000000000000000000000000000000000004c4b40000000000000000000000000111111111111111111111111111111111111111100000000000000000000000000000000000000000000000000000000000001f400000000000000000000000000000000000000000000000000000000000001f40000000000000000000000000000000000000000000000000000000000000000"

abbrev a_body : String
a_body =
    "0x000000010000000000000000000000001111111111111111111111111111111111111111000000000000000000000000111111111111111111111111111111111111111100000000000000000000000000000000000000000000000000000000004c4b40000000000000000000000000111111111111111111111111111111111111111100000000000000000000000000000000000000000000000000000000000001f400000000000000000000000000000000000000000000000000000000000001f40000000000000000000000000000000000000000000000000000000000000000"

abbrev source_hash : String
source_hash = "0xbbbbbbbbbbbbbbbbbbbbbbbbbbbbbbbbbbbbbbbbbbbbbbbbbbbbbbbbbbbbbbbb"

abbrev mint_hash : String
mint_hash = "0xcccccccccccccccccccccccccccccccccccccccccccccccccccccccccccccccc"

abbrev other_hash : String
other_hash = "0xdddddddddddddddddddddddddddddddddddddddddddddddddddddddddddddddd"

abbrev a_payload : Payload
a_payload = record {
  idempotency_key = "k1";
  source_code = "ETH-MAINNET";
  destination_code = "ARC-MAINNET";
  source_chain_id = 1;
  destination_chain_id = 5042;
  source_domain = 0;
  destination_domain = 26;
  source_usdc_address = an_address;
  destination_usdc_address = an_address;
  source_token_messenger_v2 = an_address;
  destination_token_messenger_v2 = an_address;
  destination_message_transmitter_v2 = an_address;
  wallet_address = an_address;
  recipient_address = an_address;
  destination_caller = an_address;
  amount = 5000000;
  max_fee = 500;
  min_finality_threshold = 1000;
}

abbrev a_result : Bool → LifecycleResult
a_result verified = record {
  approval_transaction_hash = none;
  source_transaction_hash = some source_hash;
  destination_transaction_hash = some mint_hash;
  message_hash = some "0xk";
  nonce = some "0x00000000000000000000000000000000000000000000000000000000000000aa";
  fee_executed = some 500;
  mint_amount = some 5000000;
  attested_message = some a_message;
  attestation = some "0xaa";
  completed_at = none;
  destination_submitted_at = none;
  destination_receipt_verified = verified;
  destination_verified_at = none;
  attestation_status = some "complete";
  attestation_delay_reason = none;
}

abbrev a_row : BridgeStatus → Bool → Row
a_row status verified = record {
  id = "b1";
  task_id = "t1";
  status = status;
  payload = a_payload;
  result = a_result verified;
  message_hash = some "0xk";
  nonce = none;
  destination_transaction_hash = some mint_hash;
  destination_lease_id = none;
  destination_lease_expires_at = none;
}

abbrev a_db : Row → Db
a_db row = record { rows = row ∷ []; tasks = record { id = "t1"; status = "bridge_intent" } ∷ [] }

a_db-HasRow :
    (status : BridgeStatus) (verified : Bool)
    → HasRow "b1" (a_db (a_row status verified)) (a_row status verified)
unfolding find count
a_db-HasRow status verified = record { there = refl; unique = omega arith }

abbrev a_log : ReceiptLog
a_log = record {
  address = an_address;
  topics = "0x00" ∷ [];
  decoded = some (record {
    caller = an_address;
    source_domain = 0;
    nonce = "0x00000000000000000000000000000000000000000000000000000000000000aa";
    sender = "0x0000000000000000000000001111111111111111111111111111111111111111";
    finality_threshold_executed = 1000;
    message_body = a_body;
  });
}

abbrev an_observation : Observation
an_observation = record {
  chain_id = 5042;
  transaction_to = some an_address;
  status = "success";
  logs = a_log ∷ [];
}

abbrev verifying : Row
verifying = a_row verifying_destination false

-- A receipt with the mint completes the intent, verified.
a_mint_is_verified :
    verify_destination runtime "b1" an_address (some an_observation) 7 (a_db verifying) ≡ (
      record {
        rows = set_completed verifying.result true 7 verifying ∷ [];
        tasks = record { id = "t1"; status = "completed" } ∷ [];
      },
      done (shown (set_completed verifying.result true 7 verifying)),
    )
unfolding verify_destination required ownership view get_bridge_chain bridge_chains
    prove_destination_receipt destination_rpc decode_cctp_v2_message fields read_number slice_bytes
    read_address matches_bridge_attestation check_observation cctp_message_body is_proof
    destination_mint_receipt_matches is_expected_mint matches_cctp_v2_message_received
    address_to_bytes32 complete_bridge update collides count find update_where is_digit
a_mint_is_verified = refl

abbrev an_input : CreateInput
an_input = record {
  idempotency_key = "k2";
  source_code = "ETH-MAINNET";
  destination_code = "ARC-MAINNET";
  wallet_address = an_address;
  recipient_address = an_address;
  amount = "5000000";
  max_fee = "650";
  min_finality_threshold = 1000;
}

abbrev some_answers : FastAnswers
some_answers = record {
  fees =
      record {
        source_domain = some 0;
        destination_domain = some 26;
        finality_threshold = some 1000;
        fee = some 130;
      }
      ∷ [];
  allowance = some "12.5";
}

-- An intent of five USDC whose Circle fee is 1.3 basis points.
abbrev accepted : Accepted
accepted = record {
  source = record {
    code = "ETH-MAINNET";
    chain_id = 1;
    domain = 0;
    usdc_address = "0xA0b86991c6218b36c1d19D4a2e9Eb0cE3606eB48";
    token_messenger_v2 = cctp_token_messenger_v2;
    message_transmitter_v2 = cctp_message_transmitter_v2;
    fast_transfer_source = true;
  };
  destination = record {
    code = "ARC-MAINNET";
    chain_id = 5042;
    domain = 26;
    usdc_address = "0x3600000000000000000000000000000000000000";
    token_messenger_v2 = cctp_token_messenger_v2;
    message_transmitter_v2 = cctp_message_transmitter_v2;
    fast_transfer_source = false;
  };
  wallet_address = an_address;
  recipient_address = an_address;
  amount = 5000000;
  max_fee = 650;
  threshold = 1000;
}

an_input_is_accepted : check_input runtime an_input some_answers ≡ done accepted
unfolding check_input route assert_bridge_route get_bridge_chain bridge_chains find
    get_bridge_finality_threshold is_fast assert_fast_ready first_fee protocol_fee read_amount
    read_wallet trim is_canonical is_units_text allowance_subunits
an_input_is_accepted = refl

check_input_sound_example : IsAccepted an_input some_answers accepted
check_input_sound_example =
    check_input_sound runtime an_input some_answers accepted an_input_is_accepted

protocol_fee_least_example :
    (5000000 * 130 ≤ protocol_fee 5000000 130 * 1000000)
    × ((fee : ℕ) → 5000000 * 130 ≤ fee * 1000000 → protocol_fee 5000000 130 ≤ fee)
protocol_fee_least_example = protocol_fee_least 5000000 130

create_intent_again_example :
    create_intent runtime an_input some_answers "b3" "t3"
      (create_intent runtime an_input some_answers "b2" "t2" (a_db verifying)).0
    ≡ create_intent runtime an_input some_answers "b2" "t2" (a_db verifying)
create_intent_again_example =
    create_intent_again runtime an_input some_answers "b2" "t2" "b3" "t3" (a_db verifying) same_refl

abbrev some_requests : List Request
some_requests =
    ask_approval an_address other_hash
    ∷ ask_report an_address mint_hash other_hash
    ∷ ask_verify an_address none 9
    ∷ []

serve-Refines_example :
    Refines runtime "b1" verifying
      (serve runtime "b1" (ask_approval an_address other_hash) (a_db verifying))
serve-Refines_example =
    serve-Refines runtime "b1" (a_db verifying) verifying (ask_approval an_address other_hash)
      (a_db-HasRow verifying_destination false)

run-Keeps_example :
    (after : Row) × HasRow "b1" (run runtime "b1" some_requests (a_db verifying)) after
    × Keeps verifying after
run-Keeps_example =
    run-Keeps runtime "b1" some_requests (a_db verifying) verifying
      (a_db-HasRow verifying_destination false)

new_db-HasRow :
    HasRow "b2"
      (a_db (new_row runtime "b2" "t2" (payload_of runtime "k2" accepted)))
      (new_row runtime "b2" "t2" (payload_of runtime "k2" accepted))
unfolding find count
new_db-HasRow = record { there = refl; unique = omega arith }

run-IsSound_example :
    (after : Row) × HasRow "b2"
      (run runtime "b2" some_requests
        (a_db (new_row runtime "b2" "t2" (payload_of runtime "k2" accepted))))
      after
    × IsSound runtime after
run-IsSound_example =
    run-IsSound runtime "b2" "t2" "k2" accepted some_requests
      (a_db (new_row runtime "b2" "t2" (payload_of runtime "k2" accepted))) new_db-HasRow

serve_foreign_example :
    serve runtime "b1" (ask_verify "0x2" none 9) (a_db verifying)
    ≡ (a_db verifying, threw intent_forbidden)
serve_foreign_example =
    serve_foreign runtime "b1" (a_db verifying) verifying (ask_verify "0x2" none 9)
      (a_db-HasRow verifying_destination false) refl

verify_destination_sound_example :
    (seen : Observation) × (some an_observation ≡ some seen) × Proven runtime verifying seen
verify_destination_sound_example =
    verify_destination_sound runtime "b1" an_address (a_db verifying) verifying
      (some an_observation) 7 (shown (set_completed verifying.result true 7 verifying))
      (a_db-HasRow verifying_destination false) refl (ap (λ r. r.1) a_mint_is_verified) refl

-- Circle's answer with the attested message.
abbrev an_answer : Answer
an_answer = answered 200 (
    record {
      message = some a_message;
      attestation = some "0xaa";
      status = some "complete";
      delay_reason = none;
    }
    ∷ [])

abbrev ended : Row
ended = a_row completed true

ended-CanReopen :
    CanReopen runtime "b1" (a_db ended) ended an_address "lease" other_hash other_hash an_answer 9
unfolding view get_bridge_chain bridge_chains find fetch_attestation read_message
    decode_cctp_v2_message fields read_number slice_bytes read_address matches_bridge_attestation
    is_digit is_0x_hex collides count
ended-CanReopen = record {
  own = refl;
  visible = refl;
  burnt = refl;
  message = a_message;
  attestation = "0xaa";
  fetched = refl;
  decoded = decoded a_content runtime;
  is_decoded = refl;
  matched = refl;
  lease = refl;
  hash_form = refl;
  message_hash_form = refl;
  own_message = refl;
  new_lease = refl;
  new_hashes = refl;
}

reopening_keeps_verified_example :
    (after : Row) × HasRow "b1"
      (run runtime "b1"
        (ask_attestation an_address an_answer
          ∷ ask_authorize an_address "lease" 9
          ∷ ask_submit an_address "lease" other_hash other_hash 9
          ∷ [])
        (a_db ended))
      after
    × (after.result.destination_transaction_hash ≡ some other_hash)
    × (after.result.destination_receipt_verified ≡ true)
reopening_keeps_verified_example =
    reopening_keeps_verified runtime "b1" an_address "lease" other_hash other_hash an_answer 9
      (a_db ended) ended (a_db-HasRow completed true) ended-CanReopen

quote-IsQuote_example : IsQuote some_answers (record {
  source_code = "ETH-MAINNET";
  destination_code = "ARC-MAINNET";
  fast = true;
  min_finality_threshold = 1000;
  amount = 5000000;
  protocol_fee = 650;
  max_fee_suggested = 780;
  receive_amount = 4999350;
  allowance_sufficient = some true;
})
unfolding quote fast_quote get_bridge_chain bridge_chains find get_bridge_finality_threshold is_fast
    fast_fee route_fee first_fee fast_allowance count is_canonical is_units_text allowance_subunits
    trim is_digit calculate_fast_protocol_fee calculate_fast_max_fee
quote-IsQuote_example =
    quote-IsQuote "ETH-MAINNET" "ARC-MAINNET" "5000000" some_answers _ (omega arith) refl
