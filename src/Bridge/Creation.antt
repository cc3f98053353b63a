-- ===== src/Bridge/Creation.antt =====
-- bridge/bridge-lifecycle.service.ts: the creation of an intent, its checks and its idempotency.
pub mod Input
pub mod Laws
pub mod Idempotency
use Prim.Native.String
use wizpay_core.Prelude.{
  ℕ, ◌+◌, ◌*◌, ◌/◌, ◌-◌, String, Bool, true, false, ◌&&◌, ◌||◌, not, if◌then◌else◌, ltb, leb, ◌==◌,
  [], ◌∷◌, ◌++◌, Option, none, some, find,
}
use wizpay_core.Prelude.Text.{same, take_chars, append}
use wizpay_core.Prelude.Outcome.{
  Handler, Outcome, done, threw, Error, ◌>>=◌, ◌>>◌, return, throw, throw_if, lift, rejected,
  conflict, unavailable, protocol, failure,
}
use wizpay_core.Chain.{trim, length, all_chars, is_digit, is_empty}
use wizpay_core.Bridge.Creation.Input.{CreateInput, FastAnswers, Accepted, check_input}
use wizpay_core.Bridge.{idle, Payload, LifecycleResult, Row, BridgeTask, Db, View, Runtime}
use wizpay_core.Bridge.Store.{view}

abbrev pub intent_conflict : Error
intent_conflict = conflict "BRIDGE_INTENT_CONFLICT"

abbrev pub no_result : LifecycleResult
no_result = record {
  approval_transaction_hash = none;
  source_transaction_hash = none;
  destination_transaction_hash = none;
  message_hash = none;
  nonce = none;
  fee_executed = none;
  mint_amount = none;
  attested_message = none;
  attestation = none;
  completed_at = none;
  destination_submitted_at = none;
  destination_receipt_verified = false;
  destination_verified_at = none;
  attestation_status = none;
  attestation_delay_reason = none;
}

module _ (env : Runtime) where
  open env use {is_address, get_address, is_address_equal, zero_address, lower}

  abbrev pub payload_of : String → Accepted → Payload
  payload_of key accepted = record {
    idempotency_key = key;
    source_code = accepted.source.code;
    destination_code = accepted.destination.code;
    source_chain_id = accepted.source.chain_id;
    destination_chain_id = accepted.destination.chain_id;
    source_domain = accepted.source.domain;
    destination_domain = accepted.destination.domain;
    source_usdc_address = get_address accepted.source.usdc_address;
    destination_usdc_address = get_address accepted.destination.usdc_address;
    source_token_messenger_v2 = get_address accepted.source.token_messenger_v2;
    destination_token_messenger_v2 = get_address accepted.destination.token_messenger_v2;
    destination_message_transmitter_v2 = get_address accepted.destination.message_transmitter_v2;
    wallet_address = accepted.wallet_address;
    recipient_address = accepted.recipient_address;
    destination_caller = zero_address;
    amount = accepted.amount;
    max_fee = accepted.max_fee;
    min_finality_threshold = accepted.threshold;
  }

  -- The existing intent of the key is for another transfer.
  abbrev pub differs : View → Accepted → Bool
  differs shown accepted =
      not (is_address_equal shown.payload.wallet_address accepted.wallet_address)
      || not (same shown.payload.source_code accepted.source.code)
      || not (same shown.payload.destination_code accepted.destination.code)
      || not (shown.payload.amount == accepted.amount)
      || not (same (lower shown.payload.recipient_address) (lower accepted.recipient_address))

  abbrev pub has_key : String → Row → Bool
  has_key key row = same row.payload.idempotency_key key

  abbrev pub new_row : String → String → Payload → Row
  new_row id task_id payload = record {
    id = id;
    task_id = task_id;
    status = idle;
    payload = payload;
    result = no_result;
    message_hash = none;
    nonce = none;
    destination_transaction_hash = none;
    destination_lease_id = none;
    destination_lease_expires_at = none;
  }

  -- The transaction at the end of `createIntent`. The database gives the two identifiers.
  unfoldable pub insert : String → String → Payload → Handler Db Row
  insert id task_id payload db = (
    record db {
      rows = db.rows ++ (new_row id task_id payload ∷ []);
      tasks = db.tasks ++ (record { id = task_id; status = "bridge_intent" } ∷ []);
    },
    done (new_row id task_id payload),
  )

  unfoldable pub create_intent : CreateInput → FastAnswers → String → String → Handler Db View
  create_intent input answers id task_id = do
    accepted ← lift (check_input env input answers)
    existing ← λ db. (db, done (find (has_key input.idempotency_key) db.rows))
    elim existing [
      | some row ↦ (do
        shown ← lift (view env row)
        throw_if (differs shown accepted) intent_conflict
        return shown)
      | none ↦ (do
        created ← insert id task_id (payload_of input.idempotency_key accepted)
        lift (view env created))
    ]
