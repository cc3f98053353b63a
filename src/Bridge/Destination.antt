-- ===== src/Bridge/Destination.antt =====
-- bridge/bridge-lifecycle.service.ts: the mint on the other chain: its lease, its hash and its proof.
pub mod Laws
use wizpay_core.Prelude.{
  ℕ, ◌+◌, String, Bool, true, false, ◌&&◌, ◌||◌, not, if◌then◌else◌, leb, ◌==◌, List, Option, none,
  some, update_where,
}
use wizpay_core.Prelude.Text.{same, same?, truthy, or_empty}
use wizpay_core.Prelude.Outcome.{
  Handler, Outcome, done, threw, Error, ◌>>=◌, ◌>>◌, return, throw, throw_if, lift, conflict,
  unavailable,
}
use text.Mathlib.Text.{starts_with}
use wizpay_core.Bridge.{
  BridgeStatus, attestation_ready, awaiting_destination_signature, verifying_destination, completed,
  LifecycleResult, Row, BridgeTask, Db, View, Runtime,
}
use wizpay_core.Bridge.Message.{
  Decoded, decode_cctp_v2_message, cctp_message_body, address_to_bytes32,
}
use wizpay_core.Bridge.Evidence.{
  matches_bridge_attestation, ReceiptLog, ExpectedMint, destination_mint_receipt_matches,
}
use wizpay_core.Bridge.Store.{
  required, update, ownership, tx_hash, view, attestation_required, attestation_mismatch,
}

abbrev pub lease_conflict : Error
lease_conflict = conflict "BRIDGE_LEASE_CONFLICT"

abbrev pub lease_expired : Error
lease_expired = conflict "BRIDGE_LEASE_EXPIRED"

abbrev pub destination_required : Error
destination_required = conflict "BRIDGE_DESTINATION_REQUIRED"

abbrev pub destination_mismatch : Error
destination_mismatch = conflict "BRIDGE_DESTINATION_MISMATCH"

abbrev pub destination_pending : Error
destination_pending = unavailable "BRIDGE_DESTINATION_PENDING"

-- DESTINATION_LEASE_TTL_MS
abbrev pub lease_ttl_ms : ℕ
lease_ttl_ms = 300000

abbrev pub is_attestation_ready : BridgeStatus → Bool
is_attestation_ready attestation_ready = true
is_attestation_ready status = false

abbrev pub set_lease : String → ℕ → Row → Row
set_lease lease_id now row = record row {
  status = awaiting_destination_signature;
  destination_lease_id = some lease_id;
  destination_lease_expires_at = some (now + lease_ttl_ms);
}

abbrev pub set_submitted : LifecycleResult → String → String → ℕ → Row → Row
set_submitted result hash message_hash now row = record row {
  status = verifying_destination;
  message_hash = some message_hash;
  destination_transaction_hash = some hash;
  destination_lease_id = none;
  destination_lease_expires_at = none;
  result = record result {
    destination_transaction_hash = some hash;
    message_hash = some message_hash;
    destination_submitted_at = some now;
  };
}

abbrev pub set_completed : LifecycleResult → Bool → ℕ → Row → Row
set_completed result verified now row = record row {
  status = completed;
  result = record result {
    completed_at = some now;
    destination_receipt_verified = verified || result.destination_receipt_verified;
    destination_verified_at = if verified then some now else result.destination_verified_at;
  };
}

-- `!expiresAt || expiresAt <= now`
abbrev pub is_expired : Option ℕ → ℕ → Bool
is_expired none now = true
is_expired (some expires) now = leb expires now

-- What the reader of the other chain answers for the transaction.
pub record Observation : Type 0 where
  pub chain_id : ℕ
  pub transaction_to : Option String
  pub status : String
  pub logs : List ReceiptLog

-- `tx.task.updateMany({ where: { id: row.taskId }, data: { status: 'completed' } })`
abbrev pub complete_task : String → Db → Db
complete_task task_id db = record db {
  tasks =
      update_where (λ task. same task.id task_id) (λ task. record task { status = "completed" })
        db.tasks;
}

module _ (env : Runtime) where
  open env use {is_address, get_address, is_address_equal}

  unfoldable pub authorize_destination : String → String → String → ℕ → Handler Db View
  authorize_destination id wallet_address new_lease_id now = do
    row ← required id
    lift (ownership env row wallet_address)
    shown ← lift (view env row)
    throw_if (not (is_attestation_ready shown.status)) attestation_required
    updated ← update id (set_lease new_lease_id now)
    lift (view env updated)

  unfoldable pub submit_destination :
      String → String → String → String → String → ℕ → Handler Db View
  submit_destination id wallet_address lease_id transaction_hash message_hash now = do
    row ← required id
    lift (ownership env row wallet_address)
    throw_if
        (not (truthy row.destination_lease_id)
          || not (same? row.destination_lease_id (some lease_id)))
        lease_conflict
    throw_if (is_expired row.destination_lease_expires_at now) lease_expired
    hash ← lift (tx_hash env transaction_hash)
    message ← lift (tx_hash env message_hash)
    updated ← update id (set_submitted row.result hash message now)
    lift (view env updated)

  -- `/^https?:\/\//`
  abbrev pub is_http_url : Option String → Bool
  is_http_url none = false
  is_http_url (some url) = starts_with url "http://" || starts_with url "https://"

  unfoldable pub destination_rpc : ℕ → Option String
  destination_rpc chain_id =
      if chain_id == 5042
      then (if env.arc_network_chain_id == 5042 then some env.arc_rpc_url else none)
      else if is_http_url (env.configured_rpc chain_id)
      then env.configured_rpc chain_id
      else none

  abbrev pub is_to : Option String → String → Bool
  is_to none transmitter = false
  is_to (some to) transmitter =
      not (same to "") && is_address to && is_address_equal (get_address to) transmitter

  abbrev pub expected_mint : View → Decoded → String → ExpectedMint
  expected_mint shown decoded body = record {
    message_transmitter = shown.payload.destination_message_transmitter_v2;
    source_domain = decoded.source_domain;
    nonce = decoded.nonce;
    sender = address_to_bytes32 env decoded.sender;
    finality_threshold_executed = decoded.finality_threshold_executed;
    message_body = body;
  }

  -- `matched` of `proveDestinationReceipt`
  unfoldable pub is_proof : View → Decoded → String → Observation → Bool
  is_proof shown decoded body seen =
      seen.chain_id == shown.payload.destination_chain_id
      && same seen.status "success"
      && is_to seen.transaction_to shown.payload.destination_message_transmitter_v2
      && destination_mint_receipt_matches env seen.logs (expected_mint shown decoded body)

  -- The end of `proveDestinationReceipt`, where its reader's answer is `none` if a request fails.
  unfoldable pub check_observation : View → Decoded → String → Option Observation → Handler Db Bool
  check_observation shown decoded message none = throw destination_pending
  check_observation shown decoded message (some seen) = do
    body ← lift (cctp_message_body env message)
    throw_if (not (is_proof shown decoded body seen)) destination_mismatch
    return true

  unfoldable pub prove_destination_receipt : View → Option Observation → Handler Db Bool
  prove_destination_receipt shown answer =
      if not (truthy (destination_rpc shown.payload.destination_chain_id))
      then return false
      else (do
        throw_if
            (not (truthy shown.result.destination_transaction_hash)
              || not (truthy shown.result.attested_message))
            destination_required
        let message = or_empty shown.result.attested_message
        decoded ← lift (decode_cctp_v2_message env message)
        throw_if (not (matches_bridge_attestation env shown.payload decoded shown.result.nonce))
            attestation_mismatch
        check_observation shown decoded message answer)

  -- The transaction at the end of `verifyDestination`.
  unfoldable pub complete_bridge : String → Row → LifecycleResult → Bool → ℕ → Handler Db View
  complete_bridge id row result verified now = do
    λ db. (complete_task row.task_id db, done tt)
    updated ← update id (set_completed result verified now)
    lift (view env updated)

  unfoldable pub verify_destination : String → String → Option Observation → ℕ → Handler Db View
  verify_destination id wallet_address answer now = do
    row ← required id
    lift (ownership env row wallet_address)
    shown ← lift (view env row)
    throw_if (not (truthy shown.result.attestation) || not (truthy shown.result.attested_message))
        attestation_required
    throw_if (not (truthy shown.result.destination_transaction_hash)) destination_required
    verified ← prove_destination_receipt shown answer
    complete_bridge id row shown.result verified now
