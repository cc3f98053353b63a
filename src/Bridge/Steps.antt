-- ===== src/Bridge/Steps.antt =====
-- The writes that bridge-lifecycle.service.ts makes to an intent's row, each under its conditions,
-- and sequences of them.
use mathlib.Core.List.{Memᴰ}
use wizpay_core.Prelude.{ℕ, ◌≡◌, String, Bool, true, false, Option, some}
use wizpay_core.Prelude.Text.{truthy, or_empty, same?}
use wizpay_core.Prelude.Outcome.{done}
use wizpay_core.Bridge.{Row, Runtime}
use wizpay_core.Bridge.Rows.{shown}
use wizpay_core.Bridge.Message.{Decoded, decode_cctp_v2_message, cctp_message_body}
use wizpay_core.Bridge.Evidence.{matches_bridge_attestation, ReceiptLog, is_expected_mint}
use wizpay_core.Bridge.Reports.{set_approval, set_source, set_destination, contradicts}
use wizpay_core.Bridge.Attestation.{set_waiting, set_attested}
use wizpay_core.Bridge.Destination.{
  is_attestation_ready, set_lease, set_submitted, set_completed, is_expired, Observation,
  expected_mint,
}

-- The transaction that was read proves the mint of the message that the row holds: the message is
-- that of the intent, and the transaction succeeded on the destination chain and logged its mint.
pub record Proven (env : Runtime) (row : Row) (seen : Observation) : Type 0 where
  pub decoded : Decoded
  pub is_decoded : decode_cctp_v2_message env (or_empty row.result.attested_message) ≡ done decoded
  pub matched : matches_bridge_attestation env row.payload decoded row.result.nonce ≡ true
  pub body : String
  pub is_body : cctp_message_body env (or_empty row.result.attested_message) ≡ done body
  pub on_chain : seen.chain_id ≡ row.payload.destination_chain_id
  pub succeeded : seen.status ≡ "success"
  pub recipient : String
  pub sent_to : seen.transaction_to ≡ some recipient
  pub is_recipient : env.is_address recipient ≡ true
  pub to_transmitter :
      env.is_address_equal
        (env.get_address recipient)
        row.payload.destination_message_transmitter_v2
      ≡ true
  pub log : ReceiptLog
  pub logged : Memᴰ log seen.logs
  pub minted : is_expected_mint env (expected_mint env (shown row) decoded body) log ≡ true

pub data Step (env : Runtime) : Row → Row → Type 0 where
  approve :
      {row : Row} (hash : String)
      → truthy row.result.approval_transaction_hash ≡ false
      → Step env row (set_approval row.result hash row)
  burn :
      {row : Row} (hash : String)
      → truthy row.result.source_transaction_hash ≡ false
      → Step env row (set_source row.result hash row)
  report :
      {row : Row} (hash message_hash : String)
      → truthy row.result.destination_transaction_hash ≡ false
      → contradicts env row.result message_hash ≡ false
      → Step env row (set_destination row.result hash message_hash row)
  wait :
      {row : Row} (status : String) (reason : Option String)
      → truthy row.result.source_transaction_hash ≡ true
      → Step env row (set_waiting row.result status reason row)
  attest :
      {row : Row} (message attestation : String) (decoded : Decoded)
      → truthy row.result.source_transaction_hash ≡ true
      → decode_cctp_v2_message env message ≡ done decoded
      → matches_bridge_attestation env row.payload decoded Option.none ≡ true
      → Step env row (set_attested row.result message attestation decoded row)
  authorize :
      {row : Row} (lease_id : String) (now : ℕ)
      → is_attestation_ready row.status ≡ true
      → Step env row (set_lease lease_id now row)
  submit :
      {row : Row} (lease_id hash message_hash : String) (now : ℕ)
      → truthy row.destination_lease_id ≡ true
      → same? row.destination_lease_id (some lease_id) ≡ true
      → is_expired row.destination_lease_expires_at now ≡ false
      → Step env row (set_submitted row.result hash message_hash now row)
  complete :
      {row : Row} (verified : Bool) (now : ℕ)
      → truthy row.result.attestation ≡ true
      → truthy row.result.attested_message ≡ true
      → truthy row.result.destination_transaction_hash ≡ true
      → (verified ≡ true → (seen : Observation) × Proven env row seen)
      → Step env row (set_completed row.result verified now row)

pub data Steps (env : Runtime) : Row → Row → Type 0 where
  over : {row : Row} → Steps env row row
  next : {a b c : Row} → Step env a b → Steps env b c → Steps env a c
