-- ===== src/Bridge/Attestation.antt =====
-- bridge/bridge-lifecycle.service.ts: fetching Circle's attestation of the burn, and what is stored
-- of it.
pub mod Laws
use Prim.Native.Char.{code}
use Prim.Native.String
use wizpay_core.Prelude.{
  ℕ, String, Bool, true, false, ◌&&◌, not, if◌then◌else◌, leb, ◌==◌, List, [], ◌∷◌, Option, none,
  some,
}
use wizpay_core.Prelude.Text.{same?, truthy, or_empty}
use wizpay_core.Prelude.Outcome.{
  Handler, Outcome, done, threw, Error, ◌>>=◌, ◌>>◌, throw_if, lift, conflict, unavailable,
}
use wizpay_core.Bridge.{
  waiting_for_attestation, attestation_ready, LifecycleResult, Row, Db, View, Runtime,
}
use wizpay_core.Bridge.Message.{Decoded, decode_cctp_v2_message}
use wizpay_core.Bridge.Evidence.{matches_bridge_attestation}
use wizpay_core.Bridge.Store.{required, update, ownership, view, attestation_mismatch}

-- An entry of `messages` in Circle's answer; a key of another type than text is `none`.
pub record IrisMessage : Type 0 where
  pub message : Option String
  pub attestation : Option String
  pub status : Option String
  pub delay_reason : Option String

-- What comes of the request: it fails, or is answered with an HTTP status and messages.
pub data Answer : Type 0 where
  unreachable : Answer
  answered : (status : ℕ) (messages : List IrisMessage) → Answer

pub data Fetched : Type 0 where
  not_indexed : Fetched
  pending : (status : String) (delay_reason : Option String) → Fetched
  attested : (message attestation : String) → Fetched

abbrev pub attestation_unavailable : Error
attestation_unavailable = unavailable "BRIDGE_ATTESTATION_UNAVAILABLE"

abbrev pub source_required : Error
source_required = conflict "BRIDGE_SOURCE_REQUIRED"

-- `typeof value === 'string' && value.startsWith('0x')`
abbrev pub starts_with_0x : Option String → Bool
starts_with_0x (some (String.◌∷◌ a (String.◌∷◌ b s))) = code a == b'0' && code b == b'x'
starts_with_0x value = false

abbrev status_or_unknown : Option String → String
status_or_unknown none = "unknown"
status_or_unknown (some status) = status

unfoldable pub read_message : IrisMessage → Fetched
read_message first =
    if same? first.status (some "complete")
      && starts_with_0x first.message
      && starts_with_0x first.attestation
    then attested (or_empty first.message) (or_empty first.attestation)
    else pending (status_or_unknown first.status) first.delay_reason

unfoldable pub fetch_attestation : Answer → Outcome Fetched
unfolding read_message
fetch_attestation unreachable = threw attestation_unavailable
fetch_attestation (answered status messages) =
    if status == 404
    then done not_indexed
    else if not (leb 200 status && leb status 299)
    then threw attestation_unavailable
    else (elim messages [ [] ↦ done not_indexed | first ∷ others ↦ done (read_message first) ])

abbrev pub set_waiting : LifecycleResult → String → Option String → Row → Row
set_waiting result status delay_reason row = record row {
  status = waiting_for_attestation;
  result = record result {
    attestation_status = some status;
    attestation_delay_reason = delay_reason;
  };
}

abbrev pub set_attested : LifecycleResult → String → String → Decoded → Row → Row
set_attested result message attestation decoded row = record row {
  status = attestation_ready;
  message_hash = some decoded.message_hash;
  nonce = some decoded.nonce;
  result = record result {
    attested_message = some message;
    attestation = some attestation;
    message_hash = some decoded.message_hash;
    nonce = some decoded.nonce;
    fee_executed = some decoded.fee_executed;
    mint_amount = some decoded.amount;
    attestation_status = some "complete";
    attestation_delay_reason = none;
  };
}

module _ (env : Runtime) where
  unfoldable pub store_fetched : String → Row → View → Fetched → Handler Db View
  store_fetched id row shown not_indexed = do
    updated ← update id (set_waiting row.result "not_indexed" none)
    lift (view env updated)
  store_fetched id row shown (pending status delay_reason) = do
    updated ← update id (set_waiting row.result status delay_reason)
    lift (view env updated)
  store_fetched id row shown (attested message attestation) = do
    decoded ← lift (decode_cctp_v2_message env message)
    throw_if (not (matches_bridge_attestation env shown.payload decoded none)) attestation_mismatch
    updated ← update id (set_attested row.result message attestation decoded)
    lift (view env updated)

  -- `refreshAttestation`, which `getAttestation` and `reattest` call.
  unfoldable pub refresh_attestation : String → String → Answer → Handler Db View
  refresh_attestation id wallet_address answer = do
    row ← required id
    lift (ownership env row wallet_address)
    shown ← lift (view env row)
    throw_if (not (truthy shown.result.source_transaction_hash)) source_required
    fetched ← lift (fetch_attestation answer)
    store_fetched id row shown fetched
