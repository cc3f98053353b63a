-- ===== src/Bridge/Reports.antt =====
-- bridge/bridge-lifecycle.service.ts: what a wallet reports of the transactions that it has signed:
-- the approval, the burn and the mint.
pub mod Laws
use wizpay_core.Prelude.{String, Bool, true, false, ◌&&◌, not, if◌then◌else◌, Option, some}
use wizpay_core.Prelude.Text.{same, truthy, or_empty}
use wizpay_core.Prelude.Outcome.{Handler, ◌>>=◌, ◌>>◌, throw_if, lift}
use wizpay_core.Bridge.{
  approval_confirmed, source_confirmed, verifying_destination, LifecycleResult, Row, Db, View,
  Runtime,
}
use wizpay_core.Bridge.Store.{
  required, update, ownership, tx_hash, conflicts, repeats, view, bridge_hash_conflict,
  bridge_message_conflict,
}

-- The writes, with the result that was read before.
abbrev pub set_approval : LifecycleResult → String → Row → Row
set_approval result hash row = record row {
  status = approval_confirmed;
  result = record result { approval_transaction_hash = some hash };
}

abbrev pub set_source : LifecycleResult → String → Row → Row
set_source result hash row = record row {
  status = source_confirmed;
  result = record result { source_transaction_hash = some hash };
}

abbrev pub set_destination : LifecycleResult → String → String → Row → Row
set_destination result hash message_hash row = record row {
  status = verifying_destination;
  message_hash = some message_hash;
  destination_transaction_hash = some hash;
  result = record result {
    destination_transaction_hash = some hash;
    message_hash = some message_hash;
  };
}

module _ (env : Runtime) where
  -- The attested message has another hash.
  abbrev pub contradicts : LifecycleResult → String → Bool
  contradicts result message_hash =
      truthy result.attested_message
      && truthy result.message_hash
      && not (same (env.lower (or_empty result.message_hash)) (env.lower message_hash))

  unfoldable pub get_intent : String → String → Handler Db View
  get_intent id wallet_address = do
    row ← required id
    lift (ownership env row wallet_address)
    lift (view env row)

  -- The end of the three reports: a hash that is recorded is confirmed, a new one is written.
  unfoldable pub record_hash : String → Row → Option String → String → (Row → Row) → Handler Db View
  record_hash id row recorded hash set = do
    throw_if (conflicts env recorded hash) bridge_hash_conflict
    if repeats env recorded hash
        then lift (view env row)
        else (do updated ← update id set; lift (view env updated))

  unfoldable pub report_approval : String → String → String → Handler Db View
  report_approval id wallet_address transaction_hash = do
    row ← required id
    lift (ownership env row wallet_address)
    hash ← lift (tx_hash env transaction_hash)
    record_hash id row row.result.approval_transaction_hash hash (set_approval row.result hash)

  unfoldable pub report_source : String → String → String → Handler Db View
  report_source id wallet_address transaction_hash = do
    row ← required id
    lift (ownership env row wallet_address)
    hash ← lift (tx_hash env transaction_hash)
    record_hash id row row.result.source_transaction_hash hash (set_source row.result hash)

  unfoldable pub report_destination : String → String → String → String → Handler Db View
  report_destination id wallet_address transaction_hash message_hash = do
    row ← required id
    lift (ownership env row wallet_address)
    hash ← lift (tx_hash env transaction_hash)
    message ← lift (tx_hash env message_hash)
    shown ← lift (view env row)
    throw_if (contradicts shown.result message) bridge_message_conflict
    record_hash id row row.result.destination_transaction_hash hash
        (set_destination row.result hash message)
