-- ===== src/Bridge/Proof.antt =====
-- What `verifyDestination` of bridge-lifecycle.service.ts establishes, and who may ask for what.
use wizpay_core.Prelude.{ℕ, ◌≡◌, inl, inr, String, true, false, Option, some, arith}
use wizpay_core.Prelude.Outcome.{done, threw}
use wizpay_core.Bridge.{Row, Db, Runtime, View}
use wizpay_core.Bridge.Store.{owns, intent_forbidden}
use wizpay_core.Bridge.Destination.{Observation, set_completed, verify_destination}
use wizpay_core.Bridge.Destination.Laws.{prove_destination_receipt-cases, verify_destination_lem}
use wizpay_core.Bridge.Reports.Laws.{report_approval_lem, report_source_lem, report_destination_lem}
use wizpay_core.Bridge.Attestation.Laws.{refresh_attestation_lem}
use wizpay_core.Bridge.Destination.Laws.{authorize_destination_lem, submit_destination_lem}
use wizpay_core.Bridge.Rows.{HasRow, view_result}
use wizpay_core.Bridge.Steps.{Proven}
use wizpay_core.Bridge.Refinement.{
  Request, ask_approval, ask_source, ask_attestation, ask_report, ask_authorize, ask_submit,
  ask_verify, serve,
}

abbrev pub wallet_of : Request → String
wallet_of (ask_approval wallet hash) = wallet
wallet_of (ask_source wallet hash) = wallet
wallet_of (ask_attestation wallet answer) = wallet
wallet_of (ask_report wallet hash message_hash) = wallet
wallet_of (ask_authorize wallet lease_id now) = wallet
wallet_of (ask_submit wallet lease_id hash message_hash now) = wallet
wallet_of (ask_verify wallet answer now) = wallet

-- A request by another wallet than the intent's, on an intent that is there once, throws and writes
-- nothing.
pub serve_foreign :
    (env : Runtime) (id : String) (db : Db) (row : Row) (request : Request)
    → HasRow id db row
    → owns env row (wallet_of request) ≡ false
    → serve env id request db ≡ (db, threw intent_forbidden)
serve_foreign env id db row (ask_approval wallet hash) h foreign =
    ground (arith, report_approval_lem env id db row h wallet hash)
serve_foreign env id db row (ask_source wallet hash) h foreign =
    ground (arith, report_source_lem env id db row h wallet hash)
serve_foreign env id db row (ask_attestation wallet answer) h foreign =
    ground (arith, refresh_attestation_lem env id db row h wallet answer)
serve_foreign env id db row (ask_report wallet hash message_hash) h foreign =
    ground (arith, report_destination_lem env id db row h wallet hash message_hash)
serve_foreign env id db row (ask_authorize wallet lease_id now) h foreign =
    ground (arith, authorize_destination_lem env id db row h wallet lease_id now)
serve_foreign env id db row (ask_submit wallet lease_id hash message_hash now) h foreign =
    ground (arith, submit_destination_lem env id db row h wallet lease_id hash message_hash now)
serve_foreign env id db row (ask_verify wallet answer now) h foreign =
    ground (arith, verify_destination_lem env id db row h wallet answer now)

-- `verifyDestination` marks an intent as verified only where the receipt proves its mint: where it
-- returns a verified intent that was not verified before, and is there once, the stored message is
-- that of the intent, and the transaction that was read succeeded on the destination chain, went to
-- its message transmitter, and shows the event of this message.
pub verify_destination_sound :
    (env : Runtime) (id wallet : String) (db : Db) (row : Row) (answer : Option Observation)
    (now : ℕ) (v : View)
    → HasRow id db row
    → row.result.destination_receipt_verified ≡ false
    → (verify_destination env id wallet answer now db).1 ≡ done v
    → v.result.destination_receipt_verified ≡ true
    → (seen : Observation) × (answer ≡ some seen) × Proven env row seen
verify_destination_sound env id wallet db row answer now v h before returned after =
    elim (prove_destination_receipt-cases env row answer db) [
      | inr (inl (proved, evidence)) ↦ evidence
      | inl blind ↦ ground (
        arith,
        verify_destination_lem env id db row h wallet answer now,
        view_result env (set_completed row.result false now row) v,
      )
      | inr (inr (e, failed)) ↦
          ground (arith, verify_destination_lem env id db row h wallet answer now)
    ]
