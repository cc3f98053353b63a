-- ===== src/Bridge/Attestation/Laws.antt =====
-- `refreshAttestation` of bridge-lifecycle.service.ts as an equation, on the row of the intent.
use wizpay_core.Prelude.{◌≡◌, String, not, none, arith, if◌then◌else◌, inl, inr}
use wizpay_core.Prelude.Text.{truthy}
use wizpay_core.Prelude.Outcome.{done, threw, Outcome, Outcome-cases}
use wizpay_core.Bridge.{Row, Db, Runtime, View}
use wizpay_core.Bridge.Message.{decode_cctp_v2_message}
use wizpay_core.Bridge.Evidence.{matches_bridge_attestation}
use wizpay_core.Bridge.Store.{owns, ownership, intent_forbidden, attestation_mismatch}
use wizpay_core.Bridge.Attestation.{
  Answer, Fetched, not_indexed, pending, attested, fetch_attestation, source_required, set_waiting,
  set_attested, store_fetched, refresh_attestation,
}
use wizpay_core.Bridge.Rows.{HasRow, stores, if_shown, shown, view-cases, required_lem, update_lem}

module _ (env : Runtime) (id : String) (db : Db) (row : Row) (is_there : HasRow id db row) where
  -- What is stored of Circle's answer: the wait, or the message that matches the intent.
  abbrev pub stored : Fetched → Db × Outcome View
  stored not_indexed = stores id db row is_there env (set_waiting row.result "not_indexed" none)
  stored (pending status reason) =
      stores id db row is_there env (set_waiting row.result status reason)
  stored (attested message attestation) = elim (decode_cctp_v2_message env message) [
    | threw e ↦ (db, threw e)
    | done decoded ↦
        if matches_bridge_attestation env row.payload decoded none
        then stores id db row is_there env (set_attested row.result message attestation decoded)
        else (db, threw attestation_mismatch)
  ]

  store_fetched_lem :
      (fetched : Fetched) → store_fetched env id row (shown row) fetched db ≡ stored fetched
  unfolding store_fetched
  store_fetched_lem not_indexed =
      ground (arith, update_lem id db row is_there (set_waiting row.result "not_indexed" none))
  store_fetched_lem (pending status reason) =
      ground (arith, update_lem id db row is_there (set_waiting row.result status reason))
  store_fetched_lem (attested message attestation) =
      elim (Outcome-cases (decode_cctp_v2_message env message)) [
        | inr (e, bad) ↦ ground arith
        | inl (decoded, good) ↦ ground (
          arith,
          update_lem id db row is_there (set_attested row.result message attestation decoded),
        )
      ]

  pub refresh_attestation_lem :
      (wallet : String) (answer : Answer)
      → refresh_attestation env id wallet answer db ≡ (
          if not (owns env row wallet)
          then (db, threw intent_forbidden)
          else if_shown env row db (
              if not (truthy row.result.source_transaction_hash)
              then (db, threw source_required)
              else (elim (fetch_attestation answer) [
                | threw e ↦ (db, threw e)
                | done fetched ↦ stored fetched
              ])))
  unfolding refresh_attestation ownership
  refresh_attestation_lem wallet answer = elim (view-cases env row) [
    | inr (e, hidden) ↦ ground (arith, required_lem id db row is_there)
    | inl seen ↦ elim (Outcome-cases (fetch_attestation answer)) [
      | inr (e, failed) ↦ ground (arith, required_lem id db row is_there)
      | inl (fetched, ok) ↦
          ground (arith, required_lem id db row is_there, store_fetched_lem fetched)
    ]
  ]
