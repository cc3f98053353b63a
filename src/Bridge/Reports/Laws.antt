-- ===== src/Bridge/Reports/Laws.antt =====
-- The reports of bridge-lifecycle.service.ts as equations, on the row of the intent.
use wizpay_core.Prelude.{◌≡◌, String, not, ◌&&◌, Option, arith, if◌then◌else◌, inl, inr}
use wizpay_core.Prelude.Outcome.{threw, Outcome}
use wizpay_core.Chain.{is_0x_hex}
use wizpay_core.Bridge.{Row, Db, Runtime, View}
use wizpay_core.Bridge.Store.{
  owns, ownership, tx_hash, view, conflicts, repeats, intent_forbidden, invalid_hash,
  bridge_hash_conflict, bridge_message_conflict,
}
use wizpay_core.Bridge.Reports.{
  record_hash, report_approval, set_approval, report_source, set_source, report_destination,
  contradicts, set_destination,
}
use wizpay_core.Bridge.Rows.{HasRow, stores, if_shown, view-cases, required_lem, update_lem}

module _ (env : Runtime) (id : String) (db : Db) (row : Row) (is_there : HasRow id db row) where
  abbrev pub Recorded : Option String → String → (Row → Row) → Db × Outcome View
  Recorded recorded hash set =
      if conflicts env recorded hash
      then (db, threw bridge_hash_conflict)
      else if repeats env recorded hash
      then (db, view env row)
      else stores id db row is_there env set

  record_hash_lem :
      (recorded : Option String) (hash : String) (set : Row → Row)
      → record_hash env id row recorded hash set db ≡ Recorded recorded hash set
  unfolding record_hash
  record_hash_lem recorded hash set = ground (arith, update_lem id db row is_there set)

  pub report_approval_lem :
      (wallet hash : String)
      → report_approval env id wallet hash db ≡ (
          if not (owns env row wallet)
          then (db, threw intent_forbidden)
          else if not (is_0x_hex 64 hash)
          then (db, threw invalid_hash)
          else Recorded row.result.approval_transaction_hash
              (env.lower hash)
              (set_approval row.result (env.lower hash)))
  unfolding report_approval ownership tx_hash
  report_approval_lem wallet hash = ground (
    arith,
    required_lem id db row is_there,
    record_hash_lem row.result.approval_transaction_hash (env.lower hash)
        (set_approval row.result (env.lower hash)),
  )

  pub report_source_lem :
      (wallet hash : String)
      → report_source env id wallet hash db ≡ (
          if not (owns env row wallet)
          then (db, threw intent_forbidden)
          else if not (is_0x_hex 64 hash)
          then (db, threw invalid_hash)
          else Recorded row.result.source_transaction_hash
              (env.lower hash)
              (set_source row.result (env.lower hash)))
  unfolding report_source ownership tx_hash
  report_source_lem wallet hash = ground (
    arith,
    required_lem id db row is_there,
    record_hash_lem row.result.source_transaction_hash (env.lower hash)
        (set_source row.result (env.lower hash)),
  )

  pub report_destination_lem :
      (wallet hash message_hash : String)
      → report_destination env id wallet hash message_hash db ≡ (
          if not (owns env row wallet)
          then (db, threw intent_forbidden)
          else if not (is_0x_hex 64 hash && is_0x_hex 64 message_hash)
          then (db, threw invalid_hash)
          else if_shown env row db (
              if contradicts env row.result (env.lower message_hash)
              then (db, threw bridge_message_conflict)
              else Recorded row.result.destination_transaction_hash
                  (env.lower hash)
                  (set_destination row.result (env.lower hash) (env.lower message_hash))))
  unfolding report_destination ownership tx_hash
  report_destination_lem wallet hash message_hash =
      let recorded =
        record_hash_lem row.result.destination_transaction_hash (env.lower hash)
          (set_destination row.result (env.lower hash) (env.lower message_hash)) in
      elim (view-cases env row) [
        | inl seen ↦ ground (arith, required_lem id db row is_there, recorded)
        | inr (e, hidden) ↦ ground (arith, required_lem id db row is_there)
      ]
