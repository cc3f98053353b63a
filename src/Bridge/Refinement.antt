-- ===== src/Bridge/Refinement.antt =====
-- bridge-lifecycle.service.ts: every request on an intent makes the steps of Bridge/Steps and no other
-- writes to its row.
use wizpay_core.Prelude.{
  ℕ, ◌≡◌, refl, sym, subst, inl, inr, String, Bool, true, false, not, ◌&&◌, Option, none, arith,
  if◌then◌else◌,
}
use wizpay_core.Prelude.Text.{truthy}
use wizpay_core.Prelude.Outcome.{Handler, Outcome, done, threw, failure, Outcome-cases}
use wizpay_core.Chain.{is_0x_hex}
use wizpay_core.Bridge.{Row, Db, View, Runtime}
use wizpay_core.Bridge.Message.{decode_cctp_v2_message}
use wizpay_core.Bridge.Evidence.{matches_bridge_attestation}
use wizpay_core.Bridge.Store.{owns, view, repeats, conflicts, has_id, collides}
use wizpay_core.Bridge.Reports.{
  report_approval, report_source, report_destination, set_approval, set_source, set_destination,
  contradicts,
}
use wizpay_core.Bridge.Reports.Laws.{
  Recorded, report_approval_lem, report_source_lem, report_destination_lem,
}
use wizpay_core.Bridge.Attestation.{
  Answer, Fetched, not_indexed, pending, attested, fetch_attestation, set_waiting, set_attested,
  refresh_attestation,
}
use wizpay_core.Bridge.Attestation.Laws.{stored, refresh_attestation_lem}
use wizpay_core.Bridge.Destination.{
  is_attestation_ready, is_expired, set_lease, set_submitted, set_completed, Observation,
  authorize_destination, submit_destination, verify_destination, prove_destination_receipt,
  complete_task,
}
use wizpay_core.Bridge.Destination.Laws.{
  authorize_destination_lem, holds_lease, submit_destination_lem, prove_destination_receipt-cases,
  completed_db, verify_destination_lem,
}
use wizpay_core.Bridge.Rows.{HasRow, stores, written, written-HasRow, if_shown, shown, view-cases}
use wizpay_core.Bridge.Steps.{
  Step, approve, burn, report, wait, attest, authorize, submit, complete, Steps, over, next,
}

-- A request on an intent. What Circle and the other chain answer, the clock and the identifiers that
-- are drawn come with it.
pub data Request : Type 0 where
  ask_approval : (wallet hash : String) → Request
  ask_source : (wallet hash : String) → Request
  ask_attestation : (wallet : String) (answer : Answer) → Request
  ask_report : (wallet hash message_hash : String) → Request
  ask_authorize : (wallet lease_id : String) (now : ℕ) → Request
  ask_submit : (wallet lease_id hash message_hash : String) (now : ℕ) → Request
  ask_verify : (wallet : String) (answer : Option Observation) (now : ℕ) → Request

abbrev pub serve : Runtime → String → Request → Handler Db View
serve env id (ask_approval wallet hash) = report_approval env id wallet hash
serve env id (ask_source wallet hash) = report_source env id wallet hash
serve env id (ask_attestation wallet answer) = refresh_attestation env id wallet answer
serve env id (ask_report wallet hash message_hash) =
    report_destination env id wallet hash message_hash
serve env id (ask_authorize wallet lease_id now) = authorize_destination env id wallet lease_id now
serve env id (ask_submit wallet lease_id hash message_hash now) =
    submit_destination env id wallet lease_id hash message_hash now
serve env id (ask_verify wallet answer now) = verify_destination env id wallet answer now

-- The row after a request is reached from the row before by steps.
pub record Refines (env : Runtime) (id : String) (row : Row) (r : Db × Outcome View) : Type 0 where
  pub after : Row
  pub there : HasRow id r.0 after
  pub steps : Steps env row after

module _ (env : Runtime) (id : String) (row : Row) where
  branch :
      {r s : Db × Outcome View} (b : Bool)
      → (b ≡ true → Refines env id row r)
      → (b ≡ false → Refines env id row s)
      → Refines env id row (if b then r else s)
  branch true f g = f refl
  branch false f g = g refl

  module _ (db : Db) (is_there : HasRow id db row) where
    stays : (o : Outcome View) → Refines env id row (db, o)
    stays o = record { after = row; there = is_there; steps = over }

    writes :
        (set : Row → Row) (o : Outcome View)
        → ((a : Row) → has_id id (set a) ≡ has_id id a)
        → Step env row (set row)
        → Refines env id row (written id set db, o)
    writes set o keeps step = record {
      after = set row;
      there = written-HasRow id db row is_there set keeps;
      steps = next step over;
    }

    stores-Refines :
        (set : Row → Row)
        → ((a : Row) → has_id id (set a) ≡ has_id id a)
        → Step env row (set row)
        → Refines env id row (stores id db row is_there env set)
    stores-Refines set keeps step =
        branch (collides id row (set row) db.rows) (λ taken. stays (threw failure))
          (λ free. writes set (view env (set row)) keeps step)

    where_shown :
        {r : Db × Outcome View}
        → (view env row ≡ done (shown row) → Refines env id row r)
        → Refines env id row (if_shown env row db r)
    where_shown h = elim (view-cases env row) [
      | inl seen ↦ rw (if_shown, seen) (h seen)
      | inr (e, hidden) ↦ rw (if_shown, hidden) (stays (threw e))
    ]

    recorded-Refines :
        (old : Option String) (hash : String) (set : Row → Row)
        → ((a : Row) → has_id id (set a) ≡ has_id id a)
        → (truthy old ≡ false → Step env row (set row))
        → Refines env id row (Recorded env id db row is_there old hash set)
    recorded-Refines old hash set keeps step =
        branch (conflicts env old hash) (λ other. stays _)
          (λ agreed.
            branch (repeats env old hash) (λ again. stays _)
              (λ new. stores-Refines set keeps (step (ground arith))))

    stored-Refines :
        (fetched : Fetched)
        → truthy row.result.source_transaction_hash ≡ true
        → Refines env id row (stored env id db row is_there fetched)
    stored-Refines not_indexed burnt =
        stores-Refines (set_waiting row.result "not_indexed" none) (λ a. refl)
          (wait "not_indexed" none burnt)
    stored-Refines (pending status reason) burnt =
        stores-Refines (set_waiting row.result status reason) (λ a. refl) (wait status reason burnt)
    stored-Refines (attested message attestation) burnt =
        elim (Outcome-cases (decode_cctp_v2_message env message)) [
          | inr (e, bad) ↦ rw (stored, bad) (stays (threw e))
          | inl (decoded, good) ↦
              rw (stored, good)
                (branch (matches_bridge_attestation env row.payload decoded none)
                  (λ own.
                    stores-Refines (set_attested row.result message attestation decoded) (λ a. refl)
                      (attest message attestation decoded burnt good own))
                  (λ other. stays _))
        ]

    -- What `verifyDestination` does after its checks.
    completed-Refines :
        (answer : Option Observation) (now : ℕ)
        → (truthy row.result.attestation && truthy row.result.attested_message) ≡ true
        → truthy row.result.destination_transaction_hash ≡ true
        → Refines env id row (elim (prove_destination_receipt env (shown row) answer db).1 [
          | threw e ↦ (db, threw e)
          | done verified ↦ (
            completed_db env id db row is_there verified now,
            view env (set_completed row.result verified now row),
          )
        ])
    completed-Refines answer now given sent =
        let after : HasRow id (complete_task row.task_id db) row = record {
          there = is_there.there;
          unique = is_there.unique;
        } in
        elim (prove_destination_receipt-cases env row answer db) [
          | inl blind ↦ rw blind (record {
            after = set_completed row.result false now row;
            there =
                written-HasRow id (complete_task row.task_id db) row after
                  (set_completed row.result false now) (λ a. refl);
            steps = next (complete false now (ground arith) (ground arith) sent (λ h. cc)) over;
          })
          | inr (inl (proved, evidence)) ↦ rw proved (record {
            after = set_completed row.result true now row;
            there =
                written-HasRow id (complete_task row.task_id db) row after
                  (set_completed row.result true now) (λ a. refl);
            steps =
                next
                  (complete true now (ground arith) (ground arith) sent
                    (λ h. (evidence.0, evidence.2)))
                  over;
          })
          | inr (inr (e, failed)) ↦ rw failed (stays (threw e))
        ]

-- A request on an intent that is there once leaves it there once, reached by steps of Bridge/Steps,
-- whether it returns or throws.
pub serve-Refines :
    (env : Runtime) (id : String) (db : Db) (row : Row) (request : Request)
    → HasRow id db row
    → Refines env id row (serve env id request db)
serve-Refines env id db row (ask_approval wallet hash) is_there =
    subst (Refines env id row) (sym (report_approval_lem env id db row is_there wallet hash)) (
      branch env id row (not (owns env row wallet)) (λ other. stays env id row db is_there _)
        (λ own.
          branch env id row (not (is_0x_hex 64 hash)) (λ bad. stays env id row db is_there _)
            (λ good.
              recorded-Refines env id row db is_there row.result.approval_transaction_hash
                (env.lower hash) (set_approval row.result (env.lower hash)) (λ a. refl)
                (approve (env.lower hash)))))
serve-Refines env id db row (ask_source wallet hash) is_there =
    subst (Refines env id row) (sym (report_source_lem env id db row is_there wallet hash)) (
      branch env id row (not (owns env row wallet)) (λ other. stays env id row db is_there _)
        (λ own.
          branch env id row (not (is_0x_hex 64 hash)) (λ bad. stays env id row db is_there _)
            (λ good.
              recorded-Refines env id row db is_there row.result.source_transaction_hash
                (env.lower hash) (set_source row.result (env.lower hash)) (λ a. refl)
                (burn (env.lower hash)))))
serve-Refines env id db row (ask_attestation wallet answer) is_there =
    subst (Refines env id row) (sym (refresh_attestation_lem env id db row is_there wallet answer))
      (branch env id row (not (owns env row wallet)) (λ other. stays env id row db is_there _)
        (λ own. where_shown env id row db is_there (λ seen.
          branch env id row (not (truthy row.result.source_transaction_hash))
            (λ unburnt. stays env id row db is_there _)
            (λ burnt. elim (Outcome-cases (fetch_attestation answer)) [
              | inr (e, failed) ↦ rw failed (stays env id row db is_there (threw e))
              | inl (fetched, ok) ↦
                  rw ok (stored-Refines env id row db is_there fetched (ground arith))
            ]))))
serve-Refines env id db row (ask_report wallet hash message_hash) is_there =
    subst (Refines env id row)
      (sym (report_destination_lem env id db row is_there wallet hash message_hash))
      (branch env id row (not (owns env row wallet)) (λ other. stays env id row db is_there _)
        (λ own.
          branch env id row (not (is_0x_hex 64 hash && is_0x_hex 64 message_hash))
            (λ bad. stays env id row db is_there _)
            (λ good. where_shown env id row db is_there (λ seen.
              branch env id row (contradicts env row.result (env.lower message_hash))
                (λ other. stays env id row db is_there _)
                (λ agreed.
                  recorded-Refines env id row db is_there row.result.destination_transaction_hash
                    (env.lower hash)
                    (set_destination row.result (env.lower hash) (env.lower message_hash))
                    (λ a. refl)
                    (λ new. report (env.lower hash) (env.lower message_hash) new agreed))))))
serve-Refines env id db row (ask_authorize wallet lease_id now) is_there =
    subst (Refines env id row)
      (sym (authorize_destination_lem env id db row is_there wallet lease_id now))
      (branch env id row (not (owns env row wallet)) (λ other. stays env id row db is_there _)
        (λ own. where_shown env id row db is_there (λ seen.
          branch env id row (is_attestation_ready row.status)
            (λ ready.
              stores-Refines env id row db is_there (set_lease lease_id now) (λ a. refl)
                (authorize lease_id now ready))
            (λ early. stays env id row db is_there _))))
serve-Refines env id db row (ask_submit wallet lease_id hash message_hash now) is_there =
    subst (Refines env id row)
      (sym (submit_destination_lem env id db row is_there wallet lease_id hash message_hash now))
      (branch env id row (not (owns env row wallet)) (λ other. stays env id row db is_there _)
        (λ own.
          branch env id row (not (holds_lease env id db row is_there lease_id))
            (λ none_. stays env id row db is_there _)
            (λ held.
              branch env id row (is_expired row.destination_lease_expires_at now)
                (λ late. stays env id row db is_there _)
                (λ running.
                  branch env id row (not (is_0x_hex 64 hash && is_0x_hex 64 message_hash))
                    (λ bad. stays env id row db is_there _)
                    (λ good.
                      stores-Refines env id row db is_there
                        (set_submitted row.result (env.lower hash) (env.lower message_hash) now)
                        (λ a. refl)
                        (submit lease_id (env.lower hash) (env.lower message_hash) now
                          (ground arith) (ground arith) running))))))
serve-Refines env id db row (ask_verify wallet answer now) is_there =
    subst (Refines env id row)
      (sym (verify_destination_lem env id db row is_there wallet answer now))
      (branch env id row (not (owns env row wallet)) (λ other. stays env id row db is_there _)
        (λ own. where_shown env id row db is_there (λ seen.
          branch env id row
            (not (truthy row.result.attestation && truthy row.result.attested_message))
            (λ bare. stays env id row db is_there _)
            (λ given.
              branch env id row (not (truthy row.result.destination_transaction_hash))
                (λ unsent. stays env id row db is_there _)
                (λ sent.
                  completed-Refines env id row db is_there answer now (ground arith)
                    (ground arith))))))
