-- ===== src/Bridge/Destination/Laws.antt =====
-- The operations on the mint of bridge-lifecycle.service.ts as equations, on the row of the intent.
use mathlib.Core.List.{Memᴰ}
use wizpay_core.Prelude.{
  ℕ, ◌≡◌, refl, ◌⊎◌, String, Bool, true, false, not, ◌&&◌, Option, some, arith, if◌then◌else◌, inl,
  inr, Bool-cases, Option-cases, subst, List, [], ◌∷◌, none,
}
use wizpay_core.Prelude.Text.{truthy, or_empty, same?, same_iff}
use wizpay_core.Prelude.Outcome.{done, threw, Error, Outcome, Outcome-cases}
use wizpay_core.Chain.{is_0x_hex}
use wizpay_core.Bridge.{Row, Db, Runtime}
use wizpay_core.Bridge.Message.{Decoded, decode_cctp_v2_message, cctp_message_body}
use wizpay_core.Bridge.Evidence.{
  matches_bridge_attestation, ReceiptLog, ExpectedMint, is_expected_mint,
  destination_mint_receipt_matches,
}
use wizpay_core.Bridge.Store.{
  owns, ownership, tx_hash, update, view, intent_forbidden, invalid_hash, attestation_required,
  attestation_mismatch,
}
use wizpay_core.Bridge.Destination.{
  is_attestation_ready, authorize_destination, set_lease, submit_destination, set_submitted,
  is_expired, is_to, lease_conflict, lease_expired, Observation, expected_mint, is_proof,
  destination_rpc, check_observation, prove_destination_receipt, destination_required,
  destination_mismatch, destination_pending, complete_bridge, complete_task, set_completed,
  verify_destination,
}
use wizpay_core.Bridge.Rows.{
  HasRow, stores, collides_kept, written, if_shown, shown, view-cases, required_lem, update_lem,
}
use wizpay_core.Bridge.Steps.{Proven}

module _ (env : Runtime) (id : String) (db : Db) (row : Row) (is_there : HasRow id db row) where
  pub authorize_destination_lem :
      (wallet lease_id : String) (now : ℕ)
      → authorize_destination env id wallet lease_id now db ≡ (
          if not (owns env row wallet)
          then (db, threw intent_forbidden)
          else if_shown env row db (
              if is_attestation_ready row.status
              then stores id db row is_there env (set_lease lease_id now)
              else (db, threw attestation_required)))
  unfolding authorize_destination ownership
  authorize_destination_lem wallet lease_id now = elim (view-cases env row) [
    | inr (e, hidden) ↦ ground (arith, required_lem id db row is_there)
    | inl seen ↦ ground (
      arith,
      required_lem id db row is_there,
      update_lem id db row is_there (set_lease lease_id now),
    )
  ]

  -- The lease that the request names is the row's.
  abbrev pub holds_lease : String → Bool
  holds_lease lease_id =
      truthy row.destination_lease_id && same? row.destination_lease_id (some lease_id)

  abbrev pub submission : String → String → ℕ → Row → Row
  submission hash message_hash now =
      set_submitted row.result (env.lower hash) (env.lower message_hash) now

  pub submit_destination_lem :
      (wallet lease_id hash message_hash : String) (now : ℕ)
      → submit_destination env id wallet lease_id hash message_hash now db ≡ (
          if not (owns env row wallet)
          then (db, threw intent_forbidden)
          else if not (holds_lease lease_id)
          then (db, threw lease_conflict)
          else if is_expired row.destination_lease_expires_at now
          then (db, threw lease_expired)
          else if not (is_0x_hex 64 hash && is_0x_hex 64 message_hash)
          then (db, threw invalid_hash)
          else stores id db row is_there env (submission hash message_hash now))
  unfolding submit_destination ownership tx_hash
  submit_destination_lem wallet lease_id hash message_hash now = ground (
    arith,
    required_lem id db row is_there,
    update_lem id db row is_there (submission hash message_hash now),
  )

mint_in_logs :
    (env : Runtime) (logs : List ReceiptLog) (expected : ExpectedMint)
    → destination_mint_receipt_matches env logs expected ≡ true
    → (log : ReceiptLog) × Memᴰ log logs × (is_expected_mint env expected log ≡ true)
unfolding destination_mint_receipt_matches
mint_in_logs env [] expected h = cc
mint_in_logs env (log ∷ logs) expected h = elim (Bool-cases (is_expected_mint env expected log)) [
  | inl here ↦ (log, Memᴰ.head refl, here)
  | inr other ↦
      let (found, m, e) = mint_in_logs env logs expected (ground arith) in (found, Memᴰ.tail m, e)
]

sent_to :
    (env : Runtime) (to : Option String) (transmitter : String)
    → is_to env to transmitter ≡ true
    → (recipient : String) × (to ≡ some recipient)
      × (env.is_address recipient ≡ true)
      × (env.is_address_equal (env.get_address recipient) transmitter ≡ true)
sent_to env none transmitter h = cc
sent_to env (some to) transmitter h = (to, refl, ground arith, ground arith)

is_proof-Proven :
    (env : Runtime) (row : Row) (decoded : Decoded) (body : String) (seen : Observation)
    → decode_cctp_v2_message env (or_empty row.result.attested_message) ≡ done decoded
    → matches_bridge_attestation env row.payload decoded row.result.nonce ≡ true
    → cctp_message_body env (or_empty row.result.attested_message) ≡ done body
    → is_proof env (shown row) decoded body seen ≡ true
    → Proven env row seen
unfolding is_proof
is_proof-Proven env row decoded body seen good own cut proof =
    let (log, logged, minted) =
      mint_in_logs env seen.logs (expected_mint env (shown row) decoded body) (ground arith) in
    let (recipient, sent, is_recipient, to_transmitter) =
      sent_to env seen.transaction_to row.payload.destination_message_transmitter_v2
        (ground arith) in
    record {
      decoded = decoded;
      is_decoded = good;
      matched = own;
      body = body;
      is_body = cut;
      on_chain = ground arith;
      succeeded = ground (arith, same_iff seen.status "success");
      recipient = recipient;
      sent_to = sent;
      is_recipient = is_recipient;
      to_transmitter = to_transmitter;
      log = log;
      logged = logged;
      minted = minted;
    }

module _ (env : Runtime) (row : Row) (answer : Option Observation) (db : Db) where
  -- A proof that reads the chain writes nothing: it throws, or the receipt is that of the mint.
  abbrev pub Proves : Db × Outcome Bool → Type 0
  Proves r =
      ((r ≡ (db, done true)) × ((seen : Observation) × (answer ≡ some seen) × Proven env row seen))
      ⊎ ((e : Error) × (r ≡ (db, threw e)))

  check_observation-Proves :
      (decoded : Decoded)
      → decode_cctp_v2_message env (or_empty row.result.attested_message) ≡ done decoded
      → matches_bridge_attestation env row.payload decoded row.result.nonce ≡ true
      → Proves (
          check_observation env
            (shown row)
            decoded
            (or_empty row.result.attested_message)
            answer
            db)
  unfolding check_observation
  check_observation-Proves decoded good own = elim (Option-cases answer) [
    | inl silent ↦ inr (destination_pending, ground arith)
    | inr (observed, answered) ↦
        elim (Outcome-cases (cctp_message_body env (or_empty row.result.attested_message))) [
          | inr (e, uncut) ↦ inr (e, ground arith)
          | inl (body, cut) ↦ elim (Bool-cases (is_proof env (shown row) decoded body observed)) [
            | inr short ↦ inr (destination_mismatch, ground arith)
            | inl proof ↦ inl (
              ground arith,
              (
                observed,
                answered,
                is_proof-Proven env row decoded body observed good own cut proof,
              ),
            )
          ]
        ]
  ]

  -- `proveDestinationReceipt` finds no reader, or proves the mint, or throws.
  pub prove_destination_receipt-cases :
      (prove_destination_receipt env (shown row) answer db ≡ (db, done false))
      ⊎ Proves (prove_destination_receipt env (shown row) answer db)
  unfolding prove_destination_receipt
  prove_destination_receipt-cases =
      let message = or_empty row.result.attested_message in
      elim (Bool-cases (truthy (destination_rpc env row.payload.destination_chain_id))) [
        | inr blind ↦ inl (ground arith)
        | inl reader ↦
            inr
              (elim (Bool-cases (
                truthy row.result.destination_transaction_hash
                && truthy row.result.attested_message)) [
                  | inr bare ↦ inr (destination_required, ground arith)
                  | inl given ↦ elim (Outcome-cases (decode_cctp_v2_message env message)) [
                    | inr (e, bad) ↦ inr (e, ground arith)
                    | inl (decoded, good) ↦
                        elim (Bool-cases
                          (matches_bridge_attestation env row.payload decoded row.result.nonce)) [
                            | inr other ↦ inr (attestation_mismatch, ground arith)
                            | inl own ↦
                                subst Proves (ground arith)
                                  (check_observation-Proves decoded good own)
                          ]
                  ]
                ])
      ]

module _ (env : Runtime) (id : String) (db : Db) (row : Row) (is_there : HasRow id db row) where
  abbrev pub completed_db : Bool → ℕ → Db
  completed_db verified now =
      written id (set_completed row.result verified now) (complete_task row.task_id db)

  pub verify_destination_lem :
      (wallet : String) (answer : Option Observation) (now : ℕ)
      → verify_destination env id wallet answer now db ≡ (
          if not (owns env row wallet)
          then (db, threw intent_forbidden)
          else if_shown env row db (
              if not (truthy row.result.attestation && truthy row.result.attested_message)
              then (db, threw attestation_required)
              else if not (truthy row.result.destination_transaction_hash)
              then (db, threw destination_required)
              else (elim (prove_destination_receipt env (shown row) answer db).1 [
                | threw e ↦ (db, threw e)
                | done verified ↦ (
                  completed_db verified now,
                  view env (set_completed row.result verified now row),
                )
              ])))
  unfolding verify_destination ownership complete_bridge
  verify_destination_lem wallet answer now =
      let found = required_lem id db row is_there in
      let updated : (verified : Bool)
          → update id (set_completed row.result verified now) (complete_task row.task_id db)
            ≡ (completed_db verified now, done (set_completed row.result verified now row)) =
        λ verified.
          let kept =
            collides_kept id row (set_completed row.result verified now row) db.rows refl refl refl
              refl in
          ground (
            arith,
            update_lem id (complete_task row.task_id db) row
                (record { there = is_there.there; unique = is_there.unique })
                (set_completed row.result verified now),
          ) in
      elim (view-cases env row) [
        | inr (e, hidden) ↦ ground (arith, found)
        | inl seen ↦ elim (prove_destination_receipt-cases env row answer db) [
          | inl blind ↦ ground (arith, found, updated false)
          | inr (inl (proved, evidence)) ↦ ground (arith, found, updated true)
          | inr (inr (e, failed)) ↦ ground (arith, found)
        ]
      ]
