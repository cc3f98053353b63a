-- ===== src/Bridge/Reopening.antt =====
-- An intent of bridge-lifecycle.service.ts that is opened again after its verification.
use wizpay_core.Prelude.{
  ℕ, ◌≡◌, refl, ◌∙◌, ap, sym, inl, inr, String, true, false, [], ◌∷◌, none, some, arith, subst,
}
use wizpay_core.Prelude.Text.{truthy, same_refl}
use wizpay_core.Prelude.Outcome.{done, Outcome-cases}
use wizpay_core.Chain.{is_0x_hex}
use wizpay_core.Bridge.{Row, Db, Runtime}
use wizpay_core.Bridge.Registry.{get_bridge_chain}
use wizpay_core.Bridge.Message.{Decoded, decode_cctp_v2_message}
use wizpay_core.Bridge.Evidence.{matches_bridge_attestation}
use wizpay_core.Bridge.Store.{owns, view, collides}
use wizpay_core.Bridge.Attestation.{
  Answer, attested, fetch_attestation, set_attested, refresh_attestation,
}
use wizpay_core.Bridge.Attestation.Laws.{refresh_attestation_lem}
use wizpay_core.Bridge.Destination.{
  set_lease, set_submitted, authorize_destination, submit_destination,
}
use wizpay_core.Bridge.Destination.Laws.{authorize_destination_lem, submit_destination_lem}
use wizpay_core.Bridge.Rows.{HasRow, collides_written, written, written-HasRow, shown}
use wizpay_core.Bridge.Refinement.{ask_attestation, ask_authorize, ask_submit}
use wizpay_core.Bridge.Laws.{run}

same_view :
    (env : Runtime) (a b : Row)
    → b.payload ≡ a.payload
    → view env a ≡ done (shown a)
    → view env b ≡ done (shown b)
unfolding view
same_view env a b p h = elim (Outcome-cases (get_bridge_chain a.payload.source_code)) [
  | inr (e, unknown) ↦ ground arith
  | inl (s, known) ↦ elim (Outcome-cases (get_bridge_chain a.payload.destination_code)) [
    | inr (e, unknown) ↦ ground arith
    | inl (d, known') ↦ ground arith
  ]
]

-- The row of an intent that is opened again, after each of its writes.
module _ (row : Row) (message attestation : String) (decoded : Decoded) where
  abbrev pub attested_again : Row
  attested_again = set_attested row.result message attestation decoded row

  abbrev pub leased_again : String → ℕ → Row
  leased_again lease_id now = set_lease lease_id now attested_again

  abbrev pub submitted_again : String → String → String → ℕ → Row
  submitted_again lease_id hash message_hash now =
      set_submitted (leased_again lease_id now).result hash message_hash now
        (leased_again lease_id now)

-- What its wallet needs to open an intent again: the burn's attestation, a lease and two hashes, none of
-- which stands in a unique column of another intent.
pub record CanReopen (env : Runtime) (id : String) (db : Db) (row : Row)
    (wallet lease_id hash message_hash : String) (answer : Answer) (now : ℕ) : Type 0 where
  pub own : owns env row wallet ≡ true
  pub visible : view env row ≡ done (shown row)
  pub burnt : truthy row.result.source_transaction_hash ≡ true
  pub message : String
  pub attestation : String
  pub fetched : fetch_attestation answer ≡ done (attested message attestation)
  pub decoded : Decoded
  pub is_decoded : decode_cctp_v2_message env message ≡ done decoded
  pub matched : matches_bridge_attestation env row.payload decoded none ≡ true
  pub lease : truthy (some lease_id) ≡ true
  pub hash_form : is_0x_hex 64 hash ≡ true
  pub message_hash_form : is_0x_hex 64 message_hash ≡ true
  pub own_message : collides id row (attested_again row message attestation decoded) db.rows ≡ false
  pub new_lease :
      collides id
        (attested_again row message attestation decoded)
        (leased_again row message attestation decoded lease_id now)
        db.rows
      ≡ false
  pub new_hashes :
      collides id
        (leased_again row message attestation decoded lease_id now)
        (submitted_again row message attestation decoded lease_id
          (env.lower hash)
          (env.lower message_hash)
          now)
        db.rows
      ≡ false

module _ (env : Runtime) (id wallet lease_id hash message_hash : String) (answer : Answer) (now : ℕ)
    (db : Db) (row : Row) (is_there : HasRow id db row)
    (can : CanReopen env id db row wallet lease_id hash message_hash answer now) where
  abbrev attest : Row → Row
  attest = set_attested row.result can.message can.attestation can.decoded

  attest_lem : (refresh_attestation env id wallet answer db).0 ≡ written id attest db
  attest_lem = ground (
    arith,
    refresh_attestation_lem env id db row is_there wallet answer,
    can.own,
    can.visible,
    can.burnt,
    can.fetched,
    can.is_decoded,
    can.matched,
    can.own_message,
  )

  abbrev lease : Row → Row
  lease = set_lease lease_id now

  attest-HasRow : HasRow id (written id attest db) (attest row)
  attest-HasRow = written-HasRow id db row is_there attest (λ a. refl)

  lease_lem :
      (authorize_destination env id wallet lease_id now (written id attest db)).0
      ≡ written id lease (written id attest db)
  lease_lem = ground (
    arith,
    authorize_destination_lem env id (written id attest db) (attest row) attest-HasRow wallet
        lease_id now,
    can.own,
    same_view env row (attest row) refl can.visible,
    collides_written id (attest row) (lease (attest row)) attest db.rows (λ a. refl),
    can.new_lease,
  )

  lease-HasRow : HasRow id (written id lease (written id attest db)) (lease (attest row))
  lease-HasRow =
      written-HasRow id (written id attest db) (attest row) attest-HasRow lease (λ a. refl)

  abbrev submit : Row → Row
  submit = set_submitted (lease (attest row)).result (env.lower hash) (env.lower message_hash) now

  submit_lem :
      (submit_destination env id wallet lease_id hash message_hash now
        (written id lease (written id attest db))).0
      ≡ written id submit (written id lease (written id attest db))
  submit_lem = ground (
    arith,
    submit_destination_lem env id (written id lease (written id attest db)) (lease (attest row))
        lease-HasRow wallet lease_id hash message_hash now,
    can.own,
    can.lease,
    same_refl lease_id,
    can.hash_form,
    can.message_hash_form,
    collides_written id (lease (attest row)) (submit (lease (attest row))) lease
        (written id attest db).rows (λ a. refl),
    collides_written id (lease (attest row)) (submit (lease (attest row))) attest db.rows
        (λ a. refl),
    can.new_hashes,
  )

  -- The wallet of an intent that is there once and whose burn is recorded can open it again, also after
  -- it was verified, and put another hash in the place of the one that was verified. This is given that
  -- the intent can be shown, that Circle answers with a message that decodes and is the intent's, that
  -- the lease drawn is no empty text and the two hashes have the form of hashes, and that no other
  -- intent has in a unique column the message's hash, its nonce, the lease or the new hashes: fetching
  -- the attestation, authorising the mint and submitting the hash leaves the intent with this hash and
  -- with the mark of the earlier verification.
  pub reopening_keeps_verified :
      (after : Row) × HasRow id
        (run env id
          (ask_attestation wallet answer
            ∷ ask_authorize wallet lease_id now
            ∷ ask_submit wallet lease_id hash message_hash now
            ∷ [])
          db)
        after
      × (after.result.destination_transaction_hash ≡ some (env.lower hash))
      × (after.result.destination_receipt_verified ≡ row.result.destination_receipt_verified)
  reopening_keeps_verified =
      let authorised = λ (d : Db). (authorize_destination env id wallet lease_id now d).0 in
      let submitted =
        λ (d : Db). (submit_destination env id wallet lease_id hash message_hash now d).0 in
      (
        submit (lease (attest row)),
        subst (λ d. HasRow id d (submit (lease (attest row))))
            (sym
              (ap (λ d. submitted (authorised d)) attest_lem ∙ ap submitted lease_lem ∙ submit_lem))
            (written-HasRow id (written id lease (written id attest db)) (lease (attest row))
              lease-HasRow submit (λ a. refl)),
        refl,
        refl,
      )
