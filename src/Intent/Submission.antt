-- ===== src/Intent/Submission.antt =====
-- execution-intent.service.ts: the submission of an intent: its transaction hash, its cancellation
-- where nothing was submitted, and its completion by a verified receipt.
use wizpay_core.Prelude.{
  ℕ, zero, suc, String, Bool, true, false, ◌&&◌, ◌||◌, not, [], ◌∷◌, Option, none, some, find, any,
  if◌then◌else◌, ◌==◌, is_some,
}
use wizpay_core.Prelude.Text.{same, same?, truthy}
use wizpay_core.Prelude.Outcome.{
  Handler, threw, not_found, ◌>>=◌, ◌>>◌, return, throw, throw_if, or_throw, failure,
}
use wizpay_core.Chain.{is_0x_hex}
use wizpay_core.Intent.{
  created, awaiting_wallet_signature, submitted, verifying, failed_retryable, completed, cancelled,
  same_status, includes, is_terminal, Intent, Table, Runtime,
}
use wizpay_core.Intent.Service.{
  has_id, update_many, get, assert_access, transition, assert_lease, no_data, immutable_conflict,
  invalid_transition, active_lease, terminal, hash_conflict, receipt_mismatch,
}

-- The input of `bindImmutableExecutionContext`, and its normal form.
-- `where: { id, transactionHash: null }`
abbrev pub is_unbound : String → Intent → Bool
is_unbound id i = has_id id i && not (is_some i.transaction_hash)

abbrev pub set_hash : String → Intent → Intent
set_hash hash i = record i {
  transaction_hash = some hash;
  status = submitted;
  lease_owner = none;
  lease_expires_at = none;
}

-- Another intent holds the hash: the unique index refuses the write.
abbrev pub holds_hash : String → String → Intent → Bool
holds_hash id hash i = not (has_id id i) && same? i.transaction_hash (some hash)

-- `where: { id, transactionHash: null, circleChallengeId: null }`
abbrev pub is_without_evidence : String → Intent → Bool
is_without_evidence id i = is_unbound id i && not (is_some i.circle_challenge_id)

abbrev pub set_cancelled : Intent → Intent
set_cancelled i = record i { status = cancelled; lease_owner = none; lease_expires_at = none }

-- `VerifiedExecutionReceipt`
pub record Receipt : Type 0 where
  pub network : String
  pub transaction_hash : String
  pub source_wallet : String
  pub token : String
  pub recipient : Option String
  pub batch_digest : Option String
  pub amount_units : String

module _ (env : Runtime) where
  open env use {lower, get_address, is_address_equal}

  -- `transactionHash`: the form of the hash is checked, and its letters are made small.
  unfoldable pub transaction_hash : String → Handler Table String
  transaction_hash value = if is_0x_hex 64 value then return (lower value) else throw hash_conflict

  unfoldable pub get_by_transaction_hash : String → Handler Table Intent
  unfolding transaction_hash
  get_by_transaction_hash hash = do
    normalized ← transaction_hash hash
    intent ← λ t. or_throw (find (λ i. same? i.transaction_hash (some normalized)) t) not_found t
    throw_if (not (same intent.network env.network)) immutable_conflict
    return intent

  -- The guard of `bindTransactionHash` for an intent that a wallet holds.
  unfoldable pub assert_submitter :
      String → Intent → Option String → Bool → ℕ → Handler Table (Unit {0})
  assert_submitter id existing lease_owner recovery now =
      if same_status existing.status awaiting_wallet_signature && not recovery
      then (elim lease_owner [
        | none ↦ throw active_lease
        | some owner ↦ assert_lease env id owner now >>= λ _. return tt
      ])
      else return tt

  -- The write of the hash. A hash that another intent holds breaks the unique index.
  unfoldable pub write_hash : String → String → Handler Table ℕ
  unfolding update_many
  write_hash id hash t =
      if any (holds_hash id hash) t
      then (t, threw hash_conflict)
      else update_many (is_unbound id) (set_hash hash) t

  -- Where no row was written the code calls itself: the hash was bound in between. The first
  -- argument bounds these calls; without other writers one round is enough.
  unfoldable pub bind_transaction_hash :
      ℕ → String → String → Option String → Bool → ℕ → Handler Table Intent
  bind_transaction_hash zero id hash lease_owner recovery now = throw failure
  bind_transaction_hash (suc rounds) id hash lease_owner recovery now = do
    normalized ← transaction_hash hash
    existing ← get env id
    if same? existing.transaction_hash (some normalized) then return existing else (do
      throw_if (truthy existing.transaction_hash) hash_conflict
      assert_submitter id existing lease_owner recovery now
      n ← write_hash id normalized
      elim (n == 1) [
        | true ↦ get env id
        | false ↦ bind_transaction_hash rounds id normalized lease_owner recovery now
      ])

  unfoldable pub bind_known_transaction_hash :
      ℕ → String → String → String → ℕ → Handler Table Intent
  bind_known_transaction_hash rounds id idempotency_key hash now = do
    assert_access env id idempotency_key
    intent ← get env id
    throw_if (is_terminal intent.status && not (same_status intent.status completed)) terminal
    bind_transaction_hash rounds id hash none true now

  unfoldable pub cancel_unsubmitted : String → String → Handler Table Intent
  unfolding update_many
  cancel_unsubmitted id idempotency_key = do
    assert_access env id idempotency_key
    intent ← get env id
    throw_if
        (truthy intent.transaction_hash
          || truthy intent.circle_challenge_id
          || truthy intent.circle_transaction_id)
        invalid_transition
    throw_if
        (not (includes (created ∷ awaiting_wallet_signature ∷ failed_retryable ∷ []) intent.status))
        invalid_transition
    n ← update_many (is_without_evidence id) set_cancelled
    throw_if (not (n == 1)) invalid_transition
    get env id

  -- `isAddressEqual(getAddress(a), getAddress(b))`
  unfoldable pub equal_addresses : String → String → Handler Table Bool
  equal_addresses a b = do
    x ← or_throw (get_address a) failure
    y ← or_throw (get_address b) failure
    return (is_address_equal x y)

  abbrev both_recipients : Option String → Option String → Handler Table Bool
  both_recipients (some a) (some b) = equal_addresses a b
  both_recipients a b = return false

  -- `recipient ? Boolean(receipt.recipient && …) : batchDigest === receipt.batchDigest`
  unfoldable pub matches_target : Intent → Receipt → Handler Table Bool
  matches_target i r =
      if truthy i.recipient
      then (if truthy r.recipient then both_recipients i.recipient r.recipient else return false)
      else return (same? i.batch_digest r.batch_digest)

  abbrev and_then : Bool → Handler Table Bool → Handler Table Bool
  and_then b m = if b then m else return false

  -- `matches` of `completeWithVerifiedReceipt`; a false test ends the conjunction.
  unfoldable pub receipt_matches : Intent → String → Receipt → Handler Table Bool
  receipt_matches i hash r =
      and_then
        ((same_status i.status verifying || same_status i.status completed)
          && same? i.transaction_hash (some hash)
          && same i.network r.network)
        (do
          wallet ← equal_addresses i.source_wallet r.source_wallet
          and_then wallet (do
            token ← equal_addresses i.token_out r.token
            and_then (token && same i.amount_units r.amount_units) (matches_target i r)))

  unfoldable pub complete_with_verified_receipt : String → Receipt → ℕ → Handler Table Intent
  complete_with_verified_receipt id r now = do
    intent ← get env id
    hash ← transaction_hash r.transaction_hash
    agreed ← receipt_matches intent hash r
    throw_if (not agreed) receipt_mismatch
    if same_status intent.status completed
        then return intent
        else transition env id verifying completed no_data now
