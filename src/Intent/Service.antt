-- ===== src/Intent/Service.antt =====
-- execution-intent.service.ts: reading an intent, and the compare-and-set moves of its status.
use wizpay_core.Prelude.{
  ℕ, ◌+◌, String, Bool, true, false, ◌&&◌, ◌||◌, not, Option, none, some, find, count, update_where,
  if◌then◌else◌, ltb, leb, ◌==◌, is_some,
}
use wizpay_core.Prelude.Text.{same, same?, truthy}
use wizpay_core.Prelude.Outcome.{
  Handler, done, threw, Error, not_found, conflict, ◌>>=◌, ◌>>◌, return, throw, throw_if,
}
use wizpay_core.Chain.{trim, is_empty}
use wizpay_core.Intent.{
  IntentStatus, created, awaiting_wallet_signature, authorization_pending, submission_pending,
  submitted, verifying, failed_retryable, completed, same_status, includes, transitions,
  is_terminal, Intent, Table, Runtime,
}

-- EXECUTION_INTENT_ERROR_CODES
abbrev pub immutable_conflict : Error
immutable_conflict = conflict "EXECUTION_INTENT_IMMUTABLE_CONFLICT"

abbrev pub invalid_transition : Error
invalid_transition = conflict "EXECUTION_INTENT_INVALID_TRANSITION"

abbrev pub active_lease : Error
active_lease = conflict "EXECUTION_INTENT_ACTIVE_LEASE"

abbrev pub terminal : Error
terminal = conflict "EXECUTION_INTENT_TERMINAL"

abbrev pub hash_conflict : Error
hash_conflict = conflict "EXECUTION_INTENT_TRANSACTION_HASH_CONFLICT"

abbrev pub receipt_mismatch : Error
receipt_mismatch = conflict "EXECUTION_INTENT_RECEIPT_MISMATCH"

abbrev pub has_id : String → Intent → Bool
has_id id i = same i.id id

-- `updateMany({ where, data })`: the number of rows written.
unfoldable pub update_many : (Intent → Bool) → (Intent → Intent) → Handler Table ℕ
update_many where_ set t = (update_where where_ set t, done (count where_ t))

-- The columns that `transition` may be given besides the status; an outer `none` is an absent key.
pub record TransitionData : Type 0 where
  pub failure_code : Option (Option String)
  pub circle_challenge_id : Option (Option String)
  pub circle_transaction_id : Option (Option String)

abbrev pub no_data : TransitionData
no_data = record { failure_code = none; circle_challenge_id = none; circle_transaction_id = none }

abbrev written : Option (Option String) → Option String → Option String
written none old = old
written (some new) old = new

abbrev pub set_transition : IntentStatus → TransitionData → ℕ → Intent → Intent
set_transition next data_ now i = record i {
  status = next;
  failure_code = written data_.failure_code i.failure_code;
  circle_challenge_id = written data_.circle_challenge_id i.circle_challenge_id;
  circle_transaction_id = written data_.circle_transaction_id i.circle_transaction_id;
  completed_at = if same_status next completed then some now else i.completed_at;
}

abbrev pub is_at : String → IntentStatus → Intent → Bool
is_at id expected i = has_id id i && same_status i.status expected

abbrev pub set_lease : String → ℕ → Intent → Intent
set_lease lease_owner expires i = record i {
  lease_owner = some lease_owner;
  lease_expires_at = some expires;
  attempt_count = i.attempt_count + 1;
}

-- `OR: [{ leaseOwner: null }, { leaseExpiresAt: null }, { leaseExpiresAt: { lte: now } }]`
abbrev pub is_leasable : ℕ → Option String → Option ℕ → Bool
is_leasable now none expires = true
is_leasable now (some owner) none = true
is_leasable now (some owner) (some expires) = leb expires now

abbrev pub may_lease : String → ℕ → Intent → Bool
may_lease id now i =
    has_id id i && not (is_terminal i.status) && is_leasable now i.lease_owner i.lease_expires_at

-- `leaseExpiresAt && leaseExpiresAt > now`
abbrev pub is_running : Option ℕ → ℕ → Bool
is_running none now = false
is_running (some expires) now = ltb now expires

module _ (env : Runtime) where
  unfoldable pub get : String → Handler Table Intent
  get id t = elim (find (has_id id) t) [
    | none ↦ (t, threw not_found)
    | some i ↦ if same i.network env.network then (t, done i) else (t, threw immutable_conflict)
  ]

  unfoldable pub assert_access : String → String → Handler Table Intent
  unfolding get
  assert_access id idempotency_key = do
    intent ← get id
    throw_if (not (same intent.idempotency_key idempotency_key)) immutable_conflict
    return intent

  -- The throw after an `updateMany` that wrote no row.
  unfoldable pub refuse_transition : String → Handler Table Intent
  unfolding get
  refuse_transition id = do
    current ← get id
    throw (if is_terminal current.status then terminal else invalid_transition)

  unfoldable pub transition :
      String → IntentStatus → IntentStatus → TransitionData → ℕ → Handler Table Intent
  unfolding get update_many refuse_transition
  transition id expected next data_ now = do
    throw_if (not (includes (transitions expected) next)) invalid_transition
    n ← update_many (is_at id expected) (set_transition next data_ now)
    if n == 1 then get id else refuse_transition id

  -- The three stages of `beginVerification`, each an `if` on the status that the one before left.
  unfoldable pub verify_from_created : String → ℕ → Intent → Handler Table Intent
  verify_from_created id now i =
      if same_status i.status created
      then transition id created submission_pending no_data now
      else return i

  unfoldable pub verify_from_pending : String → ℕ → Intent → Handler Table Intent
  verify_from_pending id now i =
      if same_status i.status authorization_pending
      then transition id authorization_pending submitted no_data now
      else if same_status i.status submission_pending
      then transition id submission_pending submitted no_data now
      else return i

  unfoldable pub verify_from_submitted : String → ℕ → Intent → Handler Table Intent
  verify_from_submitted id now i =
      if same_status i.status submitted
      then transition id submitted verifying no_data now
      else if same_status i.status failed_retryable
      then transition id failed_retryable verifying no_data now
      else return i

  unfoldable pub begin_verification : String → ℕ → Handler Table Intent
  begin_verification id now = do
    intent ← get id
    if same_status intent.status completed || same_status intent.status verifying
        then return intent
        else verify_from_created id now intent
          >>= verify_from_pending id now
          >>= verify_from_submitted id now

  unfoldable pub attach_task : String → String → Handler Table Intent
  unfolding get update_many
  attach_task id task_id = do
    existing ← get id
    throw_if (truthy existing.task_id && not (same? existing.task_id (some task_id)))
        immutable_conflict
    update_many (λ i. has_id id i && not (is_some i.task_id))
        (λ i. record i { task_id = some task_id })
    get id

  unfoldable pub refuse_lease : String → Handler Table Intent
  unfolding get
  refuse_lease id = do
    existing ← get id
    throw (if is_terminal existing.status then terminal else active_lease)

  unfoldable pub acquire_lease : String → String → ℕ → ℕ → Handler Table Intent
  unfolding get update_many refuse_lease
  acquire_lease id lease_owner ttl_ms now = do
    throw_if (is_empty (trim lease_owner) || ltb ttl_ms 1000 || ltb 900000 ttl_ms) active_lease
    n ← update_many (may_lease id now) (set_lease lease_owner (now + ttl_ms))
    if n == 1 then get id else refuse_lease id

  unfoldable pub assert_lease : String → String → ℕ → Handler Table Intent
  unfolding get
  assert_lease id lease_owner now = do
    intent ← get id
    throw_if
        (same lease_owner ""
          || not (same? intent.lease_owner (some lease_owner))
          || not (is_running intent.lease_expires_at now))
        active_lease
    return intent

  -- `ttlMs` defaults to five minutes.
  unfoldable pub prepare_wallet_signature : String → String → String → ℕ → ℕ → Handler Table Intent
  prepare_wallet_signature id idempotency_key lease_owner ttl_ms now = do
    assert_access id idempotency_key
    current ← get id
    throw_if (is_terminal current.status) terminal
    throw_if (truthy current.transaction_hash || truthy current.circle_challenge_id)
        invalid_transition
    throw_if (same_status current.status awaiting_wallet_signature) invalid_transition
    throw_if
        (not (same_status current.status created)
          && not (same_status current.status failed_retryable))
        invalid_transition
    acquire_lease id lease_owner ttl_ms now
    transition id current.status awaiting_wallet_signature no_data now
