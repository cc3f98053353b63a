-- ===== src/Intent/Outcomes.antt =====
-- How an intent of execution-intent.service.ts ends: cancelled, completed by a receipt, or opened
-- again by a transaction hash.
use wizpay_core.Prelude.{
  ℕ, suc, ◌≡◌, refl, sym, ap, ◌∙◌, inl, inr, ◌≢◌, String, Bool, true, false, ◌||◌, not, ◌∷◌, [],
  Option, none, some, arith, Bool-cases, if◌then◌else◌, update_where, count, find_sound, from_Bool,
  any, is_some,
}
use wizpay_core.Prelude.Text.{same, same_iff, same_refl, same?_iff}
use wizpay_core.Prelude.Outcome.{done, threw, Outcome-cases}
use wizpay_core.Chain.{is_0x_hex}
use wizpay_core.Intent.{
  IntentStatus, created, awaiting_wallet_signature, failed_retryable, completed, verifying,
  same_status, includes, transitions, is_terminal, Intent, Table, Runtime, eq_of_same_status,
}
use wizpay_core.Intent.Service.{
  has_id, assert_access, immutable_conflict, invalid_transition, terminal, update_many, no_data,
  set_transition,
}
use wizpay_core.Intent.Submission.{
  bind_transaction_hash, is_unbound, set_hash, holds_hash, bind_known_transaction_hash,
  cancel_unsubmitted, is_without_evidence, set_cancelled, Receipt, complete_with_verified_receipt,
  receipt_matches, transaction_hash, matches_target, equal_addresses,
}
use wizpay_core.Intent.Row.{HasRow, get_row, write_count, write_row, transition_lem}
use wizpay_core.Intent.Evidence.{bind_transaction_hash_lem, truthy-is_some}

module _ (env : Runtime) (id : String) (t : Table) (i : Intent) (row : HasRow env id t i) where
  access :
      (key : String)
      → assert_access env id key t
        ≡ (t, (if same i.idempotency_key key then done i else threw immutable_conflict))
  unfolding assert_access
  access key = ground (arith, get_row env id t i row)

  abbrev cancelled_table : Table
  cancelled_table = update_where (is_without_evidence id) set_cancelled t

  evidence_about : (a : Intent) → is_without_evidence id a ≡ true → has_id id a ≡ true
  evidence_about a h = ground arith

  cancelled_count : count (is_without_evidence id) t ≡ from_Bool (is_without_evidence id i)
  cancelled_count =
      write_count env id t i row (is_without_evidence id) set_cancelled evidence_about (λ a. refl)
        (λ a. refl)

  pub cancelled-HasRow :
      is_without_evidence id i ≡ true → HasRow env id cancelled_table (set_cancelled i)
  cancelled-HasRow =
      write_row env id t i row (is_without_evidence id) set_cancelled evidence_about (λ a. refl)
        (λ a. refl)

-- The statuses from which `cancelUnsubmitted` cancels.
abbrev pub is_cancellable : IntentStatus → Bool
is_cancellable s = includes (created ∷ awaiting_wallet_signature ∷ failed_retryable ∷ []) s

-- `cancelUnsubmitted` as an equation, on an intent that is there once, on the runtime's network, and
-- of which no hash and no correlation is the empty text: it asks for the intent's
-- key, refuses an intent with any evidence of a submission, or in a status that is not open, and
-- writes nothing when it refuses.
pub cancel_unsubmitted_lem :
    (env : Runtime) (id : String) (t : Table) (i : Intent) (key : String)
    → HasRow env id t i
    → i.transaction_hash ≢ some ""
    → i.circle_challenge_id ≢ some ""
    → i.circle_transaction_id ≢ some ""
    → cancel_unsubmitted env id key t ≡ (
        if not (same i.idempotency_key key)
        then (t, threw immutable_conflict)
        else if is_some i.transaction_hash
            || is_some i.circle_challenge_id
            || is_some i.circle_transaction_id
            || not (is_cancellable i.status)
        then (t, threw invalid_transition)
        else (update_where (is_without_evidence id) set_cancelled t, done (set_cancelled i)))
unfolding cancel_unsubmitted update_many
cancel_unsubmitted_lem env id t i key row h c x = elim (Bool-cases (same i.idempotency_key key)) [
  | inr stranger ↦ ground (arith, access env id t i row key)
  | inl known ↦
      elim (Bool-cases (
        is_some i.transaction_hash
        || is_some i.circle_challenge_id
        || is_some i.circle_transaction_id)) [
          | inl evidence ↦ ground (
            arith,
            access env id t i row key,
            get_row env id t i row,
            truthy-is_some i.transaction_hash h,
            truthy-is_some i.circle_challenge_id c,
            truthy-is_some i.circle_transaction_id x,
          )
          | inr bare ↦
              let at : is_without_evidence id i ≡ true =
                ground (arith, find_sound (has_id id) t row.there) in
              ground (
                arith,
                access env id t i row key,
                get_row env id t i row,
                truthy-is_some i.transaction_hash h,
                truthy-is_some i.circle_challenge_id c,
                truthy-is_some i.circle_transaction_id x,
                cancelled_count env id t i row,
                get_row env id (cancelled_table env id t i row) (set_cancelled i)
                    (cancelled-HasRow env id t i row at),
              )
        ]
]

ended : (s : IntentStatus) → is_terminal s ≡ true → transitions s ≡ []
ended s h = ground arith

-- A transaction hash opens an intent that has ended. `bindTransactionHash` moves a CANCELLED,
-- EXPIRED or FAILED_FINAL intent that is there once, on the runtime's network and without a hash,
-- to SUBMITTED, on a well-formed hash that no other intent holds, though the map gives its status
-- no move; `bindKnownTransactionHash`, asked the same with the intent's key, refuses it and writes
-- nothing.
pub bind_transaction_hash_reopens :
    (env : Runtime) (id : String) (t : Table) (i : Intent) (rounds : ℕ) (value : String)
    (lease_owner : Option String) (now : ℕ)
    → HasRow env id t i
    → is_terminal i.status ≡ true
    → i.status ≢ completed
    → i.transaction_hash ≡ none
    → is_0x_hex 64 value ≡ true
    → any (holds_hash id (env.lower value)) t ≡ false
    → (transitions i.status ≡ [])
      × (bind_transaction_hash env (suc rounds) id value lease_owner false now t ≡ (
        update_where (is_unbound id) (set_hash (env.lower value)) t,
        done (set_hash (env.lower value) i),
      ))
      × (bind_known_transaction_hash env (suc rounds) id i.idempotency_key value now t
          ≡ (t, threw terminal))
unfolding bind_known_transaction_hash
bind_transaction_hash_reopens env id t i rounds value lease_owner now row over lost none_ good
      free =
    (
      ended i.status over,
      (let bare : i.transaction_hash ≢ some "" = cc in
          ground (
            arith,
            bind_transaction_hash_lem env id t i rounds value lease_owner false now row bare,
          )),
      (let not_completed : same_status i.status completed ≡ false =
            elim (Bool-cases (same_status i.status completed)) [
              | inl e ↦ absurd (lost (eq_of_same_status i.status completed e))
              | inr e ↦ e
            ] in
          ground (
            arith,
            access env id t i row i.idempotency_key,
            same_refl i.idempotency_key,
            get_row env id t i row,
          )),
    )

-- What a receipt must show of an intent, apart from the addresses.
abbrev pub AgreesWith : Runtime → Receipt → Intent → Type 0
AgreesWith env r i =
    ((same_status i.status verifying || same_status i.status completed) ≡ true)
    × (i.transaction_hash ≡ some (env.lower r.transaction_hash))
    × (i.network ≡ r.network)
    × (i.amount_units ≡ r.amount_units)

agreed_lem :
    (env : Runtime) (i : Intent) (hash : String) (r : Receipt) (t : Table)
    → (receipt_matches env i hash r t).1 ≡ done true
    → ((same_status i.status verifying || same_status i.status completed) ≡ true)
      × (i.transaction_hash ≡ some hash)
      × (i.network ≡ r.network)
      × (i.amount_units ≡ r.amount_units)
unfolding receipt_matches
agreed_lem env i hash r t h = ground (
  arith,
  same?_iff i.transaction_hash (some hash),
  same_iff i.network r.network,
  same_iff i.amount_units r.amount_units,
)

matches_reads :
    (env : Runtime) (i : Intent) (hash : String) (r : Receipt) (t : Table)
    → (receipt_matches env i hash r t).0 ≡ t
unfolding receipt_matches matches_target equal_addresses
matches_reads env i hash r t = ground arith

-- `completeWithVerifiedReceipt` completes only what the receipt proves: where it returns, for an
-- intent that is there once and on the runtime's network, the intent was under verification or
-- completed before, with the receipt's hash, network and amount, and it is completed now, with
-- that hash.
pub complete_with_verified_receipt_sound :
    (env : Runtime) (id : String) (t : Table) (i j : Intent) (r : Receipt) (now : ℕ)
    → HasRow env id t i
    → (complete_with_verified_receipt env id r now t).1 ≡ done j
    → AgreesWith env r i
      × (j.status ≡ completed)
      × (j.transaction_hash ≡ some (env.lower r.transaction_hash))
unfolding complete_with_verified_receipt transaction_hash
complete_with_verified_receipt_sound env id t i j r now row got =
    let hash : String = env.lower r.transaction_hash in
    let reads : (receipt_matches env i hash r t).0 ≡ t = matches_reads env i hash r t in
    elim (Bool-cases (is_0x_hex 64 r.transaction_hash)) [
      | inr bad ↦ ground (arith, get_row env id t i row)
      | inl good ↦ elim (Outcome-cases (receipt_matches env i hash r t).1) [
        | inr (e, thrown) ↦ ground (arith, get_row env id t i row)
        | inl (false, no_) ↦ ground (arith, get_row env id t i row)
        | inl (true, agreed) ↦
            let proof_ = agreed_lem env i hash r t agreed in
            elim (Bool-cases (same_status i.status completed)) [
              | inl was ↦
                  let same_ : i ≡ j = ground (arith, get_row env id t i row) in
                  (
                    proof_,
                    sym (ap (λ (k : Intent). k.status) same_)
                        ∙ eq_of_same_status i.status completed was,
                    sym (ap (λ (k : Intent). k.transaction_hash) same_) ∙ proof_.1,
                  )
              | inr not_yet ↦
                  let same_ : set_transition completed no_data now i ≡ j = ground (
                    arith,
                    get_row env id t i row,
                    transition_lem env id t i verifying completed no_data now row,
                  ) in
                  (
                    proof_,
                    sym (ap (λ (k : Intent). k.status) same_),
                    sym (ap (λ (k : Intent). k.transaction_hash) same_) ∙ proof_.1,
                  )
            ]
      ]
    ]
