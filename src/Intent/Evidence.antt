-- ===== src/Intent/Evidence.antt =====
-- The evidence of a submission in execution-intent.service.ts: what binding a transaction hash,
-- cancelling and completing do with an intent.
use wizpay_core.Prelude.{
  ℕ, suc, ◌≡◌, refl, ap, ◌∙◌, inl, inr, ◌≢◌, String, Bool, true, false, ◌&&◌, ◌||◌, not, Option,
  none, some, arith, Bool-cases, if◌then◌else◌, update_where, count, find_sound, from_Bool, any,
  is_some,
}
use wizpay_core.Prelude.Text.{same, same?, same_iff, truthy}
use wizpay_core.Prelude.Outcome.{done, threw}
use wizpay_core.Chain.{is_0x_hex}
use wizpay_core.Intent.{awaiting_wallet_signature, same_status, Intent, Table, Runtime}
use wizpay_core.Intent.Service.{
  has_id, assert_lease, active_lease, hash_conflict, update_many, is_running,
}
use wizpay_core.Intent.Submission.{
  transaction_hash, bind_transaction_hash, assert_submitter, write_hash, is_unbound, set_hash,
  holds_hash,
}
use wizpay_core.Intent.Row.{HasRow, get_row, write_count, write_row}

pub unbound_about : (id : String) (a : Intent) → is_unbound id a ≡ true → has_id id a ≡ true
unbound_about id a h = ground arith

-- Whether a caller may bind a hash: a wallet's open signature asks for the lease that runs.
abbrev pub holds_lease : Intent → Option String → ℕ → Bool
holds_lease i none now = false
holds_lease i (some owner) now =
    not (same owner "") && same? i.lease_owner (some owner) && is_running i.lease_expires_at now

abbrev pub may_submit : Intent → Option String → Bool → ℕ → Bool
may_submit i lease_owner recovery now =
    not (same_status i.status awaiting_wallet_signature && not recovery)
    || holds_lease i lease_owner now

module _ (env : Runtime) (id : String) (t : Table) (i : Intent) (row : HasRow env id t i) where
  submitter :
      (lease_owner : Option String) (recovery : Bool) (now : ℕ)
      → assert_submitter env id i lease_owner recovery now t
        ≡ (t, (if may_submit i lease_owner recovery now then done tt else threw active_lease))
  unfolding assert_submitter assert_lease
  submitter none recovery now = ground arith
  submitter (some owner) recovery now = ground (arith, get_row env id t i row)

  module _ (hash : String) where
    abbrev bound_table : Table
    bound_table = update_where (is_unbound id) (set_hash hash) t

    unbound_count : count (is_unbound id) t ≡ from_Bool (is_unbound id i)
    unbound_count =
        write_count env id t i row (is_unbound id) (set_hash hash) (unbound_about id) (λ a. refl)
          (λ a. refl)

    pub bound-HasRow : is_unbound id i ≡ true → HasRow env id bound_table (set_hash hash i)
    bound-HasRow =
        write_row env id t i row (is_unbound id) (set_hash hash) (unbound_about id) (λ a. refl)
          (λ a. refl)

pub truthy-is_some : (o : Option String) → o ≢ some "" → truthy o ≡ is_some o
truthy-is_some none h = refl
truthy-is_some (some s) h = ground (arith, same_iff s "")

taken_write :
    (env : Runtime) (id hash : String) (t : Table)
    → any (holds_hash id hash) t ≡ true
    → write_hash env id hash t ≡ (t, threw hash_conflict)
unfolding write_hash
taken_write env id hash t h = ground arith

free_write :
    (env : Runtime) (id hash : String) (t : Table)
    → any (holds_hash id hash) t ≡ false
    → count (is_unbound id) t ≡ 1
    → write_hash env id hash t ≡ (update_where (is_unbound id) (set_hash hash) t, done 1)
unfolding write_hash update_many
free_write env id hash t h k = ground arith

-- `bindTransactionHash` as an equation, in one round, on an intent that is there once, on the
-- runtime's network, and whose hash is not the empty text: a hash
-- of another form is refused; the hash that is bound is confirmed; another is refused; an open wallet
-- signature asks for its lease, unless evidence is recovered; a hash that another intent holds is
-- refused; else the hash is written and the intent is SUBMITTED, whatever its status was.
pub bind_transaction_hash_lem :
    (env : Runtime) (id : String) (t : Table) (i : Intent) (rounds : ℕ) (value : String)
    (lease_owner : Option String) (recovery : Bool) (now : ℕ)
    → HasRow env id t i
    → i.transaction_hash ≢ some ""
    → bind_transaction_hash env (suc rounds) id value lease_owner recovery now t ≡ (
        if not (is_0x_hex 64 value)
        then (t, threw hash_conflict)
        else if same? i.transaction_hash (some (env.lower value))
        then (t, done i)
        else if is_some i.transaction_hash
        then (t, threw hash_conflict)
        else if not (may_submit i lease_owner recovery now)
        then (t, threw active_lease)
        else if any (holds_hash id (env.lower value)) t
        then (t, threw hash_conflict)
        else (
          update_where (is_unbound id) (set_hash (env.lower value)) t,
          done (set_hash (env.lower value) i),
        ))
unfolding bind_transaction_hash transaction_hash
bind_transaction_hash_lem env id t i rounds value lease_owner recovery now row filled =
    elim (Bool-cases (is_0x_hex 64 value)) [
      | inr bad ↦ ground arith
      | inl good ↦ elim (Bool-cases (same? i.transaction_hash (some (env.lower value)))) [
        | inl confirmed ↦ ground (arith, get_row env id t i row)
        | inr other ↦ elim (Bool-cases (is_some i.transaction_hash)) [
          | inl another ↦
              ground (arith, get_row env id t i row, truthy-is_some i.transaction_hash filled)
          | inr unbound ↦ elim (Bool-cases (may_submit i lease_owner recovery now)) [
            | inr refused ↦ ground (
              arith,
              get_row env id t i row,
              truthy-is_some i.transaction_hash filled,
              submitter env id t i row lease_owner recovery now,
            )
            | inl allowed ↦ elim (Bool-cases (any (holds_hash id (env.lower value)) t)) [
              | inl taken ↦ ground (
                arith,
                get_row env id t i row,
                truthy-is_some i.transaction_hash filled,
                submitter env id t i row lease_owner recovery now,
                taken_write env id (env.lower value) t taken,
              )
              | inr free ↦
                  let at : is_unbound id i ≡ true =
                    ground (arith, find_sound (has_id id) t row.there) in
                  ground (
                    arith,
                    get_row env id t i row,
                    truthy-is_some i.transaction_hash filled,
                    submitter env id t i row lease_owner recovery now,
                    free_write env id (env.lower value) t free
                        (unbound_count env id t i row (env.lower value) ∙ ap from_Bool at),
                    get_row env id (bound_table env id t i row (env.lower value))
                        (set_hash (env.lower value) i)
                        (bound-HasRow env id t i row (env.lower value) at),
                  )
            ]
          ]
        ]
      ]
    ]
