-- ===== src/Intent/Refinement.antt =====
-- execution-intent.service.ts: the handlers, on the row that they are called for, make the steps of
-- Intent/Interleaving and no others.
use wizpay_core.Prelude.{
  ℕ, suc, ◌+◌, ◌≡◌, ◌≢◌, refl, sym, String, Bool, true, false, ◌||◌, not, if◌then◌else◌, Option,
  some, any, update_where, arith, subst, is_some, find_sound,
}
use wizpay_core.Prelude.Text.{same, same?}
use wizpay_core.Prelude.Outcome.{Handler, Outcome, done, threw}
use wizpay_core.Chain.{is_0x_hex}
use wizpay_core.Intent.{
  IntentStatus, same_status, includes, transitions, is_terminal, Intent, Table, Runtime,
}
use wizpay_core.Intent.Service.{
  has_id, TransitionData, transition, set_transition, is_at, active_lease, hash_conflict,
  immutable_conflict, invalid_transition, terminal, acquire_lease, may_lease, set_lease,
}
use wizpay_core.Intent.Submission.{
  bind_transaction_hash, is_unbound, set_hash, holds_hash, cancel_unsubmitted, is_without_evidence,
  set_cancelled,
}
use wizpay_core.Intent.Row.{HasRow, moved, transition_lem}
use wizpay_core.Intent.Lease.{is_bad_request, acquire_lease_lem, leased-HasRow}
use wizpay_core.Intent.Evidence.{may_submit, bind_transaction_hash_lem, bound-HasRow}
use wizpay_core.Intent.Outcomes.{is_cancellable, cancel_unsubmitted_lem, cancelled-HasRow}
use wizpay_core.Intent.Interleaving.{Write, move, lease, bind_hash, cancel, Writes, over, next}

-- A request on an intent.
pub data Request : Type 0 where
  ask_transition : (expected target : IntentStatus) (data_ : TransitionData) (now : ℕ) → Request
  ask_lease : (owner : String) (ttl_ms now : ℕ) → Request
  ask_hash :
      (rounds : ℕ) (hash : String) (owner : Option String) (recovery : Bool) (now : ℕ) → Request
  ask_cancel : (key : String) → Request

abbrev pub serve : Runtime → String → Request → Handler Table Intent
serve env id (ask_transition expected target data_ now) =
    transition env id expected target data_ now
serve env id (ask_lease owner ttl_ms now) = acquire_lease env id owner ttl_ms now
serve env id (ask_hash rounds hash owner recovery now) =
    bind_transaction_hash env (suc rounds) id hash owner recovery now
serve env id (ask_cancel key) = cancel_unsubmitted env id key

-- The row after a request is reached from the row before by steps of the interleaving.
abbrev pub Refines : Runtime → String → Intent → Table × Outcome Intent → Type 0
Refines env id i r = (j : Intent) × HasRow env id r.0 j × Writes id i j

module _ (env : Runtime) (id : String) (t : Table) (i : Intent) (row : HasRow env id t i) where
  stays : (o : Outcome Intent) → Refines env id i (t, o)
  stays o = (i, row, over)

  writes :
      (t' : Table) (o : Outcome Intent) {j : Intent}
      → HasRow env id t' j
      → Write id i j
      → Refines env id i (t', o)
  writes t' o {j} row' w = (j, row', next w over)

branch :
    (env : Runtime) (id : String) (i : Intent) (r s : Table × Outcome Intent) (b : Bool)
    → (b ≡ true → Refines env id i r)
    → (b ≡ false → Refines env id i s)
    → Refines env id i (if b then r else s)
branch env id i r s true f g = f refl
branch env id i r s false f g = g refl

-- A request to move an intent's status, to take its lease, to bind a hash or to cancel, on an intent that is there once, on the runtime's network, and of which no
-- hash and no correlation is the empty text, leaves it there once, reached by the writes of
-- Intent/Interleaving, whether it returns or throws.
pub serve-Writes :
    (env : Runtime) (id : String) (t : Table) (i : Intent) (q : Request)
    → HasRow env id t i
    → i.transaction_hash ≢ some ""
    → i.circle_challenge_id ≢ some ""
    → i.circle_transaction_id ≢ some ""
    → Refines env id i (serve env id q t)
serve-Writes env id t i (ask_transition expected target data_ now) row h c x =
    subst (Refines env id i) (sym (transition_lem env id t i expected target data_ now row)) (
      branch env id i _ _ (not (includes (transitions expected) target))
        (λ off. stays env id t i row (threw invalid_transition))
        (λ on.
          branch env id i _ _ (same_status i.status expected)
            (λ here.
              let at : is_at id expected i ≡ true =
                ground (arith, find_sound (has_id id) t row.there) in
              writes env id t i row
                (update_where (is_at id expected) (set_transition target data_ now) t)
                (done (set_transition target data_ now i))
                (moved env id t i row expected target data_ now at)
                (move expected target data_ now (ground arith) at))
            (λ elsewhere.
              stays env id t i row
                (threw (if is_terminal i.status then terminal else invalid_transition)))))
serve-Writes env id t i (ask_lease owner ttl_ms now) row h c x =
    subst (Refines env id i) (sym (acquire_lease_lem env id t i row owner ttl_ms now)) (
      branch env id i _ _ (is_bad_request owner ttl_ms)
        (λ bad. stays env id t i row (threw active_lease))
        (λ good.
          branch env id i _ _ (may_lease id now i)
            (λ free.
              writes env id t i row
                (update_where (may_lease id now) (set_lease owner (now + ttl_ms)) t)
                (done (set_lease owner (now + ttl_ms) i))
                (leased-HasRow env id t i row owner ttl_ms now free)
                (lease owner (now + ttl_ms) now free))
            (λ busy.
              stays env id t i row
                (threw (if is_terminal i.status then terminal else active_lease)))))
serve-Writes env id t i (ask_hash rounds hash owner recovery now) row h c x =
    let new : String = env.lower hash in
    subst (Refines env id i)
      (sym (bind_transaction_hash_lem env id t i rounds hash owner recovery now row h))
      (branch env id i _ _ (not (is_0x_hex 64 hash))
        (λ bad. stays env id t i row (threw hash_conflict))
        (λ good.
          branch env id i _ _ (same? i.transaction_hash (some new))
            (λ confirmed. stays env id t i row (done i))
            (λ other.
              branch env id i _ _ (is_some i.transaction_hash)
                (λ another. stays env id t i row (threw hash_conflict))
                (λ unbound.
                  branch env id i _ _ (not (may_submit i owner recovery now))
                    (λ refused. stays env id t i row (threw active_lease))
                    (λ allowed.
                      branch env id i _ _ (any (holds_hash id new) t)
                        (λ taken. stays env id t i row (threw hash_conflict))
                        (λ free.
                          let at : is_unbound id i ≡ true =
                            ground (arith, find_sound (has_id id) t row.there) in
                          writes env id t i row (update_where (is_unbound id) (set_hash new) t)
                            (done (set_hash new i)) (bound-HasRow env id t i row new at)
                            (bind_hash new at)))))))
serve-Writes env id t i (ask_cancel key) row h c x =
    subst (Refines env id i) (sym (cancel_unsubmitted_lem env id t i key row h c x)) (
      branch env id i _ _ (not (same i.idempotency_key key))
        (λ stranger. stays env id t i row (threw immutable_conflict))
        (λ known.
          branch env id i _ _
            (is_some i.transaction_hash
              || is_some i.circle_challenge_id
              || is_some i.circle_transaction_id
              || not (is_cancellable i.status))
            (λ evidence. stays env id t i row (threw invalid_transition))
            (λ bare.
              let at : is_without_evidence id i ≡ true =
                ground (arith, find_sound (has_id id) t row.there) in
              writes env id t i row (update_where (is_without_evidence id) set_cancelled t)
                (done (set_cancelled i)) (cancelled-HasRow env id t i row at) (cancel at))))
