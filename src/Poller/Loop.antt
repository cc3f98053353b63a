-- ===== src/Poller/Loop.antt =====
-- The polls of one transaction, from its first job to the last: the queue gives the next job to
-- the poller until none is left.
use wizpay_core.Prelude.{
  ℕ, zero, suc, ◌+◌, ◌<◌, ◌≡◌, refl, sym, ap, ◌∙◌, ◌⊎◌, inl, inr, String, false, [], ◌∷◌, ◌++◌,
  none, some, find, arith, Bool-cases, leb,
}
use wizpay_core.Prelude.Text.{same, same_refl}
use wizpay_core.Prelude.Outcome.{Outcome, ◌>>=◌, bind_of_done}
use wizpay_core.Task.{TaskTransaction, TxPollJob, Db, in_progress}
use wizpay_core.Task.Lifecycle.{log_step}
use wizpay_core.Task.Transactions.{
  has_tx_id, set_transaction, UpdateTransactionInput, update_transaction,
}
use wizpay_core.Task.Transactions.Laws.{is_pending, update_transaction_found}
use wizpay_core.Poller.{
  max_poll_attempts, ReceiptRead, unreachable, no_receipt, receipt, check_and_finalize_task, settle,
  next_attempt, still_pending, fail_with, complete_with, poll_receipt, poll, receipt_success_status,
  receipt_reason, network_reason, timeout_reason,
}
use wizpay_core.Poller.Finalization.{finalize_frame}
use wizpay_core.Prelude.{update_where}
use wizpay_core.Task.Transactions.{has_row_id}

-- The transaction is there and settled.
abbrev pub IsSettled : String → Db → Type 0
IsSettled tx_id db =
    (t : TaskTransaction) × (find (has_tx_id tx_id) db.transactions ≡ some t)
    × (is_pending t.status ≡ false)

-- The worker of the `tx_poll` queue with a bound on the number of polls. What the chain answers may
-- differ from poll to poll.
unfoldable pub run_queue : ℕ → String → (ℕ → ReceiptRead) → Db → Db
run_queue zero selected reads db = db
run_queue (suc fuel) selected reads db = elim db.poll_jobs [
  | [] ↦ db
  | job ∷ rest ↦
      run_queue fuel selected reads
        (poll selected (reads job.attempt) job (record db { poll_jobs = rest })).0
]

module _ (job : TxPollJob) (db : Db) (t : TaskTransaction)
    (found : find (has_tx_id job.tx_id) db.transactions ≡ some t) where
  -- A poll that settles the transaction leaves the queue alone.
  settle_lem :
      (update : UpdateTransactionInput) (step : String)
      → (find (has_tx_id job.tx_id) (settle job update step db).0.transactions
          ≡ some (set_transaction update t))
        × ((settle job update step db).0.poll_jobs ≡ db.poll_jobs)
  unfolding settle log_step
  settle_lem update step =
      let (written, whole) = update_transaction_found job.tx_id update db t found in
      let after : Db = record db {
        transactions = update_where (has_row_id t.id) (set_transaction update) db.transactions;
      } in
      let logged : Db = (log_step job.task_id step in_progress none after).0 in
      let kept = finalize_frame job.task_id logged in
      let whole_run : settle job update step db ≡ check_and_finalize_task job.task_id logged =
        bind_of_done (update_transaction job.tx_id update)
          (λ _.
            log_step job.task_id step in_progress none >>= λ _. check_and_finalize_task job.task_id)
          db whole in
      let (same_transactions, same_units, same_queue) = kept in
      (
        ap (λ (r : Db × Outcome (Unit {0})). find (has_tx_id job.tx_id) r.0.transactions) whole_run
            ∙ ap (find (has_tx_id job.tx_id)) same_transactions
            ∙ ap (λ (r : Db × Outcome (Unit {0})). find (has_tx_id job.tx_id) r.0.transactions)
                (sym whole)
            ∙ written,
        ap (λ (r : Db × Outcome (Unit {0})). r.0.poll_jobs) whole_run ∙ same_queue,
      )

  -- A poll without a receipt leaves the transaction pending and the next poll on the queue.
  poll_again :
      (read : ReceiptRead)
      → (read ≡ unreachable) ⊎ (read ≡ no_receipt)
      → (find (has_tx_id job.tx_id) (poll_receipt job.network read job db).0.transactions
          ≡ some (set_transaction (still_pending (job.attempt + 1)) t))
        × ((poll_receipt job.network read job db).0.poll_jobs
            ≡ db.poll_jobs ++ next_attempt job ∷ [])
  unfolding poll_receipt
  poll_again unreachable h =
      let (written, whole) =
        update_transaction_found job.tx_id (still_pending (job.attempt + 1))
          (record db { poll_jobs = db.poll_jobs ++ next_attempt job ∷ [] }) t found in
      ground (arith, same_refl job.network, written, whole)
  poll_again no_receipt h =
      let (written, whole) =
        update_transaction_found job.tx_id (still_pending (job.attempt + 1)) db t found in
      ground (arith, same_refl job.network, written, whole)
  poll_again (receipt status hash) h = ground arith

  -- What one poll comes to: the transaction is settled and nothing is queued, or the attempts are
  -- not used up and the next one is queued.
  abbrev PollStep : Db × Outcome (Unit {0}) → Type 0
  PollStep r =
      (IsSettled job.tx_id r.0 × (r.0.poll_jobs ≡ db.poll_jobs))
      ⊎ ((job.attempt < max_poll_attempts)
          × ((t' : TaskTransaction) × (find (has_tx_id job.tx_id) r.0.transactions ≡ some t'))
          × (r.0.poll_jobs ≡ db.poll_jobs ++ next_attempt job ∷ []))

  settle-PollStep :
      (update : UpdateTransactionInput) (step : String)
      → is_pending update.status ≡ false
      → PollStep (settle job update step db)
  settle-PollStep update step h =
      let (there, same_queue) = settle_lem update step in
      inl ((set_transaction update t, there, h), same_queue)

  again-PollStep :
      (read : ReceiptRead)
      → (read ≡ unreachable) ⊎ (read ≡ no_receipt)
      → job.attempt < max_poll_attempts
      → PollStep (poll_receipt job.network read job db)
  again-PollStep read h early =
      let (there, queued) = poll_again read h in
      inr (early, (set_transaction (still_pending (job.attempt + 1)) t, there), queued)

  poll_receipt-PollStep :
      (read : ReceiptRead)
      → job.attempt < max_poll_attempts
      → PollStep (poll_receipt job.network read job db)
  unfolding poll_receipt
  poll_receipt-PollStep unreachable early = again-PollStep unreachable (inl refl) early
  poll_receipt-PollStep no_receipt early = again-PollStep no_receipt (inr refl) early
  poll_receipt-PollStep (receipt status hash) early =
      elim (Bool-cases (same status receipt_success_status)) [
        | inl good ↦
            rw good (settle-PollStep (complete_with hash (job.attempt + 1)) "tx.completed" refl)
        | inr bad ↦
            rw bad (
              settle-PollStep (fail_with (receipt_reason status) (job.attempt + 1)) "tx.failed"
                refl)
      ]

  poll_step : (read : ReceiptRead) → PollStep (poll job.network read job db)
  unfolding poll
  poll_step read = elim (Bool-cases (same job.network "arc-mainnet")) [
    | inr other ↦ rw other (
        settle-PollStep (fail_with (network_reason job.network) (job.attempt + 1))
          "tx.receipt_verification_failed" refl)
    | inl mainnet ↦ elim (Bool-cases (leb max_poll_attempts job.attempt)) [
      | inl late ↦
          rw (mainnet, late)
            (settle-PollStep (fail_with timeout_reason job.attempt) "tx.timeout" refl)
      | inr early ↦ rw (mainnet, early) (poll_receipt-PollStep read (ground arith))
    ]
  ]

run_queue_idle :
    (fuel : ℕ) (selected : String) (reads : ℕ → ReceiptRead) (db : Db)
    → db.poll_jobs ≡ []
    → run_queue fuel selected reads db ≡ db
unfolding run_queue
run_queue_idle zero selected reads db e = refl
run_queue_idle (suc fuel) selected reads db e = rw e

-- Polling ends: whatever the chain answers, a transaction of the table whose poll is the only job is
-- settled, and the queue empty, after at most 181 polls less those already made (and at least one).
pub run_queue_settles :
    (fuel : ℕ) (job : TxPollJob) (reads : ℕ → ReceiptRead) (db : Db) (t : TaskTransaction)
    → find (has_tx_id job.tx_id) db.transactions ≡ some t
    → db.poll_jobs ≡ job ∷ []
    → 0 < fuel
    → max_poll_attempts < fuel + job.attempt
    → IsSettled job.tx_id (run_queue fuel job.network reads db)
      × ((run_queue fuel job.network reads db).poll_jobs ≡ [])
unfolding run_queue
run_queue_settles zero job reads db t found queue some_fuel enough = absurd (omega arith)
run_queue_settles (suc fuel) job reads db t found queue some_fuel enough =
    let popped : Db = record db { poll_jobs = [] } in
    let next : Db = (poll job.network (reads job.attempt) job popped).0 in
    rw (queue, run_queue)
      (elim (poll_step job popped t found (reads job.attempt)) [
        | inl (settled, same_queue) ↦
            rw (run_queue_idle fuel job.network reads next same_queue) (settled, same_queue)
        | inr (early, (t', there), queued) ↦
            run_queue_settles fuel (next_attempt job) reads next t' there queued (omega arith)
              (omega arith)
      ])
