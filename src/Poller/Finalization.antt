-- ===== src/Poller/Finalization.antt =====
-- When the poller settles a task, and with which status.
use wizpay_core.Prelude.{
  ◌<◌, ◌≡◌, refl, ◌⊎◌, inl, inr, String, true, false, List, [], ◌∷◌, some, find, filter, count, all,
  length, arith, if◌then◌else◌, ◌==◌,
}
use wizpay_core.Prelude.Outcome.{Handler, Outcome-cases, done}
use wizpay_core.Task.{TaskStatus, in_progress, executed, partial, failed, Task, TaskTransaction, Db}
use wizpay_core.Task.Lifecycle.{has_task_id, has_log_step, is_valid_transition, update_status}
use wizpay_core.Task.Lifecycle.Laws.{update_status_moves, update_status_frame}
use wizpay_core.Task.Transactions.{
  Aggregation, is_completed, is_failed, is_of_task, aggregate, get_transaction_aggregation,
}
use wizpay_core.Task.Transactions.Laws.{is_pending, aggregate_partition}
use wizpay_core.Poller.{verdict, verdict_step, result_of, ignore, check_and_finalize_task}

-- The status that the transactions of a task call for: executed if all completed, failed if all
-- failed, partial if some did either.
abbrev pub outcome_of : List TaskTransaction → TaskStatus
outcome_of txs =
    if all (λ t. is_completed t.status) txs
    then executed
    else if all (λ t. is_failed t.status) txs
    then failed
    else partial

all-completed :
    (txs : List TaskTransaction)
    → count (λ t. is_pending t.status) txs ≡ 0
    → all (λ t. is_completed t.status) txs ≡ (count (λ t. is_failed t.status) txs == 0)
unfolding all count
all-completed [] h = refl
all-completed (t ∷ txs) h = ground (arith, all-completed txs)

all-failed :
    (txs : List TaskTransaction)
    → count (λ t. is_pending t.status) txs ≡ 0
    → all (λ t. is_failed t.status) txs ≡ (count (λ t. is_completed t.status) txs == 0)
unfolding all count
all-failed [] h = refl
all-failed (t ∷ txs) h = ground (arith, all-failed txs)

verdict-aggregate :
    (txs : List TaskTransaction)
    → count (λ t. is_pending t.status) txs ≡ 0
    → verdict (aggregate txs) ≡ outcome_of txs
unfolding verdict
verdict-aggregate txs h =
    let p = aggregate_partition txs in ground (arith, p.0, p.1, all-completed txs, all-failed txs)

ignore_keeps : {A : Type 0} (m : Handler Db A) (db : Db) → (ignore m db).0 ≡ (m db).0
ignore_keeps m db = elim (Outcome-cases (m db).1) [
  | inl (a, e) ↦ ground arith
  | inr (x, e) ↦ ground arith
]

verdict_reachable : (a : Aggregation) → is_valid_transition in_progress (verdict a) ≡ true
unfolding verdict is_valid_transition
verdict_reachable a = ground arith

-- A task in progress whose submissions are complete, and whose transactions are all settled, gets
-- the status that they call for, and the counts as its result.
pub finalize_settles :
    (task_id : String) (db : Db) (t : Task)
    → find (has_task_id task_id) db.tasks ≡ some t
    → t.status ≡ in_progress
    → has_log_step task_id "task.submissions_complete" db ≡ true
    → 0 < length (filter (is_of_task task_id) db.transactions)
    → count (λ x. is_pending x.status) (filter (is_of_task task_id) db.transactions) ≡ 0
    → find (has_task_id task_id) (check_and_finalize_task task_id db).0.tasks
      ≡ some (record t {
        status = outcome_of (filter (is_of_task task_id) db.transactions);
        result = some (result_of (get_transaction_aggregation task_id db));
      })
unfolding check_and_finalize_task get_transaction_aggregation
finalize_settles task_id db t found st logged some_tx no_pending =
    let txs = filter (is_of_task task_id) db.transactions in
    let a = aggregate txs in
    let ready : a.all_terminal ≡ true = (aggregate_partition txs).4.1 (some_tx, no_pending) in
    ground (
      arith,
      ignore_keeps
          (update_status task_id (verdict a) (verdict_step (verdict a)) (some (result_of a))) db,
      verdict-aggregate txs no_pending,
      verdict_reachable a,
      update_status_moves task_id (verdict a) (verdict_step (verdict a)) (some (result_of a)) db t,
    )

-- Without the end of the submissions, with a transaction still pending, or with none at all, nothing
-- is written.
pub finalize_waits :
    (task_id : String) (db : Db)
    → (has_log_step task_id "task.submissions_complete" db ≡ false)
      ⊎ ((0 < count (λ x. is_pending x.status) (filter (is_of_task task_id) db.transactions))
          ⊎ (length (filter (is_of_task task_id) db.transactions) ≡ 0))
    → check_and_finalize_task task_id db ≡ (db, done tt)
unfolding check_and_finalize_task get_transaction_aggregation
finalize_waits task_id db h =
    ground (arith, aggregate_partition (filter (is_of_task task_id) db.transactions))

-- Settling a task touches neither the transactions, nor the units, nor the queue.
pub finalize_frame :
    (task_id : String) (db : Db)
    → ((check_and_finalize_task task_id db).0.transactions ≡ db.transactions)
      × ((check_and_finalize_task task_id db).0.units ≡ db.units)
      × ((check_and_finalize_task task_id db).0.poll_jobs ≡ db.poll_jobs)
unfolding check_and_finalize_task
finalize_frame task_id db =
    let a = get_transaction_aggregation task_id db in
    ground (
      arith,
      ignore_keeps
          (update_status task_id (verdict a) (verdict_step (verdict a)) (some (result_of a))) db,
      update_status_frame task_id (verdict a) (verdict_step (verdict a)) (some (result_of a)) db,
    )
