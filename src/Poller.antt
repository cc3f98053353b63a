-- ===== src/Poller.antt =====
-- apps/backend/src/queue/processors/transaction-poller.service.ts: one poll of a transaction, with
-- the part of queue.service.ts that puts the next poll on the queue.
-- The receipt that the chain gives is an argument; a job's delay is left out.
pub mod Finalization
pub mod Loop
mod Tests
use Prim.Native.String
use wizpay_core.Prelude.{
  ℕ, ◌+◌, String, Bool, true, false, not, List, [], ◌∷◌, ◌++◌, Option, none, some, if◌then◌else◌,
  leb, ◌==◌,
}
use wizpay_core.Prelude.Text.{same}
use wizpay_core.Prelude.Outcome.{
  Handler, Outcome, done, threw, Error, failure, ◌>>=◌, ◌>>◌, return, throw_if,
}
use wizpay_core.Task.{
  TaskStatus, in_progress, executed, partial, failed, TaskResult, TxStatus, TxPollJob, Task, Db,
}
use wizpay_core.Task.Lifecycle.{log_step, has_log_step, update_status}
use wizpay_core.Task.Transactions.{
  UpdateTransactionInput, update_transaction, Aggregation, get_transaction_aggregation,
}

abbrev pub max_poll_attempts : ℕ
max_poll_attempts = 180

abbrev pub receipt_success_status : String
receipt_success_status = "0x1"

-- What the read of a receipt gives: a throw, `null`, or a receipt.
pub data ReceiptRead : Type 0 where
  unreachable : ReceiptRead
  no_receipt : ReceiptRead
  receipt : (status transaction_hash : String) → ReceiptRead

-- `enqueueTransactionPoll`; `bindSelectedNetwork` refuses another network than the selected one.
unfoldable pub enqueue_transaction_poll : String → TxPollJob → Handler Db (Unit {0})
enqueue_transaction_poll selected job db =
    if same job.network selected
    then (record db { poll_jobs = db.poll_jobs ++ job ∷ [] }, done tt)
    else (db, threw failure)

-- The status, the step and the result that a task with these transactions is settled with.
unfoldable pub verdict : Aggregation → TaskStatus
verdict a = if a.failed == 0 then executed else if a.completed == 0 then failed else partial

unfoldable pub verdict_step : TaskStatus → String
verdict_step executed = "task.executed"
verdict_step failed = "task.failed"
verdict_step _ = "task.partial"

abbrev pub result_of : Aggregation → TaskResult
result_of a = record {
  total = a.total;
  completed = a.completed;
  failed = a.failed;
  tx_hashes = a.tx_hashes;
}

abbrev pub ignore : {A : Type 0} → Handler Db A → Handler Db (Unit {0})
ignore m = m >>= λ _. return tt

unfoldable pub check_and_finalize_task : String → Handler Db (Unit {0})
check_and_finalize_task task_id db =
    let a = get_transaction_aggregation task_id db in
    if not (has_log_step task_id "task.submissions_complete" db)
    then (db, done tt)
    else if not a.all_terminal
    then (db, done tt)
    else ignore (update_status task_id (verdict a) (verdict_step (verdict a)) (some (result_of a)))
        db

abbrev pub fail_with : String → ℕ → UpdateTransactionInput
fail_with reason attempts = record {
  status = TxStatus.failed;
  tx_hash = none;
  error_reason = some reason;
  poll_attempts = some attempts;
}

unfoldable pub timeout_reason : String
timeout_reason = "Transaction did not reach terminal state within 180 poll attempts (360s)"

unfoldable pub network_reason : String → String
network_reason network =
    String.◌++◌ "Transaction polling supports Arc Mainnet only (got network=\""
      (String.◌++◌ network "\").")

unfoldable pub receipt_reason : String → String
receipt_reason status = String.◌++◌ "Mainnet transaction ended with receipt status: " status

abbrev pub still_pending : ℕ → UpdateTransactionInput
still_pending attempts = record {
  status = TxStatus.pending;
  tx_hash = none;
  error_reason = none;
  poll_attempts = some attempts;
}

abbrev pub complete_with : String → ℕ → UpdateTransactionInput
complete_with hash attempts = record {
  status = TxStatus.completed;
  tx_hash = some hash;
  error_reason = none;
  poll_attempts = some attempts;
}

-- The writes of a poll that settles its transaction: the row, one log entry, and the task if it was
-- the last.
unfoldable pub settle : TxPollJob → UpdateTransactionInput → String → Handler Db (Unit {0})
unfolding log_step
settle job update step = do
  update_transaction job.tx_id update
  log_step job.task_id step in_progress none
  check_and_finalize_task job.task_id

abbrev pub next_attempt : TxPollJob → TxPollJob
next_attempt job = record job { attempt = job.attempt + 1 }

unfoldable pub poll_receipt : String → ReceiptRead → TxPollJob → Handler Db (Unit {0})
unfolding enqueue_transaction_poll receipt_reason
poll_receipt selected unreachable job = do
  enqueue_transaction_poll selected (next_attempt job)
  update_transaction job.tx_id (still_pending (job.attempt + 1))
poll_receipt selected no_receipt job = do
  update_transaction job.tx_id (still_pending (job.attempt + 1))
  enqueue_transaction_poll selected (next_attempt job)
poll_receipt selected (receipt status hash) job =
    if same status receipt_success_status
    then settle job (complete_with hash (job.attempt + 1)) "tx.completed"
    else settle job (fail_with (receipt_reason status) (job.attempt + 1)) "tx.failed"

-- `poll`: `selected` is the network of the runtime, `read` what the chain answers.
unfoldable pub poll : String → ReceiptRead → TxPollJob → Handler Db (Unit {0})
unfolding timeout_reason network_reason
poll selected read job =
    if not (same job.network "arc-mainnet")
    then settle job (fail_with (network_reason job.network) (job.attempt + 1))
        "tx.receipt_verification_failed"
    else if leb max_poll_attempts job.attempt
    then settle job (fail_with timeout_reason job.attempt) "tx.timeout"
    else poll_receipt selected read job
