-- ===== src/Poller/Tests.antt =====
-- Runs of the poller on one task with one transaction, and the theorems at those inputs.
use mathlib.Core.List.{filter_map}
use wizpay_core.Prelude.{
  ℕ, zero, suc, ◌≡◌, refl, inl, inr, List, [], ◌∷◌, none, some, find, count, filter, all,
  update_where, arith,
}
use wizpay_core.Prelude.Outcome.{done}
use wizpay_core.Task.{
  in_progress, executed, payroll, Task, TaskTransaction, TxStatus, TxPollJob, LogLevel, Db,
}
use wizpay_core.Task.Lifecycle.{has_task_id, has_log_step, update_status}
use wizpay_core.Task.Transactions.{update_transaction, get_transaction_aggregation, is_of_task}
use wizpay_core.Poller.{
  ReceiptRead, no_receipt, receipt, check_and_finalize_task, settle, poll_receipt, poll, verdict,
  verdict_step, result_of,
}
use wizpay_core.Poller.Finalization.{outcome_of, finalize_settles, finalize_waits}
use wizpay_core.Poller.Loop.{run_queue, IsSettled, run_queue_settles}

engine : Unit {0}
unfolding find update_where count filter all update_status update_transaction has_log_step
    get_transaction_aggregation check_and_finalize_task settle poll_receipt poll verdict
    verdict_step run_queue
engine = tt

abbrev a_task : Task
a_task = record {
  id = "t1";
  kind = payroll;
  payload = record { source_token_address = none; recipients = [] };
  status = in_progress;
  total_units = 0;
  completed_units = 0;
  failed_units = 0;
  result = none;
}

abbrev a_transaction : TxStatus → TaskTransaction
a_transaction status = record {
  id = "r1";
  task_id = "t1";
  tx_id = "x1";
  recipient = "0x01";
  amount = "5";
  currency = "USDC";
  status = status;
  tx_hash = none;
  error_reason = none;
  batch_index = 0;
  poll_attempts = 0;
}

abbrev a_job : TxPollJob
a_job = record { network = "arc-mainnet"; task_id = "t1"; tx_id = "x1"; attempt = 0 }

abbrev a_db : TxStatus → Db
a_db status = record {
  tasks = a_task ∷ [];
  units = [];
  transactions = a_transaction status ∷ [];
  logs =
      record {
        task_id = "t1";
        level = LogLevel.info;
        step = "task.submissions_complete";
        status = in_progress;
      }
      ∷ [];
  poll_jobs = a_job ∷ [];
}

abbrev reads : ℕ → ReceiptRead
reads n = elim n [ zero ↦ no_receipt | suc m ↦ receipt "0x1" "0xab" ]

task_done :
    (run_queue 3 "arc-mainnet" reads (a_db TxStatus.pending)).tasks
    ≡ record a_task {
      status = executed;
      result = some (record { total = 1; completed = 1; failed = 0; tx_hashes = "0xab" ∷ [] });
    }
      ∷ []
unfolding engine filter_map
task_done = refl

run_queue_settles_example :
    IsSettled "x1" (run_queue 181 "arc-mainnet" reads (a_db TxStatus.pending))
    × ((run_queue 181 "arc-mainnet" reads (a_db TxStatus.pending)).poll_jobs ≡ [])
unfolding engine
run_queue_settles_example =
    run_queue_settles 181 a_job reads (a_db TxStatus.pending) (a_transaction TxStatus.pending) refl
      refl (omega arith) (omega arith)

finalize_settles_example :
    find (has_task_id "t1") (check_and_finalize_task "t1" (a_db TxStatus.completed)).0.tasks
    ≡ some (record a_task {
      status = outcome_of (filter (is_of_task "t1") (a_db TxStatus.completed).transactions);
      result = some (result_of (get_transaction_aggregation "t1" (a_db TxStatus.completed)));
    })
unfolding find count filter has_log_step
finalize_settles_example =
    finalize_settles "t1" (a_db TxStatus.completed) a_task refl refl refl (omega arith) refl

finalize_waits_example :
    check_and_finalize_task "t1" (a_db TxStatus.pending) ≡ (a_db TxStatus.pending, done tt)
unfolding find count filter has_log_step
finalize_waits_example = finalize_waits "t1" (a_db TxStatus.pending) (inr (inl (omega arith)))

abbrev failed_txs : List TaskTransaction
failed_txs = a_transaction TxStatus.failed ∷ []
