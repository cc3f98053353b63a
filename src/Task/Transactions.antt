-- ===== src/Task/Transactions.antt =====
-- apps/backend/src/task/task-transaction.service.ts: the transactions attached to a task.
pub mod Laws
use mathlib.Core.List.{filter_map}
use wizpay_core.Prelude.{
  ℕ, ◌+◌, ◌-◌, String, Bool, true, false, ◌&&◌, List, [], ◌∷◌, ◌++◌, Option, none, some, find,
  filter, update_where, length, if◌then◌else◌, ltb, ◌==◌,
}
use wizpay_core.Prelude.Text.{same}
use wizpay_core.Prelude.Outcome.{
  Handler, Outcome, done, threw, Error, not_found, ◌>>=◌, ◌>>◌, return, or_throw,
}
use wizpay_core.Task.{TxStatus, pending, completed, failed, TaskTransaction, Db}

pub record AppendTransactionInput : Type 0 where
  pub task_id : String
  pub tx_id : String
  pub recipient : String
  pub amount : String
  pub currency : String
  pub batch_index : ℕ

-- An absent field is `none`; the callers never write `null`.
pub record UpdateTransactionInput : Type 0 where
  pub status : TxStatus
  pub tx_hash : Option String
  pub error_reason : Option String
  pub poll_attempts : Option ℕ

pub record Aggregation : Type 0 where
  pub total : ℕ
  pub completed : ℕ
  pub failed : ℕ
  pub pending : ℕ
  pub all_terminal : Bool
  pub tx_hashes : List String

abbrev pub is_completed : TxStatus → Bool
is_completed completed = true
is_completed _ = false

abbrev pub is_failed : TxStatus → Bool
is_failed failed = true
is_failed _ = false

abbrev pub has_tx_id : String → TaskTransaction → Bool
has_tx_id tx_id t = same t.tx_id tx_id

abbrev pub has_row_id : String → TaskTransaction → Bool
has_row_id id t = same t.id id

-- The database chooses the new row's `id`. The other columns start at their defaults.
unfoldable pub append_transaction : String → AppendTransactionInput → Handler Db TaskTransaction
append_transaction id input db =
    let row : TaskTransaction = record {
      id = id;
      task_id = input.task_id;
      tx_id = input.tx_id;
      recipient = input.recipient;
      amount = input.amount;
      currency = input.currency;
      status = pending;
      tx_hash = none;
      error_reason = none;
      batch_index = input.batch_index;
      poll_attempts = 0;
    } in
    (record db { transactions = db.transactions ++ row ∷ [] }, done row)

abbrev overwrite {ℓ} : {A : Type ℓ} → Option A → A → A
overwrite none old = old
overwrite (some new) old = new

abbrev overwrite? {ℓ} : {A : Type ℓ} → Option A → Option A → Option A
overwrite? none old = old
overwrite? (some new) old = some new

abbrev pub set_transaction : UpdateTransactionInput → TaskTransaction → TaskTransaction
set_transaction update t = record t {
  status = update.status;
  tx_hash = overwrite? update.tx_hash t.tx_hash;
  error_reason = overwrite? update.error_reason t.error_reason;
  poll_attempts = overwrite update.poll_attempts t.poll_attempts;
}

unfoldable pub find_transaction : String → Handler Db TaskTransaction
find_transaction tx_id db = or_throw (find (has_tx_id tx_id) db.transactions) not_found db

unfoldable pub write_transaction : String → UpdateTransactionInput → Handler Db (Unit {0})
write_transaction id update db = (
  record db {
    transactions = update_where (has_row_id id) (set_transaction update) db.transactions;
  },
  done tt,
)

unfoldable pub update_transaction : String → UpdateTransactionInput → Handler Db (Unit {0})
unfolding find_transaction write_transaction
update_transaction tx_id update = do
  existing ← find_transaction tx_id
  write_transaction existing.id update

abbrev pub is_of_task : String → TaskTransaction → Bool
is_of_task task_id t = same t.task_id task_id

unfoldable pub aggregate : List TaskTransaction → Aggregation
aggregate txs =
    let total = length txs in
    let completed = length (filter (λ t. is_completed t.status) txs) in
    let failed = length (filter (λ t. is_failed t.status) txs) in
    let pending = total - completed - failed in
    record {
      total = total;
      completed = completed;
      failed = failed;
      pending = pending;
      all_terminal = pending == 0 && ltb 0 total;
      tx_hashes = filter_map (λ t. t.tx_hash) txs;
    }

unfoldable pub get_transaction_aggregation : String → Db → Aggregation
unfolding aggregate
get_transaction_aggregation task_id db = aggregate (filter (is_of_task task_id) db.transactions)
