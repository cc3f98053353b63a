-- ===== src/Task/Transactions/Laws.antt =====
-- What the aggregation of a task's transactions says of them.
use wizpay_core.Prelude.{
  ◌+◌, ◌<◌, ◌≡◌, refl, ◌↔◌, String, Bool, true, false, List, [], ◌∷◌, some, find, count,
  update_where, length, arith, length-filter, find_written,
}
use wizpay_core.Prelude.Text.{same_refl}
use wizpay_core.Prelude.Outcome.{done}
use wizpay_core.Task.{TxStatus, pending, TaskTransaction, Db}
use wizpay_core.Task.Transactions.{
  UpdateTransactionInput, is_completed, is_failed, has_tx_id, has_row_id, set_transaction,
  update_transaction, aggregate,
}

abbrev pub is_pending : TxStatus → Bool
is_pending pending = true
is_pending _ = false

count_by_status :
    (txs : List TaskTransaction)
    → length txs
      ≡ count (λ t. is_completed t.status) txs
        + count (λ t. is_failed t.status) txs
        + count (λ t. is_pending t.status) txs
unfolding count
count_by_status [] = omega arith
count_by_status (t ∷ txs) = ground (arith, count_by_status txs)

-- The aggregation counts the completed, the failed and the pending transactions, which are all of
-- them; it calls the task terminal exactly when there is a transaction and none is pending.
pub aggregate_partition :
    (txs : List TaskTransaction)
    → ((aggregate txs).completed ≡ count (λ t. is_completed t.status) txs)
      × ((aggregate txs).failed ≡ count (λ t. is_failed t.status) txs)
      × ((aggregate txs).pending ≡ count (λ t. is_pending t.status) txs)
      × ((aggregate txs).total ≡ length txs)
      × (((aggregate txs).all_terminal ≡ true)
          ↔ ((0 < length txs) × (count (λ t. is_pending t.status) txs ≡ 0)))
unfolding aggregate
aggregate_partition txs =
    let c = length-filter (λ (t : TaskTransaction). is_completed t.status) txs in
    let f = length-filter (λ (t : TaskTransaction). is_failed t.status) txs in
    let n = count_by_status txs in
    (c, f, ground arith, refl, (λ h. ground arith, λ h. ground arith))

-- `updateTransaction` on a known id: the first transaction with that id is the one written, and
-- nothing but the table of transactions changes.
pub update_transaction_found :
    (tx_id : String) (update : UpdateTransactionInput) (db : Db) (t : TaskTransaction)
    → find (has_tx_id tx_id) db.transactions ≡ some t
    → (find (has_tx_id tx_id) (update_transaction tx_id update db).0.transactions
        ≡ some (set_transaction update t))
      × (update_transaction tx_id update db ≡ (
        record db {
          transactions = update_where (has_row_id t.id) (set_transaction update) db.transactions;
        },
        done tt,
      ))
unfolding update_transaction
update_transaction_found tx_id update db t e = (
  ground (
    arith,
    find_written (has_row_id t.id) (has_tx_id tx_id) (set_transaction update) db.transactions
        {x = t} (λ a. refl) (same_refl t.id) e,
  ),
  ground arith,
)
