-- ===== src/Intent/Interleaving.antt =====
-- execution-intent.service.ts: requests on one intent that run at the same time. What they share is
-- its row, which they write by `updateMany` alone: each of these tests its condition and writes in one
-- step of the database, on what the row holds then and not on what the request has read before.
use wizpay_core.Prelude.{ℕ, ◌≡◌, String, true, ◌&&◌, not, some, arith, is_some}
use wizpay_core.Intent.{IntentStatus, completed, includes, transitions, Intent}
use wizpay_core.Intent.Service.{has_id, TransitionData, set_transition, is_at, may_lease, set_lease}
use wizpay_core.Intent.Binding.{
  Context, Correlation, same_context, set_context, same_correlation, set_correlation,
}
use wizpay_core.Intent.Submission.{is_unbound, set_hash, is_without_evidence, set_cancelled}

-- One `updateMany` of some request that finds its condition true. `seen` is what the request has
-- read before.
pub data Write (id : String) : Intent → Intent → Type 0 where
  move :
      {i : Intent} (expected next : IntentStatus) (data_ : TransitionData) (now : ℕ)
      → includes (transitions expected) next ≡ true
      → is_at id expected i ≡ true
      → Write id i (set_transition next data_ now i)
  attach :
      {i : Intent} (task_id : String)
      → (has_id id i && not (is_some i.task_id)) ≡ true
      → Write id i (record i { task_id = some task_id })
  lease :
      {i : Intent} (owner : String) (expires now : ℕ)
      → may_lease id now i ≡ true
      → Write id i (set_lease owner expires i)
  bind_context :
      {i : Intent} (seen : Intent) (c : Context)
      → same_context seen i ≡ true
      → Write id i (set_context seen c i)
  correlate :
      {i : Intent} (seen : Intent) (c : Correlation)
      → same_correlation seen i ≡ true
      → Write id i (set_correlation seen c i)
  bind_hash : {i : Intent} (hash : String) → is_unbound id i ≡ true → Write id i (set_hash hash i)
  cancel : {i : Intent} → is_without_evidence id i ≡ true → Write id i (set_cancelled i)

-- Any number of requests, their writes in any order.
pub data Writes (id : String) : Intent → Intent → Type 0 where
  over : {i : Intent} → Writes id i i
  next : {i j k : Intent} → Write id i j → Writes id j k → Writes id i k

module _ (id hash : String) where
  keeps_hash :
      {i j : Intent}
      → Write id i j
      → i.transaction_hash ≡ some hash
      → j.transaction_hash ≡ some hash
  keeps_hash (move e n d now on at) h = h
  keeps_hash (attach t c) h = h
  keeps_hash (lease o e now c) h = h
  keeps_hash (bind_context s c g) h = h
  keeps_hash (correlate s c g) h = h
  keeps_hash (bind_hash new free) h = ground arith
  keeps_hash (cancel free) h = h

  stays_completed :
      {i j : Intent}
      → Write id i j
      → i.transaction_hash ≡ some hash
      → i.status ≡ completed
      → j.status ≡ completed
  stays_completed (move e n d now on at) h s = ground arith
  stays_completed (attach t c) h s = s
  stays_completed (lease o e now c) h s = s
  stays_completed (bind_context x c g) h s = s
  stays_completed (correlate x c g) h s = s
  stays_completed (bind_hash new free) h s = ground arith
  stays_completed (cancel free) h s = ground arith

-- A transaction hash is written once: whatever requests run on the intent at the same time, and in
-- whatever order they write, a hash that is bound to it is neither replaced nor removed.
pub transaction_hash_write_once :
    (id hash : String) {i j : Intent}
    → Writes id i j
    → i.transaction_hash ≡ some hash
    → j.transaction_hash ≡ some hash
transaction_hash_write_once id hash over h = h
transaction_hash_write_once id hash (next w ws) h =
    transaction_hash_write_once id hash ws (keeps_hash id hash w h)

-- A completed intent that has its hash stays completed, whatever requests run on it.
pub completed_final :
    (id hash : String) {i j : Intent}
    → Writes id i j
    → i.transaction_hash ≡ some hash
    → i.status ≡ completed
    → (j.status ≡ completed) × (j.transaction_hash ≡ some hash)
completed_final id hash over h s = (s, h)
completed_final id hash (next w ws) h s =
    completed_final id hash ws (keeps_hash id hash w h) (stays_completed id hash w h s)
