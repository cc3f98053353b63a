-- ===== src/Task.antt =====
-- apps/backend/src/task: the tables of the task engine and its status map.
-- A row keeps the columns that the code tests or writes by a rule; the free-form JSON columns
-- (`metadata`, `context`) and the messages, which the code only stores, are left out.
pub mod Lifecycle
pub mod Units
pub mod Transactions
mod Tests
use wizpay_core.Prelude.{
  ℕ, ◌≡◌, Bool, true, false, ◌||◌, List, [], ◌∷◌, Option, String, arith, ◌==◌,
}

-- task-status.enum.ts
pub data TaskStatus : Type 0 where
  created assigned in_progress review approved executed partial failed : TaskStatus

abbrev pub ordinal : TaskStatus → ℕ
ordinal created = 0
ordinal assigned = 1
ordinal in_progress = 2
ordinal review = 3
ordinal approved = 4
ordinal executed = 5
ordinal partial = 6
ordinal failed = 7

-- `a === b`
abbrev pub same_status : TaskStatus → TaskStatus → Bool
same_status a b = ordinal a == ordinal b

pub eq_of_same_status : (a b : TaskStatus) → same_status a b ≡ true → a ≡ b
eq_of_same_status a b h = ground arith

-- ALLOWED_TRANSITIONS
abbrev pub allowed_transitions : TaskStatus → List TaskStatus
allowed_transitions created = assigned ∷ failed ∷ []
allowed_transitions assigned = in_progress ∷ failed ∷ []
allowed_transitions in_progress = review ∷ executed ∷ partial ∷ failed ∷ []
allowed_transitions review = approved ∷ failed ∷ []
allowed_transitions approved = executed ∷ failed ∷ []
allowed_transitions executed = []
allowed_transitions partial = []
allowed_transitions failed = []

abbrev pub includes : List TaskStatus → TaskStatus → Bool
includes [] s = false
includes (x ∷ xs) s = same_status x s || includes xs s

-- What the poller stores in `result` when it settles a task.
pub record TaskResult : Type 0 where
  pub total : ℕ
  pub completed : ℕ
  pub failed : ℕ
  pub tx_hashes : List String

-- task-type.enum.ts
pub data TaskType : Type 0 where
  payroll swap bridge liquidity fx : TaskType

-- What the capability check of a payroll reads of the payload: the token that is paid with, and each
-- recipient with its token, where it has one. A value that is no text counts as a text that is no address.
pub record Recipient : Type 0 where
  pub target_token_address : Option String

pub record Payload : Type 0 where
  pub source_token_address : Option String
  pub recipients : List (Option Recipient)

pub record Task : Type 0 where
  pub id : String
  pub kind : TaskType
  pub payload : Payload
  pub status : TaskStatus
  pub total_units : ℕ
  pub completed_units : ℕ
  pub failed_units : ℕ
  pub result : Option TaskResult

pub data UnitStatus : Type 0 where
  pending success failed : UnitStatus

pub record TaskUnit : Type 0 where
  pub id : String
  pub task_id : String
  pub index : ℕ
  pub status : UnitStatus
  pub tx_hash : Option String
  pub error : Option String

pub data TxStatus : Type 0 where
  pending completed failed : TxStatus

pub record TaskTransaction : Type 0 where
  pub id : String
  pub task_id : String
  pub tx_id : String
  pub recipient : String
  pub amount : String
  pub currency : String
  pub status : TxStatus
  pub tx_hash : Option String
  pub error_reason : Option String
  pub batch_index : ℕ
  pub poll_attempts : ℕ

pub data LogLevel : Type 0 where
  info error : LogLevel

pub record TaskLog : Type 0 where
  pub task_id : String
  pub level : LogLevel
  pub step : String
  pub status : TaskStatus

-- A job of the `tx_poll` queue.
pub record TxPollJob : Type 0 where
  pub network : String
  pub task_id : String
  pub tx_id : String
  pub attempt : ℕ

-- The database and the queue. Rows are appended at the end.
pub record Db : Type 0 where
  pub tasks : List Task
  pub units : List TaskUnit
  pub transactions : List TaskTransaction
  pub logs : List TaskLog
  pub poll_jobs : List TxPollJob
