-- ===== src/Task/Units.antt =====
-- apps/backend/src/task/task-unit.service.ts: the report of one unit of a task.
pub mod Counters
pub mod Laws
pub mod Order
use wizpay_core.Prelude.{
  ℕ, suc, zero, ◌+◌, String, Bool, true, false, ◌&&◌, not, List, [], ◌∷◌, ◌++◌, Option, none, some,
  find, update_where, if◌then◌else◌, or_else, ltb, leb, ◌==◌, filter,
}
use wizpay_core.Prelude.Text.{same}
use wizpay_core.Prelude.Outcome.{
  Handler, Outcome, done, threw, Error, not_found, failure, ◌>>=◌, ◌>>◌, return, or_throw, atomic,
}
use wizpay_core.Chain.{normalize_chain_tx_id}
use wizpay_core.Task.{
  TaskStatus, in_progress, review, executed, Task, TaskUnit, UnitStatus, LogLevel, info, error, Db,
}
use wizpay_core.Task.Lifecycle.{has_task_id, get_task_by_id, write_status, log_step}

-- `status` is SUCCESS or FAILED.
pub data Report : Type 0 where
  success failed : Report

-- `ReportTaskUnitInput`. The outer `none` of a field is `undefined`, the inner one `null`.
pub record ReportInput : Type 0 where
  pub status : Report
  pub tx_hash : Option (Option String)
  pub error : Option (Option String)

abbrev pub reported : Report → UnitStatus
reported success = UnitStatus.success
reported failed = UnitStatus.failed

abbrev pub is_pending : UnitStatus → Bool
is_pending UnitStatus.pending = true
is_pending _ = false

abbrev pub has_unit_id : String → TaskUnit → Bool
has_unit_id unit_id u = same u.id unit_id

-- `where: { id: unitId, taskId }`
abbrev pub is_unit_of : String → String → TaskUnit → Bool
is_unit_of task_id unit_id u = has_unit_id unit_id u && same u.task_id task_id

-- The column after `data: { ...(value !== undefined ? { column: value } : {}) }`.
abbrev pub written : Option (Option String) → Option String → Option String
written none old = old
written (some value) old = value

abbrev pub normalized_hash : Option (Option String) → Option (Option String)
normalized_hash none = none
normalized_hash (some value) = some (normalize_chain_tx_id value)

abbrev pub set_report : ReportInput → TaskUnit → TaskUnit
set_report input u = record u {
  status = reported input.status;
  tx_hash = written (normalized_hash input.tx_hash) u.tx_hash;
  error = written input.error u.error;
}

-- `{ increment: 1 }` on the counter that the report names.
abbrev pub increment : Report → Task → Task
increment success t = record t { completed_units = t.completed_units + 1 }
increment failed t = record t { failed_units = t.failed_units + 1 }

unfoldable pub recompute_task_status : ℕ → ℕ → ℕ → TaskStatus
recompute_task_status total_units completed_units failed_units =
    if ltb 0 failed_units
    then review
    else if ltb 0 total_units && completed_units == total_units
    then executed
    else in_progress

abbrev pub level_of : Report → LogLevel
level_of success = info
level_of failed = error

unfoldable pub write_unit : String → ReportInput → Handler Db (Unit {0})
write_unit unit_id input db =
    (record db { units = update_where (has_unit_id unit_id) (set_report input) db.units }, done tt)

unfoldable pub write_counters : String → Report → Handler Db (Unit {0})
write_counters task_id status db =
    (record db { tasks = update_where (has_task_id task_id) (increment status) db.tasks }, done tt)

unfoldable pub find_unit : String → String → Handler Db TaskUnit
find_unit task_id unit_id db = or_throw (find (is_unit_of task_id unit_id) db.units) not_found db

-- `units: { orderBy: [{ index: 'asc' }, { createdAt: 'asc' }] }`: rows are appended as they are
-- created, so among equal indices the order of the table stays.
insert_by_index : TaskUnit → List TaskUnit → List TaskUnit
insert_by_index u [] = u ∷ []
insert_by_index u (v ∷ vs) = if leb u.index v.index then u ∷ v ∷ vs else v ∷ insert_by_index u vs

order_by_index : List TaskUnit → List TaskUnit
order_by_index [] = []
order_by_index (u ∷ us) = insert_by_index u (order_by_index us)

unfoldable pub units_of : String → Db → List TaskUnit
unfolding insert_by_index order_by_index
units_of task_id db = order_by_index (filter (λ u. same u.task_id task_id) db.units)

-- `findNextPendingUnit`
unfoldable pub find_next_pending_unit : String → Db → Option TaskUnit
unfolding units_of
find_next_pending_unit task_id db = find (λ u. is_pending u.status) (units_of task_id db)

-- What the report returns: the unit that comes next.
unfoldable pub next_unit : String → Handler Db (Option TaskUnit)
unfolding find_next_pending_unit
next_unit task_id db = (db, done (find_next_pending_unit task_id db))

-- `tx.task.findUniqueOrThrow`, also of `getTaskDetailsInTransaction`, whose error is none of the service's.
unfoldable pub find_task : String → Handler Db Task
find_task task_id db = or_throw (find (has_task_id task_id) db.tasks) failure db

-- The writes of a first report, inside the transaction.
unfoldable pub apply_report : String → TaskUnit → ReportInput → Handler Db (Option TaskUnit)
unfolding write_unit find_task write_counters recompute_task_status write_status log_step next_unit
apply_report task_id unit input = do
  write_unit unit.id input
  task ← find_task task_id
  write_counters task_id input.status
  let counted = increment input.status task
  let next = recompute_task_status counted.total_units counted.completed_units counted.failed_units
  write_status task_id next none
  log_step task_id "unit.reported" next (some (level_of input.status))
  next_unit task_id

unfoldable pub report_unit : String → String → ReportInput → Handler Db (Option TaskUnit)
unfolding find_unit find_task apply_report next_unit
report_unit task_id unit_id input = atomic (do
  unit ← find_unit task_id unit_id
  if is_pending unit.status
      then apply_report task_id unit input
      else find_task task_id >>= λ _. next_unit task_id)
