-- ===== src/Task/Lifecycle.antt =====
-- apps/backend/src/task/task.service.ts and task-log.service.ts: reading a task, moving its status
-- and the log that goes with it.
pub mod Laws
use wizpay_core.Prelude.{
  String, Bool, true, false, ◌&&◌, not, List, [], ◌∷◌, ◌++◌, Option, none, some, find, update_where,
  if◌then◌else◌, any, or_else,
}
use wizpay_core.Prelude.Text.{same}
use wizpay_core.Prelude.Outcome.{
  Handler, Outcome, done, threw, Error, not_found, bad_request, ◌>>=◌, ◌>>◌, return, throw,
  throw_if, or_throw,
}
use wizpay_core.Task.{
  TaskStatus, assigned, same_status, allowed_transitions, includes, Task, TaskResult, TaskLog,
  LogLevel, info, Db,
}

abbrev pub has_task_id : String → Task → Bool
has_task_id task_id t = same t.id task_id

unfoldable pub is_valid_transition : TaskStatus → TaskStatus → Bool
is_valid_transition current next = includes (allowed_transitions current) next

unfoldable pub ensure_transition : TaskStatus → TaskStatus → Handler Db (Unit {0})
unfolding is_valid_transition
ensure_transition current next = throw_if (not (is_valid_transition current next)) bad_request

-- `taskLogService.logStep`; the level is INFO unless one is given.
unfoldable pub log_step : String → String → TaskStatus → Option LogLevel → Handler Db (Unit {0})
log_step task_id step status level db =
    let entry : TaskLog = record {
      task_id = task_id;
      level = elim level [ none ↦ info | some l ↦ l ];
      step = step;
      status = status;
    } in
    (record db { logs = db.logs ++ entry ∷ [] }, done tt)

unfoldable pub has_log_step : String → String → Db → Bool
has_log_step task_id step db = any (λ l. same l.task_id task_id && same l.step step) db.logs

unfoldable pub get_task_by_id : String → Handler Db Task
get_task_by_id task_id db = or_throw (find (has_task_id task_id) db.tasks) not_found db

-- `data: { status, ...(result ? { result } : {}) }`
abbrev pub set_status : TaskStatus → Option TaskResult → Task → Task
set_status next result t = record t { status = next; result = or_else result t.result }

unfoldable pub write_status : String → TaskStatus → Option TaskResult → Handler Db (Unit {0})
write_status task_id next result db = (
  record db { tasks = update_where (has_task_id task_id) (set_status next result) db.tasks },
  done tt,
)

-- The part of `updateStatus` and `transitionWithAudit` below their test for a repeated status.
-- Both log one INFO entry under the step that the caller names, with the new status.
unfoldable pub move_status :
    String → TaskStatus → TaskStatus → String → Option TaskResult → Handler Db Task
unfolding ensure_transition write_status log_step get_task_by_id
move_status task_id current next step result = do
  ensure_transition current next
  write_status task_id next result
  log_step task_id step next none
  get_task_by_id task_id

unfoldable pub update_status : String → TaskStatus → String → Option TaskResult → Handler Db Task
unfolding move_status get_task_by_id
update_status task_id next step result = do
  task ← get_task_by_id task_id
  if same_status task.status next
      then get_task_by_id task_id
      else move_status task_id task.status next step result

-- The skip is logged, and nothing else is written.
unfoldable pub skip_pickup : String → TaskStatus → Handler Db Bool
unfolding log_step
skip_pickup task_id status = do
  log_step task_id "task.idempotency_skip" status (some info)
  return false

-- `tryPickupForExecution`: whether a worker may execute the task.
unfoldable pub try_pickup_for_execution : String → Handler Db Bool
unfolding get_task_by_id skip_pickup
try_pickup_for_execution task_id = do
  task ← get_task_by_id task_id
  if same_status task.status assigned then return true else skip_pickup task_id task.status
