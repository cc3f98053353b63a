-- ===== src/Orchestrator.antt =====
-- apps/backend/src/orchestrator/orchestrator.service.ts: the execution of a task by a worker.
-- Free-form results (JSON) are values of the one type that a task's `result` has here: no code
-- tests them.
pub mod Laws
mod Tests
use wizpay_core.Prelude.{String, Bool, true, false, not, Option, none, some, if◌then◌else◌}
use wizpay_core.Prelude.Outcome.{
  Handler, Outcome, done, threw, Error, unavailable, ◌>>=◌, ◌>>◌, return, throw, lift,
}
use wizpay_core.Task.{
  TaskStatus, assigned, in_progress, executed, failed, same_status, Task, TaskResult, TaskType,
  Payload, payroll, swap, bridge, liquidity, fx, Db,
}
use wizpay_core.Routing.{Config}
use wizpay_core.Capability.{assert_, assert_payroll}
use wizpay_core.Task.Lifecycle.{get_task_by_id, log_step, update_status}

abbrev pub is_payroll : TaskType → Bool
is_payroll payroll = true
is_payroll _ = false

-- What the orchestrator calls: the capability service, by its configuration, and the agents
-- (`ExecutionRouterService.execute`).
pub record Services : Type 0 where
  pub config : Config
  pub execute : Task → Handler Db TaskResult

-- `assertTaskCapability`, which reads the task's type and payload and writes nothing.
unfoldable pub task_capability : Config → TaskType → Payload → Outcome (Unit {0})
task_capability config kind payload = elim kind [
  | payroll ↦ assert_payroll config payload
  | swap ↦ assert_ config "swap"
  | bridge ↦ assert_ config "bridge"
  | fx ↦ threw (unavailable "FX_TASK_TYPE_RETIRED")
  | liquidity ↦ assert_ config "liquidity"
]

module _ (services : Services) where
  open services use {config, execute}

  abbrev pub assert_task_capability : Task → Handler Db (Unit {0})
  assert_task_capability task = lift (task_capability config task.kind task.payload)

  -- The body of the `try`: the agent, and what is written when it returns.
  unfoldable pub run_agent : String → Task → Handler Db (Option TaskResult)
  run_agent task_id task = do
    result ← execute task
    if is_payroll task.kind
        then log_step task_id "task.submissions_complete" in_progress none
        else (update_status task_id executed "task.executed" (some result) >>= λ _. return tt)
    return (some result)

  -- The `catch`: the task is marked as failed, or the refusal of that is logged; the error goes on.
  unfoldable pub mark_failed : String → Error → Handler Db (Option TaskResult)
  mark_failed task_id error db =
      let (db', r) = update_status task_id failed "task.failed" none db in
      elim r [
        | done task ↦ (db', threw error)
        | threw refused ↦ (log_step task_id "task.failed.log" failed none >> throw error) db'
      ]

  -- `try { body } catch (error) { … }`
  abbrev pub catch_ : String → Handler Db (Option TaskResult) → Handler Db (Option TaskResult)
  catch_ task_id body db =
      let (db', r) = body db in
      elim r [ done result ↦ (db', done result) | threw error ↦ mark_failed task_id error db' ]

  -- The part below the guard on the status, for a task that was read as ASSIGNED.
  unfoldable pub start_task : String → Task → Handler Db (Option TaskResult)
  start_task task_id task =
      update_status task_id in_progress "task.in_progress" none
      >> catch_ task_id (run_agent task_id task)

  unfoldable pub execute_task : String → Handler Db (Option TaskResult)
  execute_task task_id = do
    task ← get_task_by_id task_id
    assert_task_capability task
    if not (same_status task.status assigned) then return none else start_task task_id task
