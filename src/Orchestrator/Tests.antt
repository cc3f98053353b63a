-- ===== src/Orchestrator/Tests.antt =====
-- Runs of the orchestrator on one task, and the theorems at those inputs.
use wizpay_core.Prelude.{◌≡◌, refl, [], ◌∷◌, none, some, find, update_where, any, count, ◌||◌}
use wizpay_core.Prelude.Outcome.{Outcome, done, threw, failure}
use wizpay_core.Task.{
  TaskStatus, assigned, in_progress, executed, TaskType, payroll, swap, Task, TaskResult, Db,
}
use wizpay_core.Prelude.Text.{same}
use wizpay_core.Chain.{trim}
use wizpay_core.Routing.{Config, decide, identify_token, parse_address, assert_executable}
use wizpay_core.Capability.{assert_, assert_payroll, assert_recipient, assert_payment_decision}
use wizpay_core.Task.Lifecycle.{has_task_id, update_status, set_status}
use wizpay_core.Orchestrator.{
  Services, start_task, execute_task, run_agent, mark_failed, task_capability,
}
use wizpay_core.Orchestrator.Laws.{
  KeepTasks, IsCapable, picked_up, execute_task_settles, execute_task_again, start_task_race,
}

abbrev a_result : TaskResult
a_result = record { total = 1; completed = 1; failed = 0; tx_hashes = [] }

abbrev config : Config
config = record {
  network = "arc-mainnet";
  usdc = "usdc";
  eurc = none;
  capabilities = λ name. same name "swap" || same name "sameTokenPayroll";
  get_address = λ a. some a;
  is_address_equal = same;
}

abbrev services : Outcome TaskResult → Services
services r = record { config = config; execute = λ t db. (db, r) }

services-KeepTasks : (r : Outcome TaskResult) → KeepTasks (services r)
services-KeepTasks r t db = refl

abbrev a_task : TaskType → Task
a_task kind = record {
  id = "t1";
  kind = kind;
  payload = record {
    source_token_address = some "usdc";
    recipients = some (record { target_token_address = none }) ∷ [];
  };
  status = assigned;
  total_units = 0;
  completed_units = 0;
  failed_units = 0;
  result = none;
}

abbrev a_db : TaskType → Db
a_db kind = record {
  tasks = a_task kind ∷ [];
  units = [];
  transactions = [];
  logs = [];
  poll_jobs = [];
}

task_found : (k : TaskType) → find (has_task_id "t1") (a_db k).tasks ≡ some (a_task k)
unfolding find
task_found k = refl

execution_tests :
    ((execute_task (services (done a_result)) "t1" (a_db swap)).0.tasks
      ≡ record (a_task swap) { status = executed; result = some a_result } ∷ [])
    × ((execute_task (services (done a_result)) "t1" (a_db payroll)).0.tasks
        ≡ record (a_task payroll) { status = in_progress } ∷ [])
    × ((execute_task (services (threw failure)) "t1" (a_db swap)).0.tasks
        ≡ record (a_task swap) { status = TaskStatus.failed } ∷ [])
unfolding find update_where execute_task start_task run_agent mark_failed task_capability
    update_status assert_ assert_payroll assert_recipient assert_payment_decision assert_executable
    decide identify_token parse_address trim any count
execution_tests = (refl, refl, refl)

swap-IsCapable : (r : Outcome TaskResult) → IsCapable (services r) (a_task swap)
unfolding task_capability assert_ any count
swap-IsCapable r = refl

execute_task_settles_example :
    (find (has_task_id "t1") (execute_task (services (done a_result)) "t1" (a_db swap)).0.tasks
      ≡ some (set_status executed (some a_result) (a_task swap)))
    × ((execute_task (services (done a_result)) "t1" (a_db swap)).1 ≡ done (some a_result))
execute_task_settles_example =
    execute_task_settles (services (done a_result)) "t1" (a_db swap) (a_task swap)
      (services-KeepTasks (done a_result)) (task_found swap) refl (swap-IsCapable (done a_result))

execute_task_again_example :
    execute_task
      (services (threw failure))
      "t1"
      (execute_task (services (threw failure)) "t1" (a_db swap)).0
    ≡ ((execute_task (services (threw failure)) "t1" (a_db swap)).0, done none)
execute_task_again_example =
    execute_task_again (services (threw failure)) "t1" (a_db swap) (a_task swap)
      (services-KeepTasks (threw failure)) (task_found swap) refl (swap-IsCapable (threw failure))

start_task_race_example :
    (start_task (services (done a_result)) "t1" (a_task swap) (picked_up "t1" (a_db swap))
      ≡ start_task (services (done a_result)) "t1" (a_task swap) (a_db swap))
    × ((start_task (services (done a_result)) "t1" (a_task swap) (picked_up "t1" (a_db swap))).1
        ≡ done (some a_result))
start_task_race_example =
    start_task_race (services (done a_result)) "t1" (a_db swap) (a_task swap)
      (services-KeepTasks (done a_result)) (task_found swap) refl
