-- ===== src/Task/Tests.antt =====
-- Runs of the task engine on a task with two units, and the theorems at those inputs.
use mathlib.Core.Option
use wizpay_core.Prelude.{
  ℕ, ◌≡◌, refl, inl, String, true, false, [], ◌∷◌, Option, none, some, find, count, filter,
  update_where, arith, ◌≢◌,
}
use wizpay_core.Prelude.Text.{same_iff}
use wizpay_core.Prelude.Outcome.{done, threw, bad_request, not_found}
use wizpay_core.Task.{
  TaskStatus, assigned, in_progress, executed, review, payroll, Task, TaskUnit, UnitStatus, Db,
}
use wizpay_core.Task.Lifecycle.{
  has_task_id, update_status, try_pickup_for_execution, is_valid_transition,
}
use wizpay_core.Task.Lifecycle.Laws.{
  UpdateStatus, update_status-UpdateStatus, run_updates, run_updates_final,
}
use wizpay_core.Task.Units.{
  Report, success, failed, ReportInput, report_unit, find_next_pending_unit, is_unit_of,
  recompute_task_status,
}
use wizpay_core.Task.Units.Counters.{
  IsCounted, is_reported, ReportUnit, report_unit-ReportUnit, report_unit-IsCounted, tally,
}
use wizpay_core.Task.Units.Laws.{belongs, report_unit_off_map}

abbrev a_task : Task
a_task = record {
  id = "t1";
  kind = payroll;
  payload = record { source_token_address = none; recipients = [] };
  status = assigned;
  total_units = 2;
  completed_units = 0;
  failed_units = 0;
  result = none;
}

abbrev a_unit : String → ℕ → TaskUnit
a_unit id index = record {
  id = id;
  task_id = "t1";
  index = index;
  status = UnitStatus.pending;
  tx_hash = none;
  error = none;
}

abbrev a_db : Db
a_db = record {
  tasks = a_task ∷ [];
  units = a_unit "u2" 1 ∷ a_unit "u1" 0 ∷ [];
  transactions = [];
  logs = [];
  poll_jobs = [];
}

abbrev succeeded : ReportInput
succeeded = record { status = success; tx_hash = none; error = none }

abbrev broke : ReportInput
broke = record { status = failed; tx_hash = none; error = some (some "no funds") }

engine : Unit {0}
unfolding find update_where count filter report_unit update_status try_pickup_for_execution
    recompute_task_status is_valid_transition find_next_pending_unit
engine = tt

task_status : Db → Option TaskStatus
task_status db = Option.map (λ (t : Task). t.status) (find (has_task_id "t1") db.tasks)

abbrev one_done : Db
one_done = (report_unit "t1" "u1" succeeded a_db).0

report_tests :
    (find_next_pending_unit "t1" a_db ≡ some (a_unit "u1" 0))
    × (task_status one_done ≡ some in_progress)
    × (task_status (report_unit "t1" "u2" succeeded one_done).0 ≡ some executed)
    × (task_status (report_unit "t1" "u2" broke one_done).0 ≡ some review)
    × ((report_unit "t1" "u9" broke one_done).1 ≡ threw not_found)
unfolding engine task_status
report_tests = (refl, refl, refl, refl, refl)

update_tests :
    ((update_status "t1" executed "s" none a_db).1 ≡ threw bad_request)
    × (task_status (update_status "t1" in_progress "s" none a_db).0 ≡ some in_progress)
    × ((try_pickup_for_execution "t1" a_db).1 ≡ done true)
unfolding engine task_status
update_tests = (refl, refl, refl)

a_task_found : find (has_task_id "t1") a_db.tasks ≡ some a_task
unfolding engine
a_task_found = refl

u1_found : find (is_unit_of "t1" "u1") a_db.units ≡ some (a_unit "u1" 0)
unfolding engine
u1_found = refl

u1_not_u2 : ◌≢◌ {A = String} "u1" "u2"
u1_not_u2 = ground (arith, same_iff "u1" "u2")

a_db-agrees :
    (k : String) (r : Report) (t : Task)
    → find (has_task_id k) a_db.tasks ≡ some t
    → tally r t ≡ count (is_reported k r) a_db.units
unfolding engine
a_db-agrees k success t e = ground arith
a_db-agrees k failed t e = ground arith

a_db-IsCounted : IsCounted a_db
unfolding engine
a_db-IsCounted = record {
  unit_ids = λ k. ground (arith, same_iff "u1" k, same_iff "u2" k, u1_not_u2);
  task_ids = λ k. ground arith;
  agree = a_db-agrees;
}

update_status-UpdateStatus_example :
    UpdateStatus "t1" in_progress "task.in_progress" none a_db
      (update_status "t1" in_progress "task.in_progress" none a_db)
update_status-UpdateStatus_example =
    update_status-UpdateStatus "t1" in_progress "task.in_progress" none a_db

abbrev settled_db : Db
settled_db = record a_db { tasks = record a_task { status = executed } ∷ [] }

run_updates_final_example :
    run_updates "t1" (record { next = review; step = "s"; result = none } ∷ []) settled_db
    ≡ settled_db
unfolding engine
run_updates_final_example =
    run_updates_final "t1" (record { next = review; step = "s"; result = none } ∷ []) settled_db
      (record a_task { status = executed }) refl (inl refl)

report_unit-ReportUnit_example :
    ReportUnit "t1" "u1" succeeded a_db (report_unit "t1" "u1" succeeded a_db)
report_unit-ReportUnit_example = report_unit-ReportUnit "t1" "u1" succeeded a_db

report_unit-IsCounted_example : IsCounted one_done
report_unit-IsCounted_example = report_unit-IsCounted "t1" "u1" succeeded a_db a_db-IsCounted

a_db_total : a_task.total_units ≡ count (belongs "t1") a_db.units
unfolding engine
a_db_total = refl

report_unit_off_map_example :
    (Option.map
        (λ (v : Task). v.status)
        (find (has_task_id "t1") (report_unit "t1" "u1" broke a_db).0.tasks)
      ≡ some review)
    × (is_valid_transition assigned review ≡ false)
report_unit_off_map_example =
    report_unit_off_map "t1" "u1" broke a_db (a_unit "u1" 0) a_task u1_found refl a_task_found refl
      refl a_db-IsCounted
