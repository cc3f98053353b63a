-- ===== src/Orchestrator/Laws.antt =====
-- What an execution leaves of a task, and what executing it again does.
use wizpay_core.Prelude.{
  ◌≡◌, refl, sym, ap, ◌∙◌, inl, inr, String, true, false, Option, none, some, find, arith,
  Bool-cases, if◌then◌else◌,
}
use wizpay_core.Prelude.Outcome.{Outcome, done, threw, Outcome-cases}
use wizpay_core.Task.{
  TaskStatus, assigned, in_progress, executed, failed, same_status, Task, TaskResult, Db,
}
use wizpay_core.Task.Lifecycle.{
  has_task_id, get_task_by_id, update_status, set_status, is_valid_transition, log_step,
}
use wizpay_core.Task.Lifecycle.Laws.{
  valid_moves_on, missing, repeated, forbidden, moved, update_status-UpdateStatus,
  update_status_moves,
}
use wizpay_core.Orchestrator.{
  Services, is_payroll, task_capability, run_agent, mark_failed, catch_, start_task, execute_task,
}

-- The agents write to no row of the table of tasks: the status is the orchestrator's and the poller's
-- to move.
abbrev pub KeepTasks : Services → Type 0
KeepTasks services = (t : Task) (db : Db) → (services.execute t db).0.tasks ≡ db.tasks

-- The capability check of the task passes.
abbrev pub IsCapable : Services → Task → Type 0
IsCapable services t = task_capability services.config t.kind t.payload ≡ done tt

returned :
    (task_id : String) (next : TaskStatus) (step : String) (result : Option TaskResult) (db : Db)
    (t : Task)
    → find (has_task_id task_id) db.tasks ≡ some t
    → is_valid_transition t.status next ≡ true
    → (update_status task_id next step result db).1 ≡ done (set_status next result t)
returned task_id next step result db t found way =
    elim (update_status-UpdateStatus task_id next step result db) [
      | missing absent e ↦ ground arith
      | repeated u found' same e ↦ ground (arith, valid_moves_on t.status next)
      | forbidden u found' ne no_way e ↦ ground arith
      | moved u found' way' e ↦ ground arith
    ]

again :
    (task_id : String) (next : TaskStatus) (step : String) (result : Option TaskResult) (db : Db)
    (t : Task)
    → find (has_task_id task_id) db.tasks ≡ some t
    → t.status ≡ next
    → update_status task_id next step result db ≡ (db, done t)
again task_id next step result db t found same =
    elim (update_status-UpdateStatus task_id next step result db) [
      | missing absent e ↦ ground arith
      | repeated u found' same' e ↦ ground arith
      | forbidden u found' ne no_way e ↦ ground arith
      | moved u found' way e ↦ ground (arith, valid_moves_on u.status next)
    ]

-- What the execution leaves of the task, by what the agent did.
abbrev pub settled_task : Task → Outcome TaskResult → Task
settled_task t (done result) =
    if is_payroll t.kind then set_status in_progress none t else set_status executed (some result) t
settled_task t (threw error) = set_status failed none t

abbrev pub answer : Outcome TaskResult → Outcome (Option TaskResult)
answer (done result) = done (some result)
answer (threw error) = threw error

abbrev pub picked_up : String → Db → Db
picked_up task_id db = (update_status task_id in_progress "task.in_progress" none db).0

picks_up : (s : TaskStatus) → s ≡ assigned → is_valid_transition s in_progress ≡ true
unfolding is_valid_transition
picks_up s e = ground arith

ends : is_valid_transition in_progress executed ≡ true
unfolding is_valid_transition
ends = refl

fails : is_valid_transition in_progress failed ≡ true
unfolding is_valid_transition
fails = refl

settled-IsCapable :
    (services : Services) (t : Task) (r : Outcome TaskResult)
    → IsCapable services t
    → IsCapable services (settled_task t r)
settled-IsCapable services t (done result) h = elim (Bool-cases (is_payroll t.kind)) [
  | inl b ↦ rw b h
  | inr b ↦ rw b h
]
settled-IsCapable services t (threw error) h = h

settled_status :
    (t : Task) (r : Outcome TaskResult) → same_status (settled_task t r).status assigned ≡ false
settled_status t (done result) = elim (Bool-cases (is_payroll t.kind)) [
  | inl b ↦ ground arith
  | inr b ↦ ground arith
]
settled_status t (threw error) = refl

skips :
    (services : Services) (task_id : String) (db : Db) (t : Task)
    → find (has_task_id task_id) db.tasks ≡ some t
    → IsCapable services t
    → same_status t.status assigned ≡ false
    → execute_task services task_id db ≡ (db, done none)
unfolding execute_task get_task_by_id
skips services task_id db t found capable other = ground arith

module _ (services : Services) (keeps : KeepTasks services) (task_id : String) (t : Task) where
  -- The `try` and the `catch`, from a task that is IN_PROGRESS.
  try_settles :
      (db : Db)
      → find (has_task_id task_id) db.tasks ≡ some (set_status in_progress none t)
      → (find
            (has_task_id task_id)
            (catch_ services task_id (run_agent services task_id t) db).0.tasks
          ≡ some (settled_task t (services.execute t db).1))
        × ((catch_ services task_id (run_agent services task_id t) db).1
            ≡ answer (services.execute t db).1)
  unfolding run_agent mark_failed log_step
  try_settles db up =
      let db' : Db = (services.execute t db).0 in
      let t' : Task = set_status in_progress none t in
      let here : find (has_task_id task_id) db'.tasks ≡ some t' =
        ap (find (has_task_id task_id)) (keeps t db) ∙ up in
      elim (Outcome-cases (services.execute t db).1) [
        | inl (result, e) ↦ elim (Bool-cases (is_payroll t.kind)) [
          | inl async ↦ ground arith
          | inr sync ↦ ground (
            arith,
            returned task_id executed "task.executed" (some result) db' t' here ends,
            update_status_moves task_id executed "task.executed" (some result) db' t' here ends,
          )
        ]
        | inr (error, e) ↦ ground (
          arith,
          returned task_id failed "task.failed" none db' t' here fails,
          update_status_moves task_id failed "task.failed" none db' t' here fails,
        )
      ]

  module _ (db : Db) (found : find (has_task_id task_id) db.tasks ≡ some t)
      (ready : t.status ≡ assigned) where
    up :
        find (has_task_id task_id) (picked_up task_id db).tasks
        ≡ some (set_status in_progress none t)
    up =
        update_status_moves task_id in_progress "task.in_progress" none db t found
          (picks_up t.status ready)

    first_start :
        start_task services task_id t db
        ≡ catch_ services task_id (run_agent services task_id t) (picked_up task_id db)
    unfolding start_task
    first_start = ground (
      arith,
      returned task_id in_progress "task.in_progress" none db t found (picks_up t.status ready),
    )

    second_start :
        start_task services task_id t (picked_up task_id db)
        ≡ catch_ services task_id (run_agent services task_id t) (picked_up task_id db)
    unfolding start_task
    second_start = ground (
      arith,
      again task_id in_progress "task.in_progress" none (picked_up task_id db)
          (set_status in_progress none t) up refl,
    )

-- Where no agent writes to the table of tasks, an execution of a task that is ASSIGNED and passes its
-- capability check leaves it as the agent decides: a payroll stays
-- IN_PROGRESS until its transfers settle, another task is EXECUTED with the agent's result, and a
-- task whose agent throws is FAILED; the error is thrown on.
pub execute_task_settles :
    (services : Services) (task_id : String) (db : Db) (t : Task)
    → KeepTasks services
    → find (has_task_id task_id) db.tasks ≡ some t
    → t.status ≡ assigned
    → IsCapable services t
    → (find (has_task_id task_id) (execute_task services task_id db).0.tasks
        ≡ some (settled_task t (services.execute t (picked_up task_id db)).1))
      × ((execute_task services task_id db).1
          ≡ answer (services.execute t (picked_up task_id db)).1)
unfolding execute_task get_task_by_id
execute_task_settles services task_id db t keeps found ready capable = ground (
  arith,
  first_start services keeps task_id t db found ready,
  try_settles services keeps task_id t (picked_up task_id db)
      (up services keeps task_id t db found ready),
)

-- Where no agent writes to the table of tasks, executing a task again after an execution that found it
-- ASSIGNED and that passed its capability check, whether that returned or threw, changes nothing and returns nothing: an agent that has thrown is not run again.
pub execute_task_again :
    (services : Services) (task_id : String) (db : Db) (t : Task)
    → KeepTasks services
    → find (has_task_id task_id) db.tasks ≡ some t
    → t.status ≡ assigned
    → IsCapable services t
    → execute_task services task_id (execute_task services task_id db).0
      ≡ ((execute_task services task_id db).0, done none)
execute_task_again services task_id db t keeps found ready capable =
    skips services task_id (execute_task services task_id db).0
      (settled_task t (services.execute t (picked_up task_id db)).1)
      (execute_task_settles services task_id db t keeps found ready capable).0
      (settled-IsCapable services t (services.execute t (picked_up task_id db)).1 capable)
      (settled_status t (services.execute t (picked_up task_id db)).1)

-- Where no agent writes to the table of tasks, two workers that have both read the task as
-- ASSIGNED before either of them writes both run its agent: the second finds the task IN_PROGRESS,
-- which `updateStatus` takes for a repeated status, and answers what its own run of the agent
-- gives.
pub start_task_race :
    (services : Services) (task_id : String) (db : Db) (t : Task)
    → KeepTasks services
    → find (has_task_id task_id) db.tasks ≡ some t
    → t.status ≡ assigned
    → (start_task services task_id t (picked_up task_id db) ≡ start_task services task_id t db)
      × ((start_task services task_id t (picked_up task_id db)).1
          ≡ answer (services.execute t (picked_up task_id db)).1)
start_task_race services task_id db t keeps found ready = (
  second_start services keeps task_id t db found ready
      ∙ sym (first_start services keeps task_id t db found ready),
  ap (λ r. r.1) (second_start services keeps task_id t db found ready)
      ∙ (try_settles services keeps task_id t (picked_up task_id db)
          (up services keeps task_id t db found ready)).1,
)
