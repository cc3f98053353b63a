-- ===== src/Task/Lifecycle/Laws.antt =====
-- What apps/backend/src/task/task.service.ts guarantees of a task's status.
use wizpay_core.Prelude.{
  ◌≡◌, refl, ◌⊎◌, inl, inr, ◌≢◌, String, true, false, List, [], ◌∷◌, ◌++◌, Option, none, some, find,
  update_where, arith, Bool-cases, Option-cases, find-update_where, ap, ◌↔◌,
}
use wizpay_core.Prelude.Text.{same}
use wizpay_core.Prelude.Outcome.{Outcome, done, threw, not_found, bad_request}
use wizpay_core.Task.{
  TaskStatus, assigned, executed, partial, failed, same_status, eq_of_same_status, Task, TaskResult,
  info, Db,
}
use wizpay_core.Task.Lifecycle.{
  has_task_id, is_valid_transition, set_status, update_status, try_pickup_for_execution,
}

-- A settled status has no way out.
abbrev pub IsFinal : TaskStatus → Type 0
IsFinal s = (s ≡ executed) ⊎ ((s ≡ partial) ⊎ (s ≡ failed))

-- What `updateStatus` may do: it throws on a missing task and on a move outside the map, and then
-- writes nothing; a repeated status writes nothing; a move of the map writes the status of that
-- task, keeps or replaces its result, and logs one entry.
pub data UpdateStatus (task_id : String) (next : TaskStatus) (step : String)
    (result : Option TaskResult) (db : Db) (r : Db × Outcome Task) : Type 0 where
  missing :
      find (has_task_id task_id) db.tasks ≡ none
      → r ≡ (db, threw not_found)
      → UpdateStatus task_id next step result db r
  repeated :
      (t : Task)
      → find (has_task_id task_id) db.tasks ≡ some t
      → t.status ≡ next
      → r ≡ (db, done t)
      → UpdateStatus task_id next step result db r
  forbidden :
      (t : Task)
      → find (has_task_id task_id) db.tasks ≡ some t
      → t.status ≢ next
      → is_valid_transition t.status next ≡ false
      → r ≡ (db, threw bad_request)
      → UpdateStatus task_id next step result db r
  moved :
      (t : Task)
      → find (has_task_id task_id) db.tasks ≡ some t
      → is_valid_transition t.status next ≡ true
      → r ≡ (
        record db {
          tasks = update_where (has_task_id task_id) (set_status next result) db.tasks;
          logs =
              db.logs
              ++ (record { task_id = task_id; level = info; step = step; status = next }) ∷ [];
        },
        done (set_status next result t),
      )
      → UpdateStatus task_id next step result db r

pub valid_moves_on : (s t : TaskStatus) → is_valid_transition s t ≡ true → same_status s t ≡ false
unfolding is_valid_transition
valid_moves_on s t h = ground arith

-- Every call of `updateStatus` is one of four cases: the task is missing, and the call throws; the
-- status is repeated, and the task returned; the map has no such move, and the call throws, all three
-- without a write; or the map has it, and the task gets the status, the result if one is given, and one
-- log entry.
pub update_status-UpdateStatus :
    (task_id : String) (next : TaskStatus) (step : String) (result : Option TaskResult) (db : Db)
    → UpdateStatus task_id next step result db (update_status task_id next step result db)
unfolding update_status
update_status-UpdateStatus task_id next step result db =
    elim (Option-cases (find (has_task_id task_id) db.tasks)) [
      | inl absent ↦ missing absent (ground arith)
      | inr (t, found) ↦ elim (Bool-cases (same_status t.status next)) [
        | inl same ↦ repeated t found (eq_of_same_status t.status next same) (ground arith)
        | inr other ↦ elim (Bool-cases (is_valid_transition t.status next)) [
          | inl way ↦ moved t found way (
              ground (
                arith,
                find-update_where (has_task_id task_id) (set_status next result) db.tasks {x = t}
                    (λ a. refl),
              ))
          | inr no_way ↦ forbidden t found (λ e. ground arith) no_way (ground arith)
        ]
      ]
    ]

-- An allowed move, read back from the table.
pub update_status_moves :
    (task_id : String) (next : TaskStatus) (step : String) (result : Option TaskResult) (db : Db)
    (t : Task)
    → find (has_task_id task_id) db.tasks ≡ some t
    → is_valid_transition t.status next ≡ true
    → find (has_task_id task_id) (update_status task_id next step result db).0.tasks
      ≡ some (set_status next result t)
unfolding update_status
update_status_moves task_id next step result db t found way = ground (
  arith,
  valid_moves_on t.status next,
  find-update_where (has_task_id task_id) (set_status next result) db.tasks {x = t} (λ a. refl),
)

-- Moving a task touches neither the units, nor the transactions, nor the queue.
pub update_status_frame :
    (task_id : String) (next : TaskStatus) (step : String) (result : Option TaskResult) (db : Db)
    → ((update_status task_id next step result db).0.transactions ≡ db.transactions)
      × ((update_status task_id next step result db).0.units ≡ db.units)
      × ((update_status task_id next step result db).0.poll_jobs ≡ db.poll_jobs)
update_status_frame task_id next step result db =
    elim (update_status-UpdateStatus task_id next step result db) [
      | missing absent e ↦ rw e (refl, refl, refl)
      | repeated t found same e ↦ rw e (refl, refl, refl)
      | forbidden t found ne no_way e ↦ rw e (refl, refl, refl)
      | moved t found way e ↦ rw e (refl, refl, refl)
    ]

-- A request to move a task, as the callers of `updateStatus` make them.
pub record Request : Type 0 where
  pub next : TaskStatus
  pub step : String
  pub result : Option TaskResult

pub run_updates : String → List Request → Db → Db
run_updates task_id [] db = db
run_updates task_id (q ∷ qs) db =
    run_updates task_id qs (update_status task_id q.next q.step q.result db).0

no_way_out : (s next : TaskStatus) → IsFinal s → is_valid_transition s next ≡ false
unfolding is_valid_transition
no_way_out s next h = ground arith

final_update :
    (task_id : String) (q : Request) (db : Db) (t : Task)
    → find (has_task_id task_id) db.tasks ≡ some t
    → IsFinal t.status
    → (update_status task_id q.next q.step q.result db).0 ≡ db
final_update task_id q db t found h =
    elim (update_status-UpdateStatus task_id q.next q.step q.result db) [
      | missing absent e ↦ ap (λ r. r.0) e
      | repeated u found' same e ↦ ap (λ r. r.0) e
      | forbidden u found' ne no_way e ↦ ap (λ r. r.0) e
      | moved u found' way e ↦ ground (arith, no_way_out t.status q.next h)
    ]

-- A task that is executed, partial or failed stays so: no sequence of `updateStatus` calls writes
-- anything to the database.
pub run_updates_final :
    (task_id : String) (qs : List Request) (db : Db) (t : Task)
    → find (has_task_id task_id) db.tasks ≡ some t
    → IsFinal t.status
    → run_updates task_id qs db ≡ db
unfolding run_updates
run_updates_final task_id [] db t found h = refl
run_updates_final task_id (q ∷ qs) db t found h =
    rw (final_update task_id q db t found h) (run_updates_final task_id qs db t found h)

-- `tryPickupForExecution` accepts exactly the tasks that are assigned; a refusal and an
-- acceptance leave every task, unit, transaction and queued job as they were.
pub try_pickup_for_execution-eq-true_iff :
    (task_id : String) (db : Db) (t : Task)
    → find (has_task_id task_id) db.tasks ≡ some t
    → (((try_pickup_for_execution task_id db).1 ≡ done true) ↔ (t.status ≡ assigned))
      × ((try_pickup_for_execution task_id db).0
          ≡ record db { logs = (try_pickup_for_execution task_id db).0.logs })
unfolding try_pickup_for_execution
try_pickup_for_execution-eq-true_iff task_id db t found =
    elim (Bool-cases (same_status t.status assigned)) [
      | inl same ↦
          ((λ h. eq_of_same_status t.status assigned same, λ h. ground arith), ground arith)
      | inr other ↦ ((λ h. ground arith, λ h. ground arith), ground arith)
    ]
