-- ===== src/Task/Units/Counters.antt =====
-- The counters of a task against the statuses of its units, under the reports of
-- apps/backend/src/task/task-unit.service.ts.
use wizpay_core.Prelude.{
  ℕ, ◌+◌, ◌≤◌, ◌≡◌, refl, sym, ap, inl, inr, String, Bool, true, false, ◌&&◌, [], ◌∷◌, ◌++◌, Option,
  none, some, find, update_where, count, arith, Bool-cases, Option-cases, find-update_where,
  find-update_where_ne, find_sound, find-and, count-update_where, count-update_where_stable,
  from_Bool, subst, ◌∙◌,
}
use mathlib.Core.Option.{some-injective}
use wizpay_core.Prelude.Text.{same, same_iff}
use wizpay_core.Prelude.Outcome.{Outcome, done, threw, not_found, failure}
use wizpay_core.Task.{TaskStatus, Task, TaskUnit, UnitStatus, Db}
use wizpay_core.Task.Lifecycle.{has_task_id, set_status}
use wizpay_core.Task.Units.{
  Report, success, failed, ReportInput, reported, is_pending, has_unit_id, is_unit_of, set_report,
  increment, recompute_task_status, level_of, find_next_pending_unit, report_unit,
}

-- Whether the unit belongs to the task and stands reported so.
abbrev stands_as : Report → UnitStatus → Bool
stands_as success UnitStatus.success = true
stands_as failed UnitStatus.failed = true
stands_as _ _ = false

abbrev pub is_reported : String → Report → TaskUnit → Bool
is_reported task_id r u = same u.task_id task_id && stands_as r u.status

-- The counter of a task for such reports.
abbrev pub tally : Report → Task → ℕ
tally success t = t.completed_units
tally failed t = t.failed_units

-- Identifiers are unique, and each task counts the reports of its units.
pub record IsCounted (db : Db) : Type 0 where
  pub unit_ids : (k : String) → count (has_unit_id k) db.units ≤ 1
  pub task_ids : (k : String) → count (has_task_id k) db.tasks ≤ 1
  pub agree :
      (k : String) (r : Report) (t : Task)
      → find (has_task_id k) db.tasks ≡ some t
      → tally r t ≡ count (is_reported k r) db.units

-- The status that a first report gives the task.
abbrev pub next_status : Report → Task → TaskStatus
next_status r t =
    let c = increment r t in recompute_task_status c.total_units c.completed_units c.failed_units

-- The database after a first report.
abbrev pub reported_db : String → TaskUnit → ReportInput → Task → Db → Db
reported_db task_id u input t db = record db {
  units = update_where (has_unit_id u.id) (set_report input) db.units;
  tasks =
      update_where (has_task_id task_id) (set_status (next_status input.status t) none)
        (update_where (has_task_id task_id) (increment input.status) db.tasks);
  logs =
      db.logs
      ++ (record {
        task_id = task_id;
        level = level_of input.status;
        step = "unit.reported";
        status = next_status input.status t;
      })
        ∷ [];
}

-- What `reportUnit` may do.
pub data ReportUnit (task_id unit_id : String) (input : ReportInput) (db : Db)
    (r : Db × Outcome (Option TaskUnit)) : Type 0 where
  missing :
      find (is_unit_of task_id unit_id) db.units ≡ none
      → r ≡ (db, threw not_found)
      → ReportUnit task_id unit_id input db r
  orphan :
      find (has_task_id task_id) db.tasks ≡ none
      → r ≡ (db, threw failure)
      → ReportUnit task_id unit_id input db r
  already :
      (u : TaskUnit)
      → find (is_unit_of task_id unit_id) db.units ≡ some u
      → is_pending u.status ≡ false
      → r ≡ (db, done (find_next_pending_unit task_id db))
      → ReportUnit task_id unit_id input db r
  first :
      (u : TaskUnit) (t : Task)
      → find (is_unit_of task_id unit_id) db.units ≡ some u
      → is_pending u.status ≡ true
      → find (has_task_id task_id) db.tasks ≡ some t
      → r ≡ (
        reported_db task_id u input t db,
        done (find_next_pending_unit task_id (reported_db task_id u input t db)),
      )
      → ReportUnit task_id unit_id input db r

-- Every report is one of these: it throws and writes nothing where the unit or its task is missing,
-- writes nothing where the unit was reported before, and else writes the unit, one counter, the
-- status and one log entry.
pub report_unit-ReportUnit :
    (task_id unit_id : String) (input : ReportInput) (db : Db)
    → ReportUnit task_id unit_id input db (report_unit task_id unit_id input db)
unfolding report_unit
report_unit-ReportUnit task_id unit_id input db =
    elim (Option-cases (find (is_unit_of task_id unit_id) db.units)) [
      | inl absent ↦ missing absent (ground arith)
      | inr (u, found) ↦ elim (Option-cases (find (has_task_id task_id) db.tasks)) [
        | inl no_task ↦ orphan no_task (ground arith)
        | inr (t, task_found) ↦ elim (Bool-cases (is_pending u.status)) [
          | inl pending ↦ first u t found pending task_found (ground arith)
          | inr settled ↦ already u found settled (ground arith)
        ]
      ]
    ]

tally-set_status :
    (r : Report) (s : TaskStatus) (t : Task) → tally r (set_status s none t) ≡ tally r t
tally-set_status success s t = refl
tally-set_status failed s t = refl

increment-keeps_id :
    (k : String) (r : Report) (a : Task) → has_task_id k (increment r a) ≡ has_task_id k a
increment-keeps_id k success a = refl
increment-keeps_id k failed a = refl

ids_apart :
    (j k : String)
    → same j k ≡ false
    → (a : Task) → has_task_id j a ≡ true
    → has_task_id k a ≡ false
ids_apart j k ne a h = ground (arith, same_iff a.id j, same_iff a.id k, same_iff j k)

module _ (task_id unit_id : String) (input : ReportInput) (db : Db) (u : TaskUnit) (t : Task)
    (found : find (is_unit_of task_id unit_id) db.units ≡ some u)
    (pending : is_pending u.status ≡ true)
    (task_found : find (has_task_id task_id) db.tasks ≡ some t) (counted : IsCounted db) where
  pub owner : u.task_id ≡ task_id
  owner =
      (same_iff u.task_id task_id).0
        (ground (arith, find_sound (is_unit_of task_id unit_id) db.units {x = u}))

  named : u.id ≡ unit_id
  named =
      (same_iff u.id unit_id).0
        (ground (arith, find_sound (is_unit_of task_id unit_id) db.units {x = u}))

  pub found_by_id : find (has_unit_id u.id) db.units ≡ some u
  found_by_id =
      subst (λ k. find (has_unit_id k) db.units ≡ some u) (sym named)
        (find-and (has_unit_id unit_id) (λ v. same v.task_id task_id) db.units
          (counted.unit_ids unit_id) found)

  -- How the report moves the count of a status among the units of any task.
  pub counts_move :
      (k : String) (r : Report)
      → count (is_reported k r) (reported_db task_id u input t db).units
        ≡ count (is_reported k r) db.units
          + from_Bool (same task_id k && stands_as r (reported input.status))
  counts_move k r = ground (
    arith,
    owner,
    count-update_where (has_unit_id u.id) (is_reported k r) (set_report input) db.units {x = u}
        (counted.unit_ids u.id) found_by_id,
  )

  -- The task after the report, and the tasks beside it.
  pub own_task :
      find (has_task_id task_id) (reported_db task_id u input t db).tasks
      ≡ some (set_status (next_status input.status t) none (increment input.status t))
  own_task =
      find-update_where (has_task_id task_id) (set_status (next_status input.status t) none)
        (update_where (has_task_id task_id) (increment input.status) db.tasks) (λ a. refl)
        (find-update_where (has_task_id task_id) (increment input.status) db.tasks
          (increment-keeps_id task_id input.status) task_found)

  other_task :
      (k : String)
      → same task_id k ≡ false
      → find (has_task_id k) (reported_db task_id u input t db).tasks
        ≡ find (has_task_id k) db.tasks
  other_task k ne =
      find-update_where_ne (has_task_id task_id) (has_task_id k)
        (set_status (next_status input.status t) none)
        (update_where (has_task_id task_id) (increment input.status) db.tasks) (λ a. refl)
        (ids_apart task_id k ne)
      ∙ find-update_where_ne (has_task_id task_id) (has_task_id k) (increment input.status) db.tasks
          (increment-keeps_id k input.status) (ids_apart task_id k ne)

  tally_own :
      (r : Report)
      → tally r (increment input.status t)
        ≡ tally r t + from_Bool (stands_as r (reported input.status))
  tally_own success = ground arith
  tally_own failed = ground arith

  agree_after :
      (k : String) (r : Report) (v : Task)
      → find (has_task_id k) (reported_db task_id u input t db).tasks ≡ some v
      → tally r v ≡ count (is_reported k r) (reported_db task_id u input t db).units
  agree_after k r v e = elim (Bool-cases (same task_id k)) [
    | inl own ↦
        let here : k ≡ task_id = sym ((same_iff task_id k).0 own) in
        let it : v ≡ set_status (next_status input.status t) none (increment input.status t) =
          some-injective _ _ (
            sym e
            ∙ ap (λ j. find (has_task_id j) (reported_db task_id u input t db).tasks) here
            ∙ own_task) in
        ap (tally r) it
        ∙ tally-set_status r (next_status input.status t) (increment input.status t)
        ∙ tally_own r
        ∙ ground (arith, counts_move k r, counted.agree task_id r t task_found)
    | inr other ↦ ground (arith, counts_move k r, other_task k other, counted.agree k r v)
  ]

  pub reported_db-IsCounted : IsCounted (reported_db task_id u input t db)
  reported_db-IsCounted = record {
    unit_ids = λ k.
        rw
          (count-update_where_stable (has_unit_id u.id) (has_unit_id k) (set_report input) db.units
            (λ a h. refl))
          (counted.unit_ids k);
    task_ids = λ k.
        rw
          (
            count-update_where_stable (has_task_id task_id) (has_task_id k)
                (set_status (next_status input.status t) none)
                (update_where (has_task_id task_id) (increment input.status) db.tasks)
                (λ a h. refl),
            count-update_where_stable (has_task_id task_id) (has_task_id k) (increment input.status)
                db.tasks (λ a h. increment-keeps_id k input.status a),
          )
          (counted.task_ids k);
    agree = agree_after;
  }

-- The first report of a unit, as an equation.
pub report_unit_first :
    (task_id unit_id : String) (input : ReportInput) (db : Db) (u : TaskUnit) (t : Task)
    → find (is_unit_of task_id unit_id) db.units ≡ some u
    → is_pending u.status ≡ true
    → find (has_task_id task_id) db.tasks ≡ some t
    → (report_unit task_id unit_id input db).0 ≡ reported_db task_id u input t db
unfolding report_unit
report_unit_first task_id unit_id input db u t found pending task_found = ground arith

-- A report keeps the counters true, whatever it says: where identifiers are unique and each task's
-- completed and failed counters are the numbers of its units that stand so, this holds after it too.
pub report_unit-IsCounted :
    (task_id unit_id : String) (input : ReportInput) (db : Db)
    → IsCounted db
    → IsCounted (report_unit task_id unit_id input db).0
report_unit-IsCounted task_id unit_id input db h =
    elim (report_unit-ReportUnit task_id unit_id input db) [
      | missing absent e ↦ rw e h
      | orphan absent e ↦ rw e h
      | already u found settled e ↦ rw e h
      | first u t found pending task_found e ↦
          rw e (reported_db-IsCounted task_id unit_id input db u t found pending task_found h)
    ]
