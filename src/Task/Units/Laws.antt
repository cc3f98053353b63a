-- ===== src/Task/Units/Laws.antt =====
-- What a sequence of unit reports makes of a task: its status, the next unit to execute, and
-- reports that come twice.
use mathlib.Core.Option
use wizpay_core.Prelude.{
  ◌+◌, ◌≡◌, refl, sym, ap, inl, inr, String, Bool, true, false, ◌&&◌, List, [], ◌∷◌, none, some,
  find, count, arith, Option-cases, if◌then◌else◌, find_written, count-update_where, ◌∙◌, ltb,
}
use wizpay_core.Prelude.Text.{same, same_refl}
use wizpay_core.Task.{TaskStatus, in_progress, review, executed, assigned, Task, TaskUnit, Db}
use wizpay_core.Task.Lifecycle.{has_task_id, is_valid_transition}
use wizpay_core.Task.Units.{
  Report, success, failed, ReportInput, reported, is_pending, has_unit_id, is_unit_of, set_report,
  recompute_task_status, report_unit,
}
use wizpay_core.Task.Units.Counters.{
  is_reported, IsCounted, missing, orphan, already, first, report_unit-ReportUnit, reported_db,
  own_task, owner, report_unit_first, counts_move, next_status, found_by_id,
}

abbrev pub belongs : String → TaskUnit → Bool
belongs task_id u = same u.task_id task_id

abbrev pub is_open : String → TaskUnit → Bool
is_open task_id u = same u.task_id task_id && is_pending u.status

-- What the statuses of its units say of a task: under review once a unit failed, in progress while
-- one is pending, executed when all succeeded.
abbrev pub status_of_units : String → List TaskUnit → TaskStatus
status_of_units task_id us =
    if ltb 0 (count (is_reported task_id failed) us)
    then review
    else if ltb 0 (count (is_open task_id) us)
    then in_progress
    else executed

count_by_status :
    (k : String) (us : List TaskUnit)
    → count (belongs k) us
      ≡ count (is_open k) us + count (is_reported k success) us + count (is_reported k failed) us
unfolding count
count_by_status k [] = omega arith
count_by_status k (u ∷ us) = ground (arith, count_by_status k us)

module _ (task_id unit_id : String) (input : ReportInput) (db : Db) (u : TaskUnit) (t : Task)
    (found : find (is_unit_of task_id unit_id) db.units ≡ some u)
    (pending : is_pending u.status ≡ true)
    (task_found : find (has_task_id task_id) db.tasks ≡ some t) (counted : IsCounted db) where
  open_units :
      count (is_open task_id) (reported_db task_id u input t db).units + 1
      ≡ count (is_open task_id) db.units
  open_units =
      let own : u.task_id ≡ task_id =
        owner task_id unit_id input db u t found pending task_found counted in
      ground (
        arith,
        own,
        same_refl task_id,
        count-update_where (has_unit_id u.id) (is_open task_id) (set_report input) db.units {x = u}
            (counted.unit_ids u.id)
            (found_by_id task_id unit_id input db u t found pending task_found counted),
      )

  status_after :
      (s : TaskStatus)
      → next_status input.status t ≡ s
      → Option.map
          (λ (v : Task). v.status)
          (find (has_task_id task_id) (report_unit task_id unit_id input db).0.tasks)
        ≡ some s
  status_after s e =
      ap (λ (d : Db). Option.map (λ (v : Task). v.status) (find (has_task_id task_id) d.tasks))
        (report_unit_first task_id unit_id input db u t found pending task_found)
      ∙ ap (Option.map (λ (v : Task). v.status))
          (own_task task_id unit_id input db u t found pending task_found counted)
      ∙ ap some e

  next_status_of_units :
      t.total_units ≡ count (belongs task_id) db.units
      → next_status input.status t
        ≡ status_of_units task_id (reported_db task_id u input t db).units
  unfolding recompute_task_status
  next_status_of_units total = ground (
    arith,
    open_units,
    count_by_status task_id db.units,
    counts_move task_id unit_id input db u t found pending task_found counted task_id success,
    counts_move task_id unit_id input db u t found pending task_found counted task_id failed,
    counted.agree task_id success t task_found,
    counted.agree task_id failed t task_found,
    same_refl task_id,
  )

-- After the first report of a unit, the task being there, the task's status is what the statuses of its units say,
-- provided that the counters were true and that `totalUnits` is the number of units.
pub report_unit_status :
    (task_id unit_id : String) (input : ReportInput) (db : Db) (u : TaskUnit) (t : Task)
    → find (is_unit_of task_id unit_id) db.units ≡ some u
    → is_pending u.status ≡ true
    → find (has_task_id task_id) db.tasks ≡ some t
    → IsCounted db
    → t.total_units ≡ count (belongs task_id) db.units
    → Option.map
        (λ (v : Task). v.status)
        (find (has_task_id task_id) (report_unit task_id unit_id input db).0.tasks)
      ≡ some (status_of_units task_id (report_unit task_id unit_id input db).0.units)
report_unit_status task_id unit_id input db u t found pending task_found counted total =
    status_after task_id unit_id input db u t found pending task_found counted _ (
      next_status_of_units task_id unit_id input db u t found pending task_found counted total
      ∙ ap (λ (d : Db). status_of_units task_id d.units)
          (sym (report_unit_first task_id unit_id input db u t found pending task_found)))

missing_report :
    (task_id unit_id : String) (again : ReportInput) (db : Db)
    → find (is_unit_of task_id unit_id) db.units ≡ none
    → (report_unit task_id unit_id again db).0 ≡ db
unfolding report_unit
missing_report task_id unit_id again db e = ground arith

orphan_report :
    (task_id unit_id : String) (again : ReportInput) (db : Db)
    → find (has_task_id task_id) db.tasks ≡ none
    → (report_unit task_id unit_id again db).0 ≡ db
unfolding report_unit
orphan_report task_id unit_id again db e =
    elim (Option-cases (find (is_unit_of task_id unit_id) db.units)) [
      | inl absent ↦ ground arith
      | inr (u, there) ↦ ground arith
    ]

settled_report :
    (task_id unit_id : String) (again : ReportInput) (db : Db) (v : TaskUnit)
    → find (is_unit_of task_id unit_id) db.units ≡ some v
    → is_pending v.status ≡ false
    → (report_unit task_id unit_id again db).0 ≡ db
unfolding report_unit
settled_report task_id unit_id again db v e settled =
    elim (Option-cases (find (has_task_id task_id) db.tasks)) [
      | inl none_there ↦ ground arith
      | inr (t, there) ↦ ground arith
    ]

not_pending_reported : (r : Report) → is_pending (reported r) ≡ false
not_pending_reported success = refl
not_pending_reported failed = refl

-- A second report of a unit, of any content, changes nothing.
pub report_unit_twice :
    (task_id unit_id : String) (input again : ReportInput) (db : Db)
    → (report_unit task_id unit_id again (report_unit task_id unit_id input db).0).0
      ≡ (report_unit task_id unit_id input db).0
report_unit_twice task_id unit_id input again db =
    elim (report_unit-ReportUnit task_id unit_id input db) [
      | missing absent e ↦ rw e (missing_report task_id unit_id again db absent)
      | orphan absent e ↦ rw e (orphan_report task_id unit_id again db absent)
      | already u found settled e ↦ rw e (settled_report task_id unit_id again db u found settled)
      | first u t found pending task_found e ↦ rw e (
          settled_report task_id unit_id again (reported_db task_id u input t db)
            (set_report input u)
            (find_written (has_unit_id u.id) (is_unit_of task_id unit_id) (set_report input)
              db.units (λ a. refl) (same_refl u.id) found)
            (not_pending_reported input.status))
    ]

-- The map of allowed moves does not bind the reports: the first report of a unit, if it is a failure
-- and the counters were true, puts an assigned task under review, and the map has no such move.
pub report_unit_off_map :
    (task_id unit_id : String) (input : ReportInput) (db : Db) (u : TaskUnit) (t : Task)
    → find (is_unit_of task_id unit_id) db.units ≡ some u
    → is_pending u.status ≡ true
    → find (has_task_id task_id) db.tasks ≡ some t
    → t.status ≡ assigned
    → input.status ≡ failed
    → IsCounted db
    → (Option.map
          (λ (v : Task). v.status)
          (find (has_task_id task_id) (report_unit task_id unit_id input db).0.tasks)
        ≡ some review)
      × (is_valid_transition t.status review ≡ false)
unfolding recompute_task_status is_valid_transition
report_unit_off_map task_id unit_id input db u t found pending task_found st bad counted = (
  status_after task_id unit_id input db u t found pending task_found counted review (ground arith),
  ground arith,
)
