-- ===== src/Task/Units/Order.antt =====
-- The unit that apps/backend/src/task/task-unit.service.ts names as the next to execute.
use mathlib.Core.List.{Memᴰ}
use native.Mathlib.Nat.{le_refl}
use wizpay_core.Prelude.{
  ℕ, ◌≤◌, ◌≡◌, sym, ap, ◌⊎◌, inl, inr, String, Bool, true, false, List, [], ◌∷◌, some, find, filter,
  arith, Bool-cases, subst, ◌∙◌, leb,
}
use wizpay_core.Prelude.Text.{same, same_iff}
use wizpay_core.Task.{TaskUnit, Db}
use wizpay_core.Task.Units.{
  is_pending, find_next_pending_unit, units_of, insert_by_index, order_by_index,
}

abbrev AllFrom : ℕ → List TaskUnit → Type 0
AllFrom n [] = Unit {0}
AllFrom n (u ∷ us) = (n ≤ u.index) × AllFrom n us

abbrev IsOrdered : List TaskUnit → Type 0
IsOrdered [] = Unit {0}
IsOrdered (u ∷ us) = AllFrom u.index us × IsOrdered us

AllFrom-mono : (m n : ℕ) (us : List TaskUnit) → m ≤ n → AllFrom n us → AllFrom m us
AllFrom-mono m n [] h a = tt
AllFrom-mono m n (u ∷ us) h (b, a) = (omega arith, AllFrom-mono m n us h a)

insert-AllFrom :
    (n : ℕ) (u : TaskUnit) (us : List TaskUnit)
    → n ≤ u.index
    → AllFrom n us
    → AllFrom n (insert_by_index u us)
unfolding insert_by_index
insert-AllFrom n u [] h a = (h, tt)
insert-AllFrom n u (v ∷ vs) h (b, a) = elim (Bool-cases (leb u.index v.index)) [
  | inl before ↦ rw before (h, (b, a))
  | inr after ↦ rw after (b, insert-AllFrom n u vs h a)
]

insert-IsOrdered :
    (u : TaskUnit) (us : List TaskUnit) → IsOrdered us → IsOrdered (insert_by_index u us)
unfolding insert_by_index
insert-IsOrdered u [] o = (tt, tt)
insert-IsOrdered u (v ∷ vs) (a, o) = elim (Bool-cases (leb u.index v.index)) [
  | inl before ↦
      let le : u.index ≤ v.index = ground arith in
      rw before ((le, AllFrom-mono u.index v.index vs le a), (a, o))
  | inr after ↦ rw after (insert-AllFrom v.index u vs (ground arith) a, insert-IsOrdered u vs o)
]

order-IsOrdered : (us : List TaskUnit) → IsOrdered (order_by_index us)
unfolding order_by_index
order-IsOrdered [] = tt
order-IsOrdered (u ∷ us) = insert-IsOrdered u (order_by_index us) (order-IsOrdered us)

mem_later :
    (u v w : TaskUnit) (ws : List TaskUnit)
    → ((u ≡ v) ⊎ Memᴰ v ws → Memᴰ v (insert_by_index u ws))
    → Memᴰ v (w ∷ ws)
    → Memᴰ v (w ∷ insert_by_index u ws)
mem_later u v w ws ih (Memᴰ.head e) = Memᴰ.head e
mem_later u v w ws ih (Memᴰ.tail m) = Memᴰ.tail (ih (inr m))

mem-insert :
    (u v : TaskUnit) (us : List TaskUnit) → (u ≡ v) ⊎ Memᴰ v us → Memᴰ v (insert_by_index u us)
unfolding insert_by_index
mem-insert u v [] (inl e) = Memᴰ.head (sym e)
mem-insert u v [] (inr m) = elim m [ ]
mem-insert u v (w ∷ ws) h = elim (Bool-cases (leb u.index w.index)) [
  | inl before ↦ rw before (elim h [ inl e ↦ Memᴰ.head (sym e) | inr m ↦ Memᴰ.tail m ])
  | inr after ↦ rw after (elim h [
    | inl e ↦ Memᴰ.tail (mem-insert u v ws (inl e))
    | inr m ↦ mem_later u v w ws (mem-insert u v ws) m
  ])
]

mem-order : (v : TaskUnit) (us : List TaskUnit) → Memᴰ v us → Memᴰ v (order_by_index us)
unfolding order_by_index
mem-order v [] m = elim m [ ]
mem-order v (u ∷ us) (Memᴰ.head e) = mem-insert u v (order_by_index us) (inl (sym e))
mem-order v (u ∷ us) (Memᴰ.tail m) = mem-insert u v (order_by_index us) (inr (mem-order v us m))

mem-filter :
    (p : TaskUnit → Bool) (v : TaskUnit) (us : List TaskUnit)
    → Memᴰ v us
    → p v ≡ true
    → Memᴰ v (filter p us)
unfolding filter
mem-filter p v [] m h = elim m [ ]
mem-filter p v (u ∷ us) (Memᴰ.head e) h = rw (ap p (sym e) ∙ h) (Memᴰ.head e)
mem-filter p v (u ∷ us) (Memᴰ.tail m) h = elim (Bool-cases (p u)) [
  | inl keep ↦ rw keep (Memᴰ.tail (mem-filter p v us m h))
  | inr drop ↦ rw drop (mem-filter p v us m h)
]

AllFrom-mem : (n : ℕ) (v : TaskUnit) (us : List TaskUnit) → AllFrom n us → Memᴰ v us → n ≤ v.index
AllFrom-mem n v [] _ m = elim m [ ]
AllFrom-mem n v (u ∷ us) (b, a) (Memᴰ.head e) = rw e b
AllFrom-mem n v (u ∷ us) (b, a) (Memᴰ.tail m) = AllFrom-mem n v us a m

mem_tail :
    (v w : TaskUnit) (ws : List TaskUnit)
    → Memᴰ v (w ∷ ws)
    → is_pending v.status ≡ true
    → is_pending w.status ≡ false
    → Memᴰ v ws
mem_tail v w ws (Memᴰ.head e) p n = absurd (
    let same : is_pending v.status ≡ is_pending w.status =
      ap (λ (x : TaskUnit). is_pending x.status) e in
    cc)
mem_tail v w ws (Memᴰ.tail m) p n = m

find_first :
    (us : List TaskUnit) (u v : TaskUnit)
    → IsOrdered us
    → find (λ w. is_pending w.status) us ≡ some u
    → Memᴰ v us
    → is_pending v.status ≡ true
    → u.index ≤ v.index
unfolding find
find_first [] u v o e m p = elim m [ ]
find_first (w ∷ ws) u v (a, o) e m p = elim (Bool-cases (is_pending w.status)) [
  | inl here ↦
      let it : w ≡ u = ground arith in
      subst (λ (x : TaskUnit). x.index ≤ v.index) it
        (AllFrom-mem w.index v (w ∷ ws) (le_refl w.index, a) m)
  | inr there ↦ find_first ws u v o (ground arith) (mem_tail v w ws m p there) p
]

-- The next unit has the least index among the pending units of the task.
pub next_pending_least :
    (task_id : String) (db : Db) (u v : TaskUnit)
    → find_next_pending_unit task_id db ≡ some u
    → Memᴰ v db.units
    → v.task_id ≡ task_id
    → is_pending v.status ≡ true
    → u.index ≤ v.index
unfolding find_next_pending_unit
next_pending_least task_id db u v e m own p =
    find_first (units_of task_id db) u v
      (order-IsOrdered (filter (λ w. same w.task_id task_id) db.units)) e
      (mem-order v (filter (λ w. same w.task_id task_id) db.units) (
        mem-filter (λ w. same w.task_id task_id) v db.units m ((same_iff v.task_id task_id).1 own)))
      p
