-- ===== src/Intent/Row.antt =====
-- The handlers of execution-intent.service.ts on the row that they are called for: each `updateMany`
-- writes that row where its conditions hold, and nothing where they do not.
use wizpay_core.Prelude.{
  ℕ, ◌≤◌, ◌≡◌, refl, ap, ◌∙◌, inl, inr, String, Bool, true, false, not, some, find, count,
  update_where, arith, Bool-cases, if◌then◌else◌, find_sound, find_written,
  count-update_where_stable, update_where-absent, count_of_unique, from_Bool,
}
use wizpay_core.Prelude.Text.{same, same_refl}
use wizpay_core.Prelude.Outcome.{done, threw}
use wizpay_core.Intent.{
  IntentStatus, same_status, includes, transitions, is_terminal, Intent, Table, Runtime,
}
use wizpay_core.Intent.Service.{
  has_id, update_many, get, transition, refuse_transition, TransitionData, set_transition, is_at,
  invalid_transition, terminal,
}

-- The row that a handler is called for: there once, on the network of the runtime.
pub record HasRow (env : Runtime) (id : String) (t : Table) (i : Intent) : Type 0 where
  pub there : find (has_id id) t ≡ some i
  pub unique : count (has_id id) t ≤ 1
  pub local : same i.network env.network ≡ true

module _ (env : Runtime) (id : String) (t : Table) (i : Intent) (row : HasRow env id t i) where
  pub get_row : get env id t ≡ (t, done i)
  unfolding get
  get_row = ground (arith, row.there, row.local)

  module _ (p : Intent → Bool) (set : Intent → Intent)
      (about : (a : Intent) → p a ≡ true → has_id id a ≡ true)
      (keeps : (a : Intent) → has_id id (set a) ≡ has_id id a)
      (stays : (a : Intent) → (set a).network ≡ a.network) where
    pub write_count : count p t ≡ from_Bool (p i)
    write_count = count_of_unique (has_id id) p t about row.unique row.there

    pub write_row : p i ≡ true → HasRow env id (update_where p set t) (set i)
    write_row h = record {
      there = find_written p (has_id id) set t keeps h row.there;
      unique = rw (count-update_where_stable p (has_id id) set t (λ a _. keeps a)) row.unique;
      local = ap (λ n. same n env.network) (stays i) ∙ row.local;
    }

    pub write_nothing : p i ≡ false → update_where p set t ≡ t
    write_nothing h = update_where-absent p set t (write_count ∙ ap from_Bool h)

at_about :
    (id : String) (expected : IntentStatus) (a : Intent)
    → is_at id expected a ≡ true
    → has_id id a ≡ true
at_about id expected a h = ground arith

module _ (env : Runtime) (id : String) (t : Table) (i : Intent) (row : HasRow env id t i)
    (expected next : IntentStatus) (data_ : TransitionData) (now : ℕ) where
  move_count : count (is_at id expected) t ≡ from_Bool (is_at id expected i)
  move_count =
      write_count env id t i row (is_at id expected) (set_transition next data_ now)
        (at_about id expected) (λ a. refl) (λ a. refl)

  pub moved :
      is_at id expected i ≡ true
      → HasRow env id
          (update_where (is_at id expected) (set_transition next data_ now) t)
          (set_transition next data_ now i)
  moved =
      write_row env id t i row (is_at id expected) (set_transition next data_ now)
        (at_about id expected) (λ a. refl) (λ a. refl)

  unmoved :
      is_at id expected i ≡ false
      → update_where (is_at id expected) (set_transition next data_ now) t ≡ t
  unmoved =
      write_nothing env id t i row (is_at id expected) (set_transition next data_ now)
        (at_about id expected) (λ a. refl) (λ a. refl)

-- `transition` as an equation, on an intent that is there once and on the runtime's network: a move
-- outside the map is refused; the expected status is compared and the next one set in one write; from
-- another status the move is refused, as terminal or as invalid, and nothing is written.
pub transition_lem :
    (env : Runtime) (id : String) (t : Table) (i : Intent) (expected next : IntentStatus)
    (data_ : TransitionData) (now : ℕ)
    → HasRow env id t i
    → transition env id expected next data_ now t ≡ (
        if not (includes (transitions expected) next)
        then (t, threw invalid_transition)
        else if same_status i.status expected
        then (
          update_where (is_at id expected) (set_transition next data_ now) t,
          done (set_transition next data_ now i),
        )
        else (t, threw (if is_terminal i.status then terminal else invalid_transition)))
unfolding transition update_many refuse_transition
transition_lem env id t i expected next data_ now row =
    elim (Bool-cases (includes (transitions expected) next)) [
      | inr off ↦ ground arith
      | inl on ↦ elim (Bool-cases (same_status i.status expected)) [
        | inl here ↦
            let at : is_at id expected i ≡ true =
              ground (arith, find_sound (has_id id) t row.there) in
            ground (
              arith,
              same_refl id,
              move_count env id t i row expected next data_ now,
              get_row env id (update_where (is_at id expected) (set_transition next data_ now) t)
                  (set_transition next data_ now i)
                  (moved env id t i row expected next data_ now at),
            )
        | inr elsewhere ↦
            let not_at : is_at id expected i ≡ false = ground arith in
            ground (
              arith,
              move_count env id t i row expected next data_ now,
              unmoved env id t i row expected next data_ now not_at,
              get_row env id t i row,
            )
      ]
    ]
