-- ===== src/Bridge/Rows.antt =====
-- The handlers of bridge-lifecycle.service.ts on the row that they are called for.
use wizpay_core.Prelude.{
  ◌≤◌, ◌≡◌, refl, ap, zero, suc, not, ◌&&◌, true, String, false, List, [], ◌∷◌, Option, none,
  if◌then◌else◌, some, find, count, update_where, arith, ◌⊎◌, inl, inr, Bool-cases,
  find-update_where, count-update_where_stable,
}
use wizpay_core.Prelude.Text.{same_refl}
use wizpay_core.Prelude.Outcome.{done, threw, failure, Error, Outcome, Outcome-cases}
use wizpay_core.Bridge.{Row, Db, View, Runtime}
use wizpay_core.Bridge.Registry.{get_bridge_chain}
use wizpay_core.Bridge.Store.{
  has_id, takes, takes_of, collides, required, update, view, configuration_unavailable,
}

-- The row that a handler is called for: there once.
pub record HasRow (id : String) (db : Db) (row : Row) : Type 0 where
  pub there : find (has_id id) db.rows ≡ some row
  pub unique : count (has_id id) db.rows ≤ 1

abbrev pub written : String → (Row → Row) → Db → Db
written id set db = record db { rows = update_where (has_id id) set db.rows }

not_taken : (o : Option String) (held : Option String) → takes o o held ≡ false
not_taken none held = refl
not_taken (some a) held = ground (arith, same_refl a)

-- A write that leaves the unique columns alone collides with no row.
pub collides_kept :
    (id : String) (old new : Row) (rows : List Row)
    → new.message_hash ≡ old.message_hash
    → new.nonce ≡ old.nonce
    → new.destination_transaction_hash ≡ old.destination_transaction_hash
    → new.destination_lease_id ≡ old.destination_lease_id
    → collides id old new rows ≡ false
unfolding collides count
collides_kept id old new [] m n d l = refl
collides_kept id old new (other ∷ rows) m n d l = ground (
  arith,
  collides_kept id old new rows m n d l,
  not_taken old.message_hash other.message_hash,
  not_taken old.nonce other.nonce,
  not_taken old.destination_transaction_hash other.destination_transaction_hash,
  not_taken old.destination_lease_id other.destination_lease_id,
)

-- A write to the row itself changes nothing for the others.
pub collides_written :
    (id : String) (old new : Row) (set : Row → Row) (rows : List Row)
    → ((a : Row) → has_id id (set a) ≡ has_id id a)
    → collides id old new (update_where (has_id id) set rows) ≡ collides id old new rows
unfolding collides
collides_written id old new set rows h =
    ap (λ n. elim n [ zero ↦ false | suc m ↦ true ])
      (count-update_where_stable (has_id id)
        (λ other. not (has_id id other) && takes_of old new other) set rows
        (λ a here. rw (h a, here) refl))

module _ (id : String) (db : Db) (row : Row) (is_there : HasRow id db row) where
  pub required_lem : required id db ≡ (db, done row)
  unfolding required
  required_lem = ground (arith, is_there.there)

  pub update_lem :
      (set : Row → Row)
      → update id set db ≡ (
          if collides id row (set row) db.rows
          then (db, threw failure)
          else (written id set db, done (set row)))
  unfolding update
  update_lem set = ground (arith, is_there.there)

  -- What an operation that ends with a write does: it throws where another row has the value of a unique
  -- column, and else shows the row that it has written.
  abbrev pub stores : Runtime → (Row → Row) → Db × Outcome View
  stores env set =
      if collides id row (set row) db.rows
      then (db, threw failure)
      else (written id set db, view env (set row))

  pub written-HasRow :
      (set : Row → Row)
      → ((a : Row) → has_id id (set a) ≡ has_id id a)
      → HasRow id (written id set db) (set row)
  written-HasRow set keeps = record {
    there = find-update_where (has_id id) set db.rows keeps is_there.there;
    unique =
        rw (count-update_where_stable (has_id id) (has_id id) set db.rows (λ a _. keeps a))
          is_there.unique;
  }

-- What `view` shows of a row, where the configuration and the chains are there.
abbrev pub shown : Row → View
shown row = record { id = row.id; status = row.status; payload = row.payload; result = row.result }

pub view-cases :
    (env : Runtime) (row : Row)
    → (view env row ≡ done (shown row)) ⊎ ((e : Error) × (view env row ≡ threw e))
unfolding view
view-cases env row = elim (Bool-cases env.resources_available) [
  | inr off ↦ inr (configuration_unavailable, ground arith)
  | inl on ↦ elim (Outcome-cases (get_bridge_chain row.payload.source_code)) [
    | inr (e, unknown) ↦ inr (e, ground arith)
    | inl (source, known) ↦ elim (Outcome-cases (get_bridge_chain row.payload.destination_code)) [
      | inr (e, unknown) ↦ inr (e, ground arith)
      | inl (destination, known') ↦ inl (ground arith)
    ]
  ]
]

-- A step that is made only where the row can be shown.
abbrev pub if_shown : Runtime → Row → Db → Db × Outcome View → Db × Outcome View
if_shown env row db r = elim (view env row) [ threw e ↦ (db, threw e) | done v ↦ r ]

pub view_result :
    (env : Runtime) (row : Row) (v : View) → view env row ≡ done v → v.result ≡ row.result
view_result env row v h = elim (view-cases env row) [
  | inl seen ↦ ground arith
  | inr (e, hidden) ↦ cc
]
