-- ===== src/Bridge/Creation/Idempotency.antt =====
-- `createIntent` of bridge-lifecycle.service.ts, asked again with the same key.
use wizpay_core.Prelude.{
  ◌≡◌, inl, inr, String, Bool, true, List, [], ◌∷◌, ◌++◌, none, some, find, arith, Bool-cases,
  Option-cases,
}
use wizpay_core.Prelude.Text.{same_refl}
use wizpay_core.Prelude.Outcome.{Outcome-cases}
use wizpay_core.Bridge.{Db, Runtime}
use wizpay_core.Bridge.Creation.Input.{CreateInput, FastAnswers, check_input}
use wizpay_core.Bridge.Creation.{payload_of, new_row, has_key, differs, insert, create_intent}
use wizpay_core.Bridge.Rows.{shown, view-cases}

find_last :
    {A : Type 0} (p : A → Bool) (xs : List A) (x : A)
    → find p xs ≡ none
    → p x ≡ true
    → find p (xs ++ (x ∷ [])) ≡ some x
unfolding find
find_last p [] x h k = ground arith
find_last p (y ∷ xs) x h k = ground (arith, find_last p xs x)

-- Asking for the same intent again, with the same answers of Circle, gives the same answer and writes
-- nothing: the intent that was created or found, or the same error, whatever identifiers the database
-- would give.
pub create_intent_again :
    (env : Runtime) (input : CreateInput) (answers : FastAnswers) (id task_id id' task_id' : String)
    (db : Db)
    → ((a : String) → env.is_address_equal a a ≡ true)
    → create_intent env input answers id' task_id' (create_intent env input answers id task_id db).0
      ≡ create_intent env input answers id task_id db
unfolding create_intent insert
create_intent_again env input answers id task_id id' task_id' db equal =
    elim (Outcome-cases (check_input env input answers)) [
      | inr (e, refused) ↦ ground arith
      | inl (a, accepted) ↦
          let key = input.idempotency_key in
          let new = new_row env id task_id (payload_of env key a) in
          elim (Option-cases (find (has_key env key) db.rows)) [
            | inr (row, found) ↦ elim (view-cases env row) [
              | inr (e, hidden) ↦ ground arith
              | inl seen ↦ elim (Bool-cases (differs env (shown row) a)) [
                | inl other ↦ ground arith
                | inr own ↦ ground arith
              ]
            ]
            | inl new_key ↦ elim (view-cases env new) [
              | inr (e, hidden) ↦
                  ground (arith, find_last (has_key env key) db.rows new, same_refl key)
              | inl seen ↦ ground (
                arith,
                find_last (has_key env key) db.rows new,
                same_refl key,
                equal a.wallet_address,
                same_refl a.source.code,
                same_refl a.destination.code,
                same_refl (env.lower a.recipient_address),
              )
            ]
          ]
    ]
