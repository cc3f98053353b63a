-- ===== src/Bridge/History.antt =====
-- An intent of bridge-lifecycle.service.ts over all the requests that are made on it, one after the
-- other.
use wizpay_core.Prelude.{◌≡◌, refl, ◌∙◌, String, true, List}
use wizpay_core.Prelude.Text.{truthy}
use wizpay_core.Bridge.{Row, Db, Runtime}
use wizpay_core.Bridge.Creation.{payload_of, new_row}
use wizpay_core.Bridge.Creation.Input.{Accepted}
use wizpay_core.Bridge.Rows.{HasRow}
use wizpay_core.Bridge.Steps.{
  Step, approve, burn, report, wait, attest, authorize, submit, complete, Steps, over, next,
}
use wizpay_core.Bridge.Refinement.{Request}
use wizpay_core.Bridge.Laws.{run, run-Reached, IsSound, Step-IsSound}

-- What a history of an intent keeps: the terms of the transfer, and the hashes that are recorded.
pub record Keeps (a b : Row) : Type 0 where
  pub payload : b.payload ≡ a.payload
  pub approval :
      truthy a.result.approval_transaction_hash ≡ true
      → b.result.approval_transaction_hash ≡ a.result.approval_transaction_hash
  pub source :
      truthy a.result.source_transaction_hash ≡ true
      → b.result.source_transaction_hash ≡ a.result.source_transaction_hash

Step-Keeps : (env : Runtime) {a b : Row} → Step env a b → Keeps a b
Step-Keeps env (approve hash new) = record {
  payload = refl;
  approval = λ h. cc;
  source = λ h. refl;
}
Step-Keeps env (burn hash new) = record { payload = refl; approval = λ h. refl; source = λ h. cc }
Step-Keeps env (report hash message_hash new agreed) = record {
  payload = refl;
  approval = λ h. refl;
  source = λ h. refl;
}
Step-Keeps env (wait status reason burnt) = record {
  payload = refl;
  approval = λ h. refl;
  source = λ h. refl;
}
Step-Keeps env (attest message attestation decoded burnt good own) = record {
  payload = refl;
  approval = λ h. refl;
  source = λ h. refl;
}
Step-Keeps env (authorize lease_id now ready) = record {
  payload = refl;
  approval = λ h. refl;
  source = λ h. refl;
}
Step-Keeps env (submit lease_id hash message_hash now held mine running) = record {
  payload = refl;
  approval = λ h. refl;
  source = λ h. refl;
}
Step-Keeps env (complete verified now given message sent proof) = record {
  payload = refl;
  approval = λ h. refl;
  source = λ h. refl;
}

Steps-Keeps : (env : Runtime) {a b : Row} → Steps env a b → Keeps a b
Steps-Keeps env over = record { payload = refl; approval = λ h. refl; source = λ h. refl }
Steps-Keeps env (next s rest) =
    let first = Step-Keeps env s in
    let others = Steps-Keeps env rest in
    record {
      payload = others.payload ∙ first.payload;
      approval = λ h. others.approval (rw (first.approval h) h) ∙ first.approval h;
      source = λ h. others.source (rw (first.source h) h) ∙ first.source h;
    }

Steps-IsSound : (env : Runtime) {a b : Row} → Steps env a b → IsSound env a → IsSound env b
Steps-IsSound env over s = s
Steps-IsSound env (next w rest) s = Steps-IsSound env rest (Step-IsSound env w s)

-- Whatever requests are made on an intent that is there once, one after the other, the terms of its
-- transfer stay, and a hash of the approval or of the burn that is recorded is neither replaced nor
-- removed.
pub run-Keeps :
    (env : Runtime) (id : String) (requests : List Request) (db : Db) (row : Row)
    → HasRow id db row
    → (after : Row) × HasRow id (run env id requests db) after × Keeps row after
run-Keeps env id requests db row h =
    let r = run-Reached env id requests db row h in (r.after, r.there, Steps-Keeps env r.steps)

new_row-IsSound :
    (env : Runtime) (id task_id key : String) (accepted : Accepted)
    → IsSound env (new_row env id task_id (payload_of env key accepted))
new_row-IsSound env id task_id key accepted = record {
  attested = λ m h. cc;
  burnt = λ h. h;
  ready = λ h. cc;
  leased = λ h. h;
  ended = λ h. cc;
  verified = λ h. cc;
}

-- Whatever requests are made on an intent from its creation on, one after the other: a stored
-- attestation is that of a message with the terms of the intent, whose nonce, fee and amount are
-- stored; it is there only where a burn is recorded; an intent is open for the mint, or leased, only
-- with it, and completed only with it and a hash of the mint; a verified one has its dates.
pub run-IsSound :
    (env : Runtime) (id task_id key : String) (accepted : Accepted) (requests : List Request)
    (db : Db)
    → HasRow id db (new_row env id task_id (payload_of env key accepted))
    → (after : Row) × HasRow id (run env id requests db) after × IsSound env after
run-IsSound env id task_id key accepted requests db h =
    let r = run-Reached env id requests db _ h in
    (r.after, r.there, Steps-IsSound env r.steps (new_row-IsSound env id task_id key accepted))
