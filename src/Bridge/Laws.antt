-- ===== src/Bridge/Laws.antt =====
-- What stays true of an intent of bridge-lifecycle.service.ts, whatever requests are made on it, one
-- after the other.
use wizpay_core.Prelude.{
  ◌≡◌, refl, String, Bool, true, false, ◌&&◌, List, [], ◌∷◌, Option, none, some, arith, is_some,
  ◌∙◌,
}
use wizpay_core.Prelude.Text.{truthy}
use wizpay_core.Prelude.Outcome.{done}
use wizpay_core.Bridge.{BridgeStatus, completed, Row, Db, Runtime}
use wizpay_core.Bridge.Message.{Decoded, decode_cctp_v2_message}
use wizpay_core.Bridge.Evidence.{matches_bridge_attestation}
use wizpay_core.Bridge.Destination.{is_attestation_ready}
use wizpay_core.Bridge.Rows.{HasRow}
use wizpay_core.Bridge.Steps.{
  Step, approve, burn, report, wait, attest, authorize, submit, complete, Steps, over, next,
}
use wizpay_core.Bridge.Refinement.{Request, serve, serve-Refines, Refines}

abbrev pub run : Runtime → String → List Request → Db → Db
run env id [] db = db
run env id (request ∷ requests) db = run env id requests (serve env id request db).0

append-Steps : (env : Runtime) {a b c : Row} → Steps env a b → Steps env b c → Steps env a c
append-Steps env over more = more
append-Steps env (next s rest) more = next s (append-Steps env rest more)

pub record Reached (env : Runtime) (id : String) (row : Row) (db : Db) : Type 0 where
  pub after : Row
  pub there : HasRow id db after
  pub steps : Steps env row after

pub run-Reached :
    (env : Runtime) (id : String) (requests : List Request) (db : Db) (row : Row)
    → HasRow id db row
    → Reached env id row (run env id requests db)
run-Reached env id [] db row h = record { after = row; there = h; steps = over }
run-Reached env id (request ∷ requests) db row h =
    let one : Refines env id row (serve env id request db) =
      serve-Refines env id db row request h in
    let all : Reached env id one.after (run env id (request ∷ requests) db) =
      run-Reached env id requests (serve env id request db).0 one.after one.there in
    record { after = all.after; there = all.there; steps = append-Steps env one.steps all.steps }

abbrev pub is_completed : BridgeStatus → Bool
is_completed completed = true
is_completed status = false

-- The message that is stored is that of the intent, and what is stored of it is what it says.
pub record Attests (env : Runtime) (row : Row) (message : String) : Type 0 where
  pub decoded : Decoded
  pub is_decoded : decode_cctp_v2_message env message ≡ done decoded
  pub matched : matches_bridge_attestation env row.payload decoded none ≡ true
  pub nonce : row.result.nonce ≡ some decoded.nonce
  pub fee_executed : row.result.fee_executed ≡ some decoded.fee_executed
  pub mint_amount : row.result.mint_amount ≡ some decoded.amount

pub record IsSound (env : Runtime) (row : Row) : Type 0 where
  pub attested :
      (message : String) → row.result.attested_message ≡ some message → Attests env row message
  pub burnt :
      is_some row.result.attested_message ≡ true → is_some row.result.source_transaction_hash ≡ true
  pub ready : is_attestation_ready row.status ≡ true → is_some row.result.attested_message ≡ true
  pub leased : is_some row.destination_lease_id ≡ true → is_some row.result.attested_message ≡ true
  pub ended :
      is_completed row.status ≡ true
      → (is_some row.result.attested_message
          && is_some row.result.attestation
          && is_some row.result.destination_transaction_hash)
        ≡ true
  pub verified :
      row.result.destination_receipt_verified ≡ true
      → (is_some row.result.completed_at && is_some row.result.destination_verified_at) ≡ true

truthy-is_some : (t : Option String) → truthy t ≡ true → is_some t ≡ true
truthy-is_some none h = h
truthy-is_some (some s) h = refl

-- Steps that keep the attested message and what is stored of it.
same_attestation :
    (env : Runtime) (a b : Row)
    → b.payload ≡ a.payload
    → b.result.nonce ≡ a.result.nonce
    → b.result.fee_executed ≡ a.result.fee_executed
    → b.result.mint_amount ≡ a.result.mint_amount
    → (message : String) → Attests env a message
    → Attests env b message
same_attestation env a b p n f m message h = record {
  decoded = h.decoded;
  is_decoded = h.is_decoded;
  matched = rw p h.matched;
  nonce = n ∙ h.nonce;
  fee_executed = f ∙ h.fee_executed;
  mint_amount = m ∙ h.mint_amount;
}

pub Step-IsSound : (env : Runtime) {a b : Row} → Step env a b → IsSound env a → IsSound env b
Step-IsSound env (approve {row} hash new) s = record {
  attested = λ m h. same_attestation env row _ refl refl refl refl m (s.attested m h);
  burnt = s.burnt;
  ready = λ h. cc;
  leased = s.leased;
  ended = λ h. cc;
  verified = s.verified;
}
Step-IsSound env (burn {row} hash new) s = record {
  attested = λ m h. same_attestation env row _ refl refl refl refl m (s.attested m h);
  burnt = λ h. refl;
  ready = λ h. cc;
  leased = s.leased;
  ended = λ h. cc;
  verified = s.verified;
}
Step-IsSound env (report {row} hash message_hash new agreed) s = record {
  attested = λ m h. same_attestation env row _ refl refl refl refl m (s.attested m h);
  burnt = s.burnt;
  ready = λ h. cc;
  leased = s.leased;
  ended = λ h. cc;
  verified = s.verified;
}
Step-IsSound env (wait {row} status reason burnt) s = record {
  attested = λ m h. same_attestation env row _ refl refl refl refl m (s.attested m h);
  burnt = s.burnt;
  ready = λ h. cc;
  leased = s.leased;
  ended = λ h. cc;
  verified = s.verified;
}
Step-IsSound env (attest {row} message attestation decoded burnt good own) s = record {
  attested = λ m h. record {
    decoded = decoded;
    is_decoded = cc;
    matched = own;
    nonce = refl;
    fee_executed = refl;
    mint_amount = refl;
  };
  burnt = λ h. truthy-is_some row.result.source_transaction_hash burnt;
  ready = λ h. refl;
  leased = λ h. refl;
  ended = λ h. cc;
  verified = s.verified;
}
Step-IsSound env (authorize {row} lease_id now ready) s = record {
  attested = λ m h. same_attestation env row _ refl refl refl refl m (s.attested m h);
  burnt = s.burnt;
  ready = λ h. cc;
  leased = λ h. s.ready ready;
  ended = λ h. cc;
  verified = s.verified;
}
Step-IsSound env (submit {row} lease_id hash message_hash now held mine running) s = record {
  attested = λ m h. same_attestation env row _ refl refl refl refl m (s.attested m h);
  burnt = s.burnt;
  ready = λ h. cc;
  leased = λ h. cc;
  ended = λ h. cc;
  verified = s.verified;
}
Step-IsSound env (complete {row} verified now given message sent proof) s = record {
  attested = λ m h. same_attestation env row _ refl refl refl refl m (s.attested m h);
  burnt = s.burnt;
  ready = λ h. cc;
  leased = s.leased;
  ended = λ h. ground (
    arith,
    truthy-is_some row.result.attested_message message,
    truthy-is_some row.result.attestation given,
    truthy-is_some row.result.destination_transaction_hash sent,
  );
  verified = λ h. ground (arith, s.verified);
}
