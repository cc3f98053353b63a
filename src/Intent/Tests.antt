-- ===== src/Intent/Tests.antt =====
-- Runs of the intent handlers on a table of one intent, and the theorems at those inputs.
use wizpay_core.Prelude.{
  ◌≡◌, refl, ◌↔◌, ◌≢◌, String, true, false, [], ◌∷◌, Option, none, some, find, count, update_where,
  arith, any,
}
use wizpay_core.Prelude.Text.{same}
use wizpay_core.Prelude.Outcome.{done, threw}
use wizpay_core.Chain.{is_0x_hex, trim}
use wizpay_core.Intent.{
  created, submitted, verifying, completed, expired, Intent, IntentStatus, Table, Runtime,
  transitions,
}
use wizpay_core.Intent.Service.{
  get, transition, begin_verification, verify_from_created, verify_from_pending,
  verify_from_submitted, assert_access, acquire_lease, assert_lease, active_lease, terminal,
  immutable_conflict, invalid_transition,
}
use wizpay_core.Intent.Submission.{
  transaction_hash, bind_transaction_hash, bind_known_transaction_hash, is_unbound, set_hash,
  holds_hash, cancel_unsubmitted, Receipt, complete_with_verified_receipt, receipt_matches,
  equal_addresses, matches_target,
}
use wizpay_core.Intent.Row.{HasRow}
use wizpay_core.Intent.Lease.{lease_exclusive, assert_lease_iff}
use wizpay_core.Intent.Evidence.{bind_transaction_hash_lem}
use wizpay_core.Intent.Outcomes.{
  cancel_unsubmitted_lem, bind_transaction_hash_reopens, AgreesWith,
  complete_with_verified_receipt_sound,
}
use wizpay_core.Intent.Refinement.{ask_hash, serve, Refines, serve-Writes}
use wizpay_core.Intent.Interleaving.{Writes, Write, transaction_hash_write_once, completed_final}

abbrev arc : Runtime
arc = record {
  network = "arc-mainnet";
  lower = λ s. s;
  get_address = λ s. some s;
  is_address_equal = same;
}

abbrev a_hash : String
a_hash = "0x00000000000000000000000000000000000000000000000000000000000000aa"

abbrev an_intent : IntentStatus → Option String → Intent
an_intent status hash = record {
  id = "i1";
  network = "arc-mainnet";
  status = status;
  operation = "SEND";
  idempotency_key = "k1";
  source_wallet = "w";
  recipient = some "r";
  batch_digest = none;
  token_in = "usdc";
  token_out = "usdc";
  amount_units = "5";
  external_reference = "ref";
  task_id = none;
  owner_id = none;
  wallet_id = none;
  contract_address = none;
  calldata_hash = none;
  transaction_hash = hash;
  circle_challenge_id = none;
  circle_transaction_id = none;
  failure_code = none;
  lease_owner = none;
  lease_expires_at = none;
  attempt_count = 0;
  completed_at = none;
}

abbrev a_receipt : Receipt
a_receipt = record {
  network = "arc-mainnet";
  transaction_hash = a_hash;
  source_wallet = "w";
  token = "usdc";
  recipient = some "r";
  batch_digest = none;
  amount_units = "5";
}

abbrev table : IntentStatus → Option String → Table
table status hash = an_intent status hash ∷ []

engine : Unit {0}
unfolding find update_where count trim is_0x_hex get transition begin_verification acquire_lease
    assert_lease bind_transaction_hash bind_known_transaction_hash cancel_unsubmitted
    complete_with_verified_receipt receipt_matches matches_target equal_addresses
    verify_from_created verify_from_pending verify_from_submitted transaction_hash assert_access
engine = tt

row_of : (s : IntentStatus) (h : Option String) → HasRow arc "i1" (table s h) (an_intent s h)
unfolding engine
row_of s h = record { there = refl; unique = omega arith; local = refl }

life :
    ((begin_verification arc "i1" 7 (table submitted (some a_hash))).1
      ≡ done (an_intent verifying (some a_hash)))
    × ((complete_with_verified_receipt arc "i1" a_receipt 9 (table verifying (some a_hash))).1
        ≡ done (record (an_intent completed (some a_hash)) { completed_at = some 9 }))
    × ((cancel_unsubmitted arc "i1" "k1" (table submitted (some a_hash))).1
        ≡ threw invalid_transition)
unfolding engine
life = (refl, refl, refl)

abbrev leased_by_me : Intent
leased_by_me = record (an_intent created none) {
  lease_owner = some "me";
  lease_expires_at = some 2010;
  attempt_count = 1;
}

got_lease : (acquire_lease arc "i1" "me" 2000 10 (table created none)).1 ≡ done leased_by_me
unfolding engine
got_lease = refl

lease_exclusive_example :
    acquire_lease arc "i1" "you" 5000 100
      (acquire_lease arc "i1" "me" 2000 10 (table created none)).0
    ≡ ((acquire_lease arc "i1" "me" 2000 10 (table created none)).0, threw active_lease)
lease_exclusive_example =
    lease_exclusive arc "i1" (table created none) (an_intent created none) leased_by_me "me" "you"
      2000 5000 10 100 (row_of created none) got_lease (omega arith)

assert_lease_iff_example :
    ((assert_lease arc "i1" "you" 100
        (acquire_lease arc "i1" "me" 2000 10 (table created none)).0).1
      ≡ done leased_by_me)
    ↔ (◌≡◌ {A = String} "you" "me")
assert_lease_iff_example =
    assert_lease_iff arc "i1" (table created none) (an_intent created none) leased_by_me "me" "you"
      2000 10 100 (row_of created none) got_lease (omega arith)

not_blank : ◌≢◌ {A = Option String} none (some "")
not_blank e = cc

bind_transaction_hash_lem_example :
    bind_transaction_hash arc 1 "i1" a_hash none true 7 (table created none)
    ≡ (table submitted (some a_hash), done (an_intent submitted (some a_hash)))
unfolding engine
bind_transaction_hash_lem_example =
    bind_transaction_hash_lem arc "i1" (table created none) (an_intent created none) 0 a_hash none
      true 7 (row_of created none) not_blank

cancel_unsubmitted_lem_example :
    cancel_unsubmitted arc "i1" "k2" (table created none)
    ≡ (table created none, threw immutable_conflict)
unfolding engine
cancel_unsubmitted_lem_example =
    cancel_unsubmitted_lem arc "i1" (table created none) (an_intent created none) "k2"
      (row_of created none) not_blank not_blank not_blank

is_hash : is_0x_hex 64 a_hash ≡ true
unfolding engine
is_hash = refl

expired_not_completed : expired ≢ completed
expired_not_completed e = cc

free_hash : any (holds_hash "i1" (arc.lower a_hash)) (table expired none) ≡ false
unfolding engine
free_hash = refl

bind_transaction_hash_reopens_example :
    (transitions expired ≡ [])
    × (bind_transaction_hash arc 1 "i1" a_hash (some "me") false 7 (table expired none) ≡ (
      update_where (is_unbound "i1") (set_hash (arc.lower a_hash)) (table expired none),
      done (set_hash (arc.lower a_hash) (an_intent expired none)),
    ))
    × (bind_known_transaction_hash arc 1 "i1" "k1" a_hash 7 (table expired none)
        ≡ (table expired none, threw terminal))
bind_transaction_hash_reopens_example =
    bind_transaction_hash_reopens arc "i1" (table expired none) (an_intent expired none) 0 a_hash
      (some "me") 7 (row_of expired none) refl expired_not_completed refl is_hash free_hash

completion :
    (complete_with_verified_receipt arc "i1" a_receipt 9 (table verifying (some a_hash))).1
    ≡ done (record (an_intent completed (some a_hash)) { completed_at = some 9 })
completion = life.1

complete_with_verified_receipt_sound_example :
    AgreesWith arc a_receipt (an_intent verifying (some a_hash))
    × (completed ≡ completed)
    × (some a_hash ≡ some (arc.lower a_hash))
complete_with_verified_receipt_sound_example =
    complete_with_verified_receipt_sound arc "i1" (table verifying (some a_hash))
      (an_intent verifying (some a_hash))
      (record (an_intent completed (some a_hash)) { completed_at = some 9 }) a_receipt 9
      (row_of verifying (some a_hash)) completion

raced :
    Writes "i1"
      (an_intent completed (some a_hash))
      (record (an_intent completed (some a_hash)) { task_id = some "t1" })
raced = Writes.next (Write.attach "t1" refl) Writes.over

transaction_hash_write_once_example : some a_hash ≡ some a_hash
transaction_hash_write_once_example = transaction_hash_write_once "i1" a_hash raced refl

completed_final_example : (completed ≡ completed) × (some a_hash ≡ some a_hash)
completed_final_example = completed_final "i1" a_hash raced refl refl

serve-Writes_example :
    Refines arc "i1"
      (an_intent created none)
      (serve arc "i1" (ask_hash 0 a_hash none true 7) (table created none))
serve-Writes_example =
    serve-Writes arc "i1" (table created none) (an_intent created none)
      (ask_hash 0 a_hash none true 7) (row_of created none) not_blank not_blank not_blank
