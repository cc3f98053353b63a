-- ===== src/Invoice/Tests.antt =====
-- Runs of the invoice handlers on a database of one invoice, and the theorems at those inputs.
use wizpay_core.Prelude.{
  ℕ, ◌≡◌, ◌↔◌, filter, refl, String, true, List, [], ◌∷◌, Option, none, some, find, any, count,
  update_where,
}
use wizpay_core.Prelude.Text.{same}
use wizpay_core.Prelude.Outcome.{done, threw}
use wizpay_core.Prelude.Sequence.{◌>>=◌}
use wizpay_core.Chain.{is_digit, trim, is_0x_hex}
use wizpay_core.Intent.{IntentStatus, Intent, Runtime}
use wizpay_core.Intent.Service.{get, transition}
use wizpay_core.Intent.Submission.{
  complete_with_verified_receipt, receipt_matches, equal_addresses, matches_target,
  transaction_hash,
}
use wizpay_core.Invoice.{
  open_, verifying, paid, InvoiceStatus, PaymentStatus, invoice, Invoice, Payment, Db, Found,
  PublicInvoice, Checks,
}
use wizpay_core.Invoice.Service.{
  is_public_id, assert_public_id, update_invoices, expire_open_invoices, find_invoice, to_public,
  get_public, not_open,
}
use wizpay_core.Invoice.Settlement.{
  payment_verified, new_payment, create_payment, lock_invoice, set_verified, update_payments,
  record_paid, settle,
}
use wizpay_core.Invoice.Verifier.{
  Log, Receipt, Transaction, Provider, Expected, answered, transfer_topic, verify, verify_receipt,
  verify_logs, verify_amount, match_one, confirm, decoded_transfers,
}
use wizpay_core.Invoice.Verifier.Soundness.{IsPaid}
use wizpay_core.Invoice.Verifier.Laws.{verify_iff}
use wizpay_core.Invoice.Payoff.{
  Setting, expected_at, expected_of, ask_verifier, HasTerms, settle_on_chain,
}
use wizpay_core.Routing.{Config}
use wizpay_core.Capability.{assert_}
use wizpay_core.Invoice.Configuration.{checks_of}
use wizpay_core.Invoice.Evolution.{Evolves}
use wizpay_core.Invoice.History.{
  Request, ask_verify, ask_cancel, run, run-Evolves, lock_invoice_once, IsCompleted,
}

abbrev arc : Runtime
arc = record {
  network = "arc-mainnet";
  lower = λ s. s;
  get_address = λ s. some s;
  is_address_equal = same;
}

abbrev config : Config
config = record {
  network = "arc-mainnet";
  usdc = "usdc";
  eurc = none;
  capabilities = λ name. same name "invoice";
  get_address = λ a. some a;
  is_address_equal = same;
}

abbrev checks : Checks
checks = checks_of config (λ amount. some 5) (λ units. "5")

abbrev a_hash : String
a_hash = "0x00000000000000000000000000000000000000000000000000000000000000aa"

abbrev a_public_id : String
a_public_id = "abcdefghijklmnopqrstuv"

abbrev an_invoice : InvoiceStatus → Option ℕ → Invoice
an_invoice status paid_at = record {
  id = "v1";
  public_id = a_public_id;
  merchant_user_id = "m";
  merchant_wallet_address = "r";
  token_address = "usdc";
  amount_units = "5";
  title = "tea";
  settlement_kind = invoice;
  status = status;
  expires_at = none;
  paid_at = paid_at;
  cancelled_at = none;
}

abbrev an_intent : IntentStatus → Option ℕ → Intent
an_intent status completed_at = record {
  id = "i1";
  network = "arc-mainnet";
  status = status;
  operation = "INVOICE_SETTLEMENT";
  idempotency_key = "k1";
  source_wallet = "w";
  recipient = some "r";
  batch_digest = none;
  token_in = "usdc";
  token_out = "usdc";
  amount_units = "5";
  external_reference = a_public_id;
  task_id = none;
  owner_id = none;
  wallet_id = none;
  contract_address = none;
  calldata_hash = none;
  transaction_hash = some a_hash;
  circle_challenge_id = none;
  circle_transaction_id = none;
  failure_code = none;
  lease_owner = none;
  lease_expires_at = none;
  attempt_count = 0;
  completed_at = completed_at;
}

abbrev a_payment : Payment
a_payment = new_payment "v1" a_hash

abbrev fresh : Db
fresh = record {
  invoices = an_invoice open_ none ∷ [];
  payments = [];
  intents = an_intent IntentStatus.verifying none ∷ [];
}

abbrev taken : Db
taken = record fresh { invoices = an_invoice verifying none ∷ []; payments = a_payment ∷ [] }

abbrev settled : Db
settled = record {
  invoices = an_invoice paid (some 9) ∷ [];
  payments = set_verified "w" 9 a_payment ∷ [];
  intents = an_intent IntentStatus.completed (some 9) ∷ [];
}

abbrev shown : PublicInvoice
shown = record {
  public_id = a_public_id;
  receiving_address = "r";
  amount_units = "5";
  status = paid;
  payment_status = some PaymentStatus.verified;
  verification_code = none;
  transaction_hash = some a_hash;
  paid_at = some 9;
}

abbrev found : Found
found = record { invoice = an_invoice verifying none; payment = some a_payment }

lock : lock_invoice "v1" a_hash fresh ≡ (taken, done tt)
unfolding lock_invoice update_invoices create_payment ◌>>=◌ find count update_where any
lock = refl

abbrev a_log : Log
a_log = record {
  address = "usdc";
  topic = some transfer_topic;
  decoded = some (record { amount = 5; payer = "w"; recipient = "r" });
}

abbrev a_chain_receipt : Receipt
a_chain_receipt = record { is_success = true; block_number = 7; logs = a_log ∷ [] }

abbrev a_transaction : Transaction
a_transaction = record { chain_id = 5042; value = 0 }

abbrev provider : Provider
provider = record {
  chain_id = answered 5042;
  transaction = answered (some a_transaction, some a_chain_receipt);
  block_number = answered 8;
}

abbrev setting : Setting
setting = record { chain_id = 5042; confirmations_required = 2; read_units = λ s. some 5 }

abbrev expected : Expected
expected = expected_at arc setting found "usdc" "r"

verified : verify arc expected provider ≡ payment_verified "w"
unfolding verify verify_receipt verify_logs verify_amount match_one confirm decoded_transfers filter
verified = refl

settlement :
    settle arc checks a_public_id found "i1" a_hash
      (ask_verifier arc setting found provider)
      9
      taken
    ≡ (settled, done shown)
unfolding settle assert_ get_public to_public find_invoice expire_open_invoices update_invoices
    update_payments record_paid ◌>>=◌ find count update_where any assert_public_id is_public_id
    is_digit complete_with_verified_receipt receipt_matches matches_target equal_addresses
    transaction_hash get transition trim is_0x_hex ask_verifier expected_of verify verify_receipt
    verify_logs verify_amount match_one confirm decoded_transfers filter
settlement = refl

abbrev requests : List Request
requests = ask_verify a_public_id a_hash (payment_verified "w") 9 ∷ ask_cancel "m" "v1" 10 ∷ []

run-Evolves_example : Evolves taken (run arc checks requests taken)
run-Evolves_example = run-Evolves arc checks requests taken

lock_invoice_once_example : lock_invoice "v1" "0xbb" taken ≡ (taken, threw not_open)
lock_invoice_once_example = lock_invoice_once "v1" a_hash "0xbb" fresh taken lock

verify_iff_example :
    (verify arc expected provider ≡ payment_verified "w") ↔ IsPaid arc expected provider "w"
verify_iff_example = verify_iff arc expected provider "w"

settle_on_chain_example :
    (completion : IsCompleted arc found "i1" a_hash
      (ask_verifier arc setting found provider)
      9
      taken)
    × (e : Expected) × HasTerms arc setting found e
    × IsPaid arc e provider completion.payer
settle_on_chain_example =
    settle_on_chain arc checks setting provider a_public_id found "i1" a_hash 9 taken settled shown
      settlement
