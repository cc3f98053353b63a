-- ===== src/Invoice/Settlement.antt =====
-- invoice.service.ts: the verification of a payment that is submitted for an invoice.
use wizpay_core.Prelude.{
  ℕ, String, Bool, true, false, ◌&&◌, ◌||◌, not, if◌then◌else◌, ◌==◌, [], ◌∷◌, ◌++◌, Option, none,
  some, find, any, update_where, is_some,
}
use wizpay_core.Prelude.Text.{same}
use wizpay_core.Prelude.Outcome.{
  Handler, Outcome, done, threw, Error, failure, conflict, gone, unavailable, unprocessable, return,
  throw, throw_if, or_throw, lift, atomic, attempt,
}
use wizpay_core.Prelude.Sequence.{◌>>=◌, ◌>>◌}
use wizpay_core.Intent.{Table, Runtime}
use wizpay_core.Intent.Service.{begin_verification, immutable_conflict}
use wizpay_core.Intent.Submission.{get_by_transaction_hash, complete_with_verified_receipt}
use wizpay_core.Invoice.{
  InvoiceStatus, open_, verifying, paid, expired, cancelled, PaymentStatus, SettlementKind, invoice,
  payment_link, same_status, is_verified, Invoice, Payment, Db, Found, PublicInvoice, Checks,
}
use wizpay_core.Invoice.Service.{
  not_open, is_due, assert_public_id, update_invoices, expire_open_invoices, has_public_id, pays,
  find_invoice, to_public, get_public,
}

-- What the verifier of payments answers: the payer, or an error with its code.
pub data Verification : Type 0 where
  payment_verified : (payer : String) → Verification
  unverified : (code : String) (retryable : Bool) → Verification
  broken : Verification

abbrev pub already_paid : Error
already_paid = conflict "INVOICE_ALREADY_PAID"

abbrev pub hash_reused : Error
hash_reused = conflict "INVOICE_TRANSACTION_HASH_REUSED"

abbrev pub already_submitted : Error
already_submitted = conflict "INVOICE_PAYMENT_ALREADY_SUBMITTED"

abbrev pub invoice_expired : Error
invoice_expired = gone "INVOICE_EXPIRED"

abbrev pub invoice_cancelled : Error
invoice_cancelled = gone "INVOICE_CANCELLED"

unfoldable pub assert_accepts_payment : Invoice → ℕ → Outcome (Unit {0})
assert_accepts_payment i now =
    if same_status i.status paid
    then threw already_paid
    else if same_status i.status expired || same_status i.status open_ && is_due i.expires_at now
    then threw invoice_expired
    else if same_status i.status cancelled
    then threw invoice_cancelled
    else if not (same_status i.status open_ || same_status i.status verifying)
    then threw not_open
    else done tt

-- An operation of the intents' service, on their table.
abbrev pub on_intents : {A : Type 0} → Handler Table A → Handler Db A
on_intents m db = let (t, r) = m db.intents in (record db { intents = t }, r)

abbrev pub settlement_operation : SettlementKind → String
settlement_operation invoice = "INVOICE_SETTLEMENT"
settlement_operation payment_link = "PAYMENT_LINK_SETTLEMENT"

abbrev pub has_hash : String → Payment → Bool
has_hash hash p = same p.transaction_hash hash

-- The payment is for another transaction.
abbrev pub is_other : Option Payment → String → Bool
is_other none hash = false
is_other (some p) hash = not (has_hash hash p)

abbrev pub is_verified_payment : Option Payment → Bool
is_verified_payment none = false
is_verified_payment (some p) = is_verified p.status

-- `!payment || payment.transactionHash !== hash`
abbrev pub lacks : Option Payment → String → Bool
lacks none hash = true
lacks (some p) hash = not (has_hash hash p)

abbrev pub new_payment : String → String → Payment
new_payment invoice_id hash = record {
  invoice_id = invoice_id;
  transaction_hash = hash;
  status = PaymentStatus.verifying;
  payer_address = none;
  verified_at = none;
  rejection_code = none;
}

-- `invoicePayment.create`, whose two keys are unique.
unfoldable pub create_payment : String → String → Handler Db (Unit {0})
create_payment invoice_id hash db =
    if any (pays invoice_id) db.payments || any (has_hash hash) db.payments
    then (db, threw failure)
    else (record db { payments = db.payments ++ (new_payment invoice_id hash ∷ []) }, done tt)

abbrev pub set_verifying : Invoice → Invoice
set_verifying i = record i { status = verifying }

abbrev pub set_paid : ℕ → Invoice → Invoice
set_paid now i = record i { status = paid; paid_at = some now }

abbrev pub is_at : String → InvoiceStatus → Invoice → Bool
is_at id status i = same i.id id && same_status i.status status

-- The transaction that takes an open invoice for a payment.
unfoldable pub lock_invoice : String → String → Handler Db (Unit {0})
lock_invoice invoice_id hash = atomic (do
  locked ← update_invoices (is_at invoice_id open_) set_verifying
  throw_if (not (locked == 1)) not_open
  create_payment invoice_id hash)

abbrev pub is_conflict : Error → Bool
is_conflict (conflict code) = true
is_conflict e = false

-- `where: { invoiceId, transactionHash, status: { in: ['SUBMITTED', 'VERIFYING', 'REJECTED'] } }`
abbrev pub is_unsettled : String → String → Payment → Bool
is_unsettled invoice_id hash p = pays invoice_id p && has_hash hash p && not (is_verified p.status)

unfoldable pub update_payments : (Payment → Bool) → (Payment → Payment) → Handler Db (Unit {0})
update_payments where_ set db =
    (record db { payments = update_where where_ set db.payments }, done tt)

abbrev pub set_verified : String → ℕ → Payment → Payment
set_verified payer now p = record p {
  status = PaymentStatus.verified;
  payer_address = some payer;
  verified_at = some now;
  rejection_code = none;
}

abbrev pub set_pending : Payment → Payment
set_pending p = record p { status = PaymentStatus.verifying; rejection_code = none }

abbrev pub set_rejected : String → Payment → Payment
set_rejected code p = record p { status = PaymentStatus.rejected; rejection_code = some code }

-- After a `create` that broke a unique key, another request may have bound the same payment.
unfoldable pub recheck : String → Outcome Found → Handler Db (Unit {0})
recheck hash (threw missing) = throw hash_reused
recheck hash (done found) = throw_if (lacks found.payment hash) hash_reused

-- The end of the `try` around the transaction.
unfoldable pub recover_lock : String → String → Outcome (Unit {0}) → Handler Db (Unit {0})
recover_lock public_id hash (done locked) = return tt
recover_lock public_id hash (threw e) =
    if is_conflict e
    then throw e
    else (do again ← attempt (find_invoice (has_public_id public_id)); recheck hash again)

unfoldable pub start_payment : String → Found → String → Handler Db Found
start_payment public_id found hash = do
  reused ← λ db. (db, done (find (has_hash hash) db.payments))
  throw_if (elim reused [ none ↦ false | some p ↦ not (same p.invoice_id found.invoice.id) ])
      hash_reused
  locked ← attempt (lock_invoice found.invoice.id hash)
  recover_lock public_id hash locked
  find_invoice (has_public_id public_id)

-- The transaction that settles a verified payment.
unfoldable pub record_paid : String → String → String → ℕ → Handler Db (Unit {0})
record_paid invoice_id hash payer now = atomic (do
  update_payments (is_unsettled invoice_id hash) (set_verified payer now)
  update_invoices (is_at invoice_id verifying) (set_paid now)
  return tt)

module _ (env : Runtime) (checks : Checks) where
  unfoldable pub settle :
      String → Found → String → String → Verification → ℕ → Handler Db PublicInvoice
  settle public_id found intent_id hash (payment_verified payer) now = do
    or_throw (env.get_address found.invoice.token_address) failure
    or_throw (env.get_address found.invoice.merchant_wallet_address) failure
    on_intents (
        complete_with_verified_receipt env intent_id
          (record {
            network = env.network;
            transaction_hash = hash;
            source_wallet = payer;
            token = found.invoice.token_address;
            recipient = some found.invoice.merchant_wallet_address;
            batch_digest = none;
            amount_units = found.invoice.amount_units;
          })
          now)
    record_paid found.invoice.id hash payer now
    get_public env checks public_id now
  settle public_id found intent_id hash (unverified code true) now = do
    or_throw (env.get_address found.invoice.token_address) failure
    or_throw (env.get_address found.invoice.merchant_wallet_address) failure
    update_payments (is_unsettled found.invoice.id hash) set_pending
    throw (unavailable code)
  settle public_id found intent_id hash (unverified code false) now = do
    or_throw (env.get_address found.invoice.token_address) failure
    or_throw (env.get_address found.invoice.merchant_wallet_address) failure
    update_payments (is_unsettled found.invoice.id hash) (set_rejected code)
    throw (unprocessable code)
  settle public_id found intent_id hash broken now = throw failure

  -- The part of `verifyPublicPayment` after the intent is bound, on the invoice as it was read before.
  unfoldable pub accept_payment :
      String → Found → String → String → Verification → ℕ → Handler Db PublicInvoice
  accept_payment public_id found intent_id hash verification now =
      if same_status found.invoice.status paid
        && is_verified_payment found.payment
        && not (lacks found.payment hash)
      then to_public env checks found
      else (do
        lift (assert_accepts_payment found.invoice now)
        throw_if (is_other found.payment hash) already_submitted
        if is_verified_payment found.payment then to_public env checks found else (do
          current ←
              if is_some found.payment then return found else start_payment public_id found hash
          settle public_id current intent_id hash verification now))

  unfoldable pub verify_public_payment :
      String → String → Verification → ℕ → Handler Db PublicInvoice
  verify_public_payment public_id submitted_hash verification now = do
    lift (assert_public_id public_id)
    found ← find_invoice (has_public_id public_id)
    lift (checks.capability found.invoice.settlement_kind)
    lift (checks.executable found.invoice.settlement_kind found.invoice.token_address)
    intent ← on_intents (get_by_transaction_hash env (env.lower submitted_hash))
    throw_if
        (not (same intent.operation (settlement_operation found.invoice.settlement_kind))
          || not (same intent.external_reference found.invoice.public_id))
        immutable_conflict
    on_intents (begin_verification env intent.id now)
    expire_open_invoices (has_public_id public_id) now
    accept_payment public_id found intent.id (env.lower submitted_hash) verification now
