-- ===== src/Invoice/Evolution/Payments.antt =====
-- `verifyPublicPayment` of invoice.service.ts moves invoices and payments as Invoice/Evolution says, and
-- so does any sequence of requests.
use wizpay_core.Prelude.{
  ℕ, ◌≡◌, refl, inl, inr, String, Bool, true, false, [], ◌∷◌, arith, Bool-cases, ◌||◌, any, is_some,
}
use wizpay_core.Prelude.Outcome.{Handler, Outcome, done, threw, atomic, attempt}
use wizpay_core.Intent.{Table, Runtime}
use wizpay_core.Invoice.{InvoiceStatus, open_, same_status, Invoice, Payment, Db, Found, Checks}
use wizpay_core.Invoice.Service.{pays}
use wizpay_core.Invoice.Settlement.{
  recheck, Verification, payment_verified, unverified, broken, on_intents, has_hash, new_payment,
  create_payment, set_verifying, set_paid, is_at, lock_invoice, is_conflict, is_unsettled,
  update_payments, set_verified, set_pending, set_rejected, recover_lock, start_payment,
  record_paid, settle, accept_payment, verify_public_payment,
}
use wizpay_core.Invoice.Evolution.{
  Moves, Settles, Respects, Evolves, Evolves-refl, Extends-refl, Extends-update_where,
  Extends-append, Moves-refl, Settles-refl,
}
use wizpay_core.Invoice.Evolution.Handlers.{
  bind-Respects, reads-Respects, throw_if-Respects, or_throw-Respects, find_invoice-Respects,
  update_invoices-Respects, expire-Respects, eq_of_same_status, to_public-Respects,
  get_public-Respects, if-Respects,
}

set_verifying-Moves : (a : Invoice) → same_status a.status open_ ≡ true → Moves a (set_verifying a)
set_verifying-Moves a h =
    let e = eq_of_same_status a.status open_ h in
    record {
      id = refl;
      public_id = refl;
      merchant = refl;
      wallet = refl;
      token = refl;
      amount = refl;
      onward = ground arith;
      final = λ k. ground arith;
    }

set_paid-Moves :
    (now : ℕ) (a : Invoice)
    → same_status a.status InvoiceStatus.verifying ≡ true
    → Moves a (set_paid now a)
set_paid-Moves now a h =
    let e = eq_of_same_status a.status InvoiceStatus.verifying h in
    record {
      id = refl;
      public_id = refl;
      merchant = refl;
      wallet = refl;
      token = refl;
      amount = refl;
      onward = ground arith;
      final = λ k. ground arith;
    }

-- An operation on the table of intents leaves the invoices and the payments alone.
on_intents-Respects : {A : Type 0} (m : Handler Table A) → Respects (on_intents m)
on_intents-Respects m = record {
  evolves = λ db. record {
    invoices = Extends-refl Moves Moves-refl db.invoices;
    payments = Extends-refl Settles Settles-refl db.payments;
  };
}

abbrev ends : {A : Type 0} → Db → Db × Outcome A → Db × Outcome A
ends db r = elim r.1 [ done a ↦ (r.0, done a) | threw e ↦ (db, threw e) ]

undo : {A : Type 0} (db : Db) (r : Db × Outcome A) → Evolves db r.0 → Evolves db (ends db r).0
undo db (after, done a) h = h
undo db (after, threw e) h = Evolves-refl db

atomic-Respects : {A : Type 0} {m : Handler Db A} → Respects m → Respects (atomic m)
atomic-Respects {m = m} h = record { evolves = λ db. undo db (m db) (h.evolves db) }

attempt-Respects : {A : Type 0} {m : Handler Db A} → Respects m → Respects (attempt m)
attempt-Respects h = record { evolves = λ db. h.evolves db }

create_payment-Respects : (invoice_id hash : String) → Respects (create_payment invoice_id hash)
unfolding create_payment
create_payment-Respects invoice_id hash = record {
  evolves = λ db.
      elim (Bool-cases (any (pays invoice_id) db.payments || any (has_hash hash) db.payments)) [
        | inl taken ↦ rw taken (Evolves-refl db)
        | inr free ↦ rw free (record {
          invoices = Extends-refl Moves Moves-refl db.invoices;
          payments =
              Extends-append Settles Settles-refl db.payments (new_payment invoice_id hash ∷ []);
        })
      ];
}

update_payments-Respects :
    (p : Payment → Bool) (f : Payment → Payment)
    → ((a : Payment) → p a ≡ true → Settles a (f a))
    → Respects (update_payments p f)
unfolding update_payments
update_payments-Respects p f h = record {
  evolves = λ db. record {
    invoices = Extends-refl Moves Moves-refl db.invoices;
    payments = Extends-update_where Settles Settles-refl p f h db.payments;
  };
}

lock_invoice-Respects : (invoice_id hash : String) → Respects (lock_invoice invoice_id hash)
unfolding lock_invoice
lock_invoice-Respects invoice_id hash = atomic-Respects (
    bind-Respects
      (update_invoices-Respects (is_at invoice_id open_) set_verifying
        (λ a h. set_verifying-Moves a (ground arith)))
      (λ locked.
        bind-Respects (throw_if-Respects _ _) (λ _. create_payment-Respects invoice_id hash)))

record_paid-Respects :
    (invoice_id hash payer : String) (now : ℕ) → Respects (record_paid invoice_id hash payer now)
unfolding record_paid
record_paid-Respects invoice_id hash payer now = atomic-Respects (
    bind-Respects
      (update_payments-Respects (is_unsettled invoice_id hash) (set_verified payer now)
        (λ a h. record { invoice = refl; hash = refl; final = λ k. ground arith }))
      (λ _.
        bind-Respects
          (update_invoices-Respects (is_at invoice_id InvoiceStatus.verifying) (set_paid now)
            (λ a h. set_paid-Moves now a (ground arith)))
          (λ n. reads-Respects (λ db. refl))))

recheck-Respects : (hash : String) (again : Outcome Found) → Respects (recheck hash again)
unfolding recheck
recheck-Respects hash (threw e) = reads-Respects (λ db. refl)
recheck-Respects hash (done found) = throw_if-Respects _ _

recover_lock-Respects :
    (public_id hash : String) (locked : Outcome (Unit {0}))
    → Respects (recover_lock public_id hash locked)
unfolding recover_lock
recover_lock-Respects public_id hash (done u) = reads-Respects (λ db. refl)
recover_lock-Respects public_id hash (threw e) =
    if-Respects (is_conflict e) (reads-Respects (λ db. refl)) (
      bind-Respects (attempt-Respects (find_invoice-Respects _))
        (λ again. recheck-Respects hash again))

start_payment-Respects :
    (public_id : String) (found : Found) (hash : String)
    → Respects (start_payment public_id found hash)
unfolding start_payment
start_payment-Respects public_id found hash = bind-Respects (reads-Respects (λ db. refl)) (λ reused.
    bind-Respects (throw_if-Respects _ _) (λ _.
      bind-Respects (attempt-Respects (lock_invoice-Respects found.invoice.id hash)) (λ locked.
        bind-Respects (recover_lock-Respects public_id hash locked)
          (λ _. find_invoice-Respects _))))

module _ (env : Runtime) (checks : Checks) where
  settle-Respects :
      (public_id : String) (found : Found) (intent_id hash : String) (v : Verification) (now : ℕ)
      → Respects (settle env checks public_id found intent_id hash v now)
  unfolding settle
  settle-Respects public_id found intent_id hash (payment_verified payer) now =
      bind-Respects (or_throw-Respects _ _) (λ _. bind-Respects (or_throw-Respects _ _) (λ _.
        bind-Respects (on_intents-Respects _) (λ _.
          bind-Respects (record_paid-Respects found.invoice.id hash payer now)
            (λ _. get_public-Respects env checks public_id now))))
  settle-Respects public_id found intent_id hash (unverified code true) now =
      bind-Respects (or_throw-Respects _ _) (λ _. bind-Respects (or_throw-Respects _ _) (λ _.
        bind-Respects
          (update_payments-Respects (is_unsettled found.invoice.id hash) set_pending
            (λ a h. record { invoice = refl; hash = refl; final = λ k. ground arith }))
          (λ _. reads-Respects (λ db. refl))))
  settle-Respects public_id found intent_id hash (unverified code false) now =
      bind-Respects (or_throw-Respects _ _) (λ _. bind-Respects (or_throw-Respects _ _) (λ _.
        bind-Respects
          (update_payments-Respects (is_unsettled found.invoice.id hash) (set_rejected code)
            (λ a h. record { invoice = refl; hash = refl; final = λ k. ground arith }))
          (λ _. reads-Respects (λ db. refl))))
  settle-Respects public_id found intent_id hash broken now = reads-Respects (λ db. refl)

  accept_payment-Respects :
      (public_id : String) (found : Found) (intent_id hash : String) (v : Verification) (now : ℕ)
      → Respects (accept_payment env checks public_id found intent_id hash v now)
  unfolding accept_payment
  accept_payment-Respects public_id found intent_id hash v now =
      if-Respects _ (to_public-Respects env checks found) (
        bind-Respects (reads-Respects (λ db. refl)) (λ _.
          bind-Respects (throw_if-Respects _ _) (λ _.
            if-Respects _ (to_public-Respects env checks found) (
              bind-Respects
                (if-Respects (is_some found.payment) (reads-Respects (λ db. refl))
                  (start_payment-Respects public_id found hash))
                (λ current. settle-Respects public_id current intent_id hash v now)))))

  pub verify_public_payment-Respects :
      (public_id hash : String) (v : Verification) (now : ℕ)
      → Respects (verify_public_payment env checks public_id hash v now)
  unfolding verify_public_payment
  verify_public_payment-Respects public_id hash v now =
      bind-Respects (reads-Respects (λ db. refl)) (λ _.
        bind-Respects (find_invoice-Respects _) (λ found.
          bind-Respects (reads-Respects (λ db. refl)) (λ _.
            bind-Respects (reads-Respects (λ db. refl)) (λ _.
              bind-Respects (on_intents-Respects _) (λ intent.
                bind-Respects (throw_if-Respects _ _) (λ _.
                  bind-Respects (on_intents-Respects _) (λ _.
                    bind-Respects (expire-Respects _ now) (λ _.
                      accept_payment-Respects public_id found intent.id (env.lower hash) v
                        now))))))))
