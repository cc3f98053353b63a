-- ===== src/Invoice/History.antt =====
-- The invoices of invoice.service.ts over all requests, one after the other; and what it takes to pay
-- one.
use wizpay_core.Prelude.{
  ℕ, ◌≡◌, refl, ◌∙◌, ap, sym, String, Bool, true, false, List, [], ◌∷◌, Option, none, some, arith,
  count, update_where, Bool-cases, ◌==◌, ◌||◌, any, subst, inl, inr,
}
use wizpay_core.Prelude.Outcome.{Outcome, done, threw, Error, failure, or_throw}
use wizpay_core.Prelude.Sequence.{◌>>=◌, both_returned}
use wizpay_core.Intent.{Table, Runtime, Intent}
use wizpay_core.Intent.Submission.{Receipt, complete_with_verified_receipt}
use wizpay_core.Invoice.{open_, Invoice, Db, Found, PublicInvoice, Checks}
use wizpay_core.Invoice.Service.{
  CreateInvoice, create, get_owned, get_public, cancel, update_invoices, not_open, pays,
}
use wizpay_core.Invoice.Settlement.{
  Verification, payment_verified, unverified, broken, is_at, has_hash, set_verifying,
  create_payment, lock_invoice, settle, verify_public_payment, on_intents,
}
use wizpay_core.Invoice.Evolution.{Respects, Evolves, Evolves-refl, Evolves-trans}
use wizpay_core.Invoice.Evolution.Handlers.{
  get_owned-Respects, get_public-Respects, cancel-Respects, create-Respects,
}
use wizpay_core.Invoice.Evolution.Payments.{verify_public_payment-Respects}

-- A request to the service, with the clock, the identifiers that are drawn, and the verifier's answer.
pub data Request : Type 0 where
  ask_create :
      (user wallet : String) (input : CreateInvoice) (id public_id : String) (now : ℕ) → Request
  ask_owned : (user id : String) (now : ℕ) → Request
  ask_public : (public_id : String) (now : ℕ) → Request
  ask_cancel : (user id : String) (now : ℕ) → Request
  ask_verify : (public_id hash : String) (v : Verification) (now : ℕ) → Request

module _ (env : Runtime) (checks : Checks) where
  abbrev pub serve : Request → Db → Db × Outcome PublicInvoice
  serve (ask_create user wallet input id public_id now) =
      create env checks user wallet input id public_id now
  serve (ask_owned user id now) = get_owned env checks user id now
  serve (ask_public public_id now) = get_public env checks public_id now
  serve (ask_cancel user id now) = cancel env checks user id now
  serve (ask_verify public_id hash v now) = verify_public_payment env checks public_id hash v now

  serve-Respects : (request : Request) → Respects (serve request)
  serve-Respects (ask_create user wallet input id public_id now) =
      create-Respects env checks user wallet input id public_id now
  serve-Respects (ask_owned user id now) = get_owned-Respects env checks user id now
  serve-Respects (ask_public public_id now) = get_public-Respects env checks public_id now
  serve-Respects (ask_cancel user id now) = cancel-Respects env checks user id now
  serve-Respects (ask_verify public_id hash v now) =
      verify_public_payment-Respects env checks public_id hash v now

  abbrev pub run : List Request → Db → Db
  run [] db = db
  run (request ∷ requests) db = run requests (serve request db).0

  -- Whatever requests are made, one after the other: no invoice is lost; its merchant, wallet, token
  -- and amount stay; a status that is verifying only comes to paid, and an invoice that is paid, expired
  -- or cancelled stays as it is; a payment stays that of its invoice and its transaction, and a verified
  -- one stays as it is.
  pub run-Evolves : (requests : List Request) (db : Db) → Evolves db (run requests db)
  run-Evolves [] db = Evolves-refl db
  run-Evolves (request ∷ requests) db =
      Evolves-trans db (serve request db).0 (run requests (serve request db).0)
        ((serve-Respects request).evolves db) (run-Evolves requests (serve request db).0)

count-written :
    (p : Invoice → Bool) (f : Invoice → Invoice) (xs : List Invoice)
    → ((a : Invoice) → p a ≡ true → p (f a) ≡ false)
    → count p (update_where p f xs) ≡ 0
unfolding count update_where
count-written p f [] h = refl
count-written p f (x ∷ xs) h = ground (arith, h x, count-written p f xs h)

lock_refused :
    (id hash : String) (db : Db)
    → count (is_at id open_) db.invoices ≡ 0
    → lock_invoice id hash db ≡ (db, threw not_open)
unfolding lock_invoice update_invoices ◌>>=◌
lock_refused id hash db h = ground arith

locked_invoices :
    (id hash : String) (db after : Db)
    → lock_invoice id hash db ≡ (after, done tt)
    → after.invoices ≡ update_where (is_at id open_) set_verifying db.invoices
unfolding lock_invoice update_invoices create_payment ◌>>=◌
locked_invoices id hash db after h = elim (Bool-cases (count (is_at id open_) db.invoices == 1)) [
  | inr other ↦ ground arith
  | inl one ↦ elim (Bool-cases (any (pays id) db.payments || any (has_hash hash) db.payments)) [
    | inl taken ↦ ground arith
    | inr free ↦ ground arith
  ]
]

-- An invoice is taken for one payment: after a `lockInvoice` transaction that returned, another one on
-- the same invoice, for whatever hash, throws and writes nothing.
pub lock_invoice_once :
    (id hash other : String) (db after : Db)
    → lock_invoice id hash db ≡ (after, done tt)
    → lock_invoice id other after ≡ (after, threw not_open)
lock_invoice_once id hash other db after h = lock_refused id other after (
    ap (count (is_at id open_)) (locked_invoices id hash db after h)
    ∙ count-written (is_at id open_) set_verifying db.invoices (λ a e. ground arith))

-- The receipt of a payment of an invoice.
abbrev pub terms : Runtime → Found → String → String → Receipt
terms env found hash payer = record {
  network = env.network;
  transaction_hash = hash;
  source_wallet = payer;
  token = found.invoice.token_address;
  recipient = some found.invoice.merchant_wallet_address;
  batch_digest = none;
  amount_units = found.invoice.amount_units;
}

-- An intent that `completeWithVerifiedReceipt` completed, with the terms of an invoice.
pub record IsCompleted (env : Runtime) (found : Found) (intent_id hash : String) (v : Verification)
    (now : ℕ) (db : Db) : Type 0 where
  pub payer : String
  pub is_verified : v ≡ payment_verified payer
  pub intents : Table
  pub intent : Intent
  pub is_completed :
      complete_with_verified_receipt env intent_id (terms env found hash payer) now db.intents
      ≡ (intents, done intent)

on_intents_returned :
    {A : Type 0} (m : Table → Table × Outcome A) (db db' : Db) (a : A)
    → on_intents m db ≡ (db', done a)
    → m db.intents ≡ (db'.intents, done a)
on_intents_returned m db db' a h = λ i. ((h i).0.intents, (h i).1)

found_here :
    {A : Type 0} (o : Option A) (e : Error) (db db' : Db) (a : A)
    → or_throw o e db ≡ (db', done a)
    → db' ≡ db
found_here none e db db' a h = cc
found_here (some x) e db db' a h = sym (ap (λ r. r.0) h)

-- A payment is settled only on proof: where the settlement returns, the verifier has found the payer,
-- and the intent was completed by a receipt of this payer, for the token, the amount and the wallet of
-- the invoice.
pub settle_sound :
    (env : Runtime) (checks : Checks) (public_id : String) (found : Found) (intent_id hash : String)
    (v : Verification) (now : ℕ) (db after : Db) (shown : PublicInvoice)
    → settle env checks public_id found intent_id hash v now db ≡ (after, done shown)
    → IsCompleted env found intent_id hash v now db
unfolding settle
settle_sound env checks public_id found intent_id hash (payment_verified payer) now db after shown
      h =
    both_returned _ _ db h (λ db1 a1 e1 h1. both_returned _ _ db1 h1 (λ db2 a2 e2 h2.
      both_returned _ _ db2 h2 (λ db3 intent e3 h3.
        let stays = found_here _ failure db1 db2 a2 e2 ∙ found_here _ failure db db1 a1 e1 in
        let proof =
          on_intents_returned
            (complete_with_verified_receipt env intent_id (terms env found hash payer) now) db2 db3
            intent e3 in
        record {
          payer = payer;
          is_verified = refl;
          intents = db3.intents;
          intent = intent;
          is_completed =
              subst
                (λ (d : Db).
                  complete_with_verified_receipt env intent_id (terms env found hash payer) now
                    d.intents
                  ≡ (db3.intents, done intent))
                stays proof;
        })))
settle_sound env checks public_id found intent_id hash (unverified code true) now db after shown h =
    both_returned _ _ db h (λ db1 a1 e1 h1.
      both_returned _ _ db1 h1
        (λ db2 a2 e2 h2. both_returned _ _ db2 h2 (λ db3 a3 e3 h3. ground arith)))
settle_sound env checks public_id found intent_id hash (unverified code false) now db after shown
      h =
    both_returned _ _ db h (λ db1 a1 e1 h1.
      both_returned _ _ db1 h1
        (λ db2 a2 e2 h2. both_returned _ _ db2 h2 (λ db3 a3 e3 h3. ground arith)))
settle_sound env checks public_id found intent_id hash broken now db after shown h = ground arith
