-- ===== src/Invoice/Evolution/Handlers.antt =====
-- The handlers of invoice.service.ts move invoices and payments as Invoice/Evolution says, and no other
-- way.
use wizpay_core.Prelude.{
  ℕ, ◌≡◌, refl, ap, sym, subst, inl, inr, String, Bool, true, false, ◌==◌, [], ◌∷◌, ◌++◌, Option,
  none, some, arith, Option-cases, if◌then◌else◌, find,
}
use wizpay_core.Prelude.Outcome.{
  Handler, done, Error, failure, bind_of_done, bind_of_threw, throw_if, or_throw, Outcome-cases,
}
use wizpay_core.Prelude.Sequence.{◌>>=◌}
use wizpay_core.Intent.{Runtime}
use wizpay_core.Invoice.{InvoiceStatus, open_, same_status, Invoice, Db, Found, Checks}
use wizpay_core.Invoice.Service.{
  update_invoices, expire_open_invoices, find_invoice, to_public, get_owned, refuse_cancel, cancel,
  get_public, create, CreateInvoice, set_expired, set_cancelled,
}
use wizpay_core.Invoice.Evolution.{
  Moves, Settles, Respects, Evolves, Evolves-refl, Evolves-trans, Extends-refl,
  Extends-update_where, Extends-append, Moves-refl, Settles-refl,
}

pub bind-Respects :
    {A B : Type 0} {m : Handler Db A} {f : A → Handler Db B}
    → Respects m
    → ((a : A) → Respects (f a))
    → Respects (m >>= f)
unfolding ◌>>=◌
bind-Respects {m = m} {f = f} h k = record {
  evolves = λ db. elim (Outcome-cases (m db).1) [
    | inl (a, returned) ↦
        rw (ap (λ r. r.0) (bind_of_done m f db (ap (λ o. ((m db).0, o)) returned)))
          (Evolves-trans db (m db).0 _ (h.evolves db) ((k a).evolves (m db).0))
    | inr (e, failed) ↦
        rw (ap (λ r. r.0) (bind_of_threw m f db (ap (λ o. ((m db).0, o)) failed))) (h.evolves db)
  ];
}

pub reads-Respects : {A : Type 0} {m : Handler Db A} → ((db : Db) → (m db).0 ≡ db) → Respects m
reads-Respects h = record { evolves = λ db. subst (Evolves db) (sym (h db)) (Evolves-refl db) }

pub throw_if-Respects : (b : Bool) (e : Error) → Respects (throw_if b e)
throw_if-Respects true e = reads-Respects (λ db. refl)
throw_if-Respects false e = reads-Respects (λ db. refl)

pub or_throw-Respects : {A : Type 0} (o : Option A) (e : Error) → Respects (or_throw o e)
or_throw-Respects none e = reads-Respects (λ db. refl)
or_throw-Respects (some a) e = reads-Respects (λ db. refl)

pub find_invoice-Respects : (p : Invoice → Bool) → Respects (find_invoice p)
unfolding find_invoice
find_invoice-Respects p = reads-Respects (λ db. elim (Option-cases (find p db.invoices)) [
  | inl missing ↦ ground arith
  | inr (i, found) ↦ ground arith
])

pub eq_of_same_status : (a b : InvoiceStatus) → same_status a b ≡ true → a ≡ b
eq_of_same_status a b h = ground arith

-- The four writes to an invoice.
set_expired-Moves : (a : Invoice) → same_status a.status open_ ≡ true → Moves a (set_expired a)
set_expired-Moves a h =
    let e = eq_of_same_status a.status open_ h in
    record {
      id = refl;
      public_id = refl;
      merchant = refl;
      wallet = refl;
      token = refl;
      amount = refl;
      onward = ground arith;
      final = λ k. ground arith;
    }

set_cancelled-Moves :
    (now : ℕ) (a : Invoice) → same_status a.status open_ ≡ true → Moves a (set_cancelled now a)
set_cancelled-Moves now a h =
    let e = eq_of_same_status a.status open_ h in
    record {
      id = refl;
      public_id = refl;
      merchant = refl;
      wallet = refl;
      token = refl;
      amount = refl;
      onward = ground arith;
      final = λ k. ground arith;
    }

pub update_invoices-Respects :
    (p : Invoice → Bool) (f : Invoice → Invoice)
    → ((a : Invoice) → p a ≡ true → Moves a (f a))
    → Respects (update_invoices p f)
unfolding update_invoices
update_invoices-Respects p f h = record {
  evolves = λ db. record {
    invoices = Extends-update_where Moves Moves-refl p f h db.invoices;
    payments = Extends-refl Settles Settles-refl db.payments;
  };
}

pub expire-Respects : (p : Invoice → Bool) (now : ℕ) → Respects (expire_open_invoices p now)
unfolding expire_open_invoices
expire-Respects p now =
    update_invoices-Respects _ set_expired (λ a h. set_expired-Moves a (ground arith))

pub if-Respects :
    {A : Type 0} (b : Bool) {m k : Handler Db A}
    → Respects m
    → Respects k
    → Respects (if b then m else k)
if-Respects true h g = h
if-Respects false h g = g

insert-Respects :
    (made : Invoice)
    → Respects {A = Unit {0}} (λ db. (record db { invoices = db.invoices ++ (made ∷ []) }, done tt))
insert-Respects made = record {
  evolves = λ db. record {
    invoices = Extends-append Moves Moves-refl db.invoices (made ∷ []);
    payments = Extends-refl Settles Settles-refl db.payments;
  };
}

module _ (env : Runtime) (checks : Checks) where
  pub to_public-Respects : (f : Found) → Respects (to_public env checks f)
  unfolding to_public
  to_public-Respects f =
      bind-Respects (or_throw-Respects (env.get_address f.invoice.merchant_wallet_address) failure)
        (λ a. reads-Respects (λ db. refl))

  pub get_owned-Respects :
      (user id : String) (now : ℕ) → Respects (get_owned env checks user id now)
  unfolding get_owned
  get_owned-Respects user id now = bind-Respects (reads-Respects (λ db. refl)) (λ _.
      bind-Respects (expire-Respects _ now)
        (λ _. bind-Respects (find_invoice-Respects _) (λ f. to_public-Respects f)))

  pub get_public-Respects :
      (public_id : String) (now : ℕ) → Respects (get_public env checks public_id now)
  unfolding get_public
  get_public-Respects public_id now = bind-Respects (reads-Respects (λ db. refl)) (λ _.
      bind-Respects (expire-Respects _ now) (λ _.
        bind-Respects (find_invoice-Respects _)
          (λ f. bind-Respects (reads-Respects (λ db. refl)) (λ _. to_public-Respects f))))

  refuse_cancel-Respects : (user id : String) → Respects (refuse_cancel env checks user id)
  unfolding refuse_cancel
  refuse_cancel-Respects user id =
      bind-Respects (find_invoice-Respects _) (λ f. reads-Respects (λ db. refl))

  pub cancel-Respects : (user id : String) (now : ℕ) → Respects (cancel env checks user id now)
  unfolding cancel
  cancel-Respects user id now = bind-Respects (reads-Respects (λ db. refl)) (λ _.
      bind-Respects (expire-Respects _ now) (λ _.
        bind-Respects
          (update_invoices-Respects _ (set_cancelled now)
            (λ a h. set_cancelled-Moves now a (ground arith)))
          (λ n.
            if-Respects (n == 1) (get_owned-Respects user id now)
              (refuse_cancel-Respects user id))))

  pub create-Respects :
      (user wallet : String) (input : CreateInvoice) (id public_id : String) (now : ℕ)
      → Respects (create env checks user wallet input id public_id now)
  unfolding create
  create-Respects user wallet input id public_id now =
      bind-Respects (reads-Respects (λ db. refl)) (λ _.
        bind-Respects (reads-Respects (λ db. refl)) (λ token.
          bind-Respects (reads-Respects (λ db. refl)) (λ _.
            bind-Respects (throw_if-Respects _ _) (λ _.
              bind-Respects (or_throw-Respects _ _) (λ units.
                bind-Respects (throw_if-Respects _ _) (λ _.
                  bind-Respects (throw_if-Respects _ _) (λ _.
                    bind-Respects (or_throw-Respects _ _) (λ address.
                      bind-Respects (insert-Respects _) (λ _. to_public-Respects _)))))))))
