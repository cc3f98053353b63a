-- ===== src/Invoice/Evolution.antt =====
-- What the handlers of invoice.service.ts may do to the tables of invoices and payments, whatever they
-- are asked for, and the rules by which a handler is composed of parts that do no more.
pub mod Handlers
pub mod Payments
use wizpay_core.Prelude.{
  ℕ, ◌≡◌, refl, ◌∙◌, ap, sym, subst, inl, inr, String, Bool, true, false, List, [], ◌∷◌, ◌++◌,
  Option, none, some, arith, Bool-cases, if◌then◌else◌, update_where,
}
use wizpay_core.Prelude.Outcome.{
  Handler, Outcome, done, threw, Error, ◌>>=◌, lift, throw, throw_if, return, or_throw, atomic,
  attempt,
}
use wizpay_core.Intent.{Table}
use wizpay_core.Invoice.{
  InvoiceStatus, open_, verifying, paid, expired, cancelled, is_verified, Invoice, Payment, Db,
}
use wizpay_core.Invoice.Settlement.{on_intents}

-- The statuses that an invoice may come to.
abbrev pub reaches : InvoiceStatus → InvoiceStatus → Bool
reaches open_ b = true
reaches verifying verifying = true
reaches verifying paid = true
reaches paid paid = true
reaches expired expired = true
reaches cancelled cancelled = true
reaches a b = false

abbrev pub is_final : InvoiceStatus → Bool
is_final open_ = false
is_final verifying = false
is_final status = true

-- An invoice before and after: its terms stay, its status moves on, and a final one stays as it is.
pub record Moves (a b : Invoice) : Type 0 where
  pub id : b.id ≡ a.id
  public_id : b.public_id ≡ a.public_id
  pub merchant : b.merchant_user_id ≡ a.merchant_user_id
  pub wallet : b.merchant_wallet_address ≡ a.merchant_wallet_address
  pub token : b.token_address ≡ a.token_address
  pub amount : b.amount_units ≡ a.amount_units
  pub onward : reaches a.status b.status ≡ true
  pub final : is_final a.status ≡ true → b ≡ a

-- A payment before and after: it stays that of its invoice and its transaction, and a verified one
-- stays as it is.
pub record Settles (a b : Payment) : Type 0 where
  pub invoice : b.invoice_id ≡ a.invoice_id
  pub hash : b.transaction_hash ≡ a.transaction_hash
  pub final : is_verified a.status ≡ true → b ≡ a

reaches_refl : (a : InvoiceStatus) → reaches a a ≡ true
reaches_refl open_ = refl
reaches_refl verifying = refl
reaches_refl paid = refl
reaches_refl expired = refl
reaches_refl cancelled = refl

reaches_trans :
    (a b c : InvoiceStatus) → reaches a b ≡ true → reaches b c ≡ true → reaches a c ≡ true
reaches_trans open_ b c h k = refl
reaches_trans verifying verifying c h k = k
reaches_trans verifying paid c h k = ground arith
reaches_trans verifying open_ c h k = cc
reaches_trans verifying expired c h k = cc
reaches_trans verifying cancelled c h k = cc
reaches_trans paid b c h k = ground arith
reaches_trans expired b c h k = ground arith
reaches_trans cancelled b c h k = ground arith

pub Moves-refl : (a : Invoice) → Moves a a
Moves-refl a = record {
  id = refl;
  public_id = refl;
  merchant = refl;
  wallet = refl;
  token = refl;
  amount = refl;
  onward = reaches_refl a.status;
  final = λ h. refl;
}

Moves-trans : (a b c : Invoice) → Moves a b → Moves b c → Moves a c
Moves-trans a b c m n = record {
  id = n.id ∙ m.id;
  public_id = n.public_id ∙ m.public_id;
  merchant = n.merchant ∙ m.merchant;
  wallet = n.wallet ∙ m.wallet;
  token = n.token ∙ m.token;
  amount = n.amount ∙ m.amount;
  onward = reaches_trans a.status b.status c.status m.onward n.onward;
  final = λ h. n.final (ap (λ i. is_final i.status) (m.final h) ∙ h) ∙ m.final h;
}

pub Settles-refl : (a : Payment) → Settles a a
Settles-refl a = record { invoice = refl; hash = refl; final = λ h. refl }

Settles-trans : (a b c : Payment) → Settles a b → Settles b c → Settles a c
Settles-trans a b c m n = record {
  invoice = n.invoice ∙ m.invoice;
  hash = n.hash ∙ m.hash;
  final = λ h. n.final (ap (λ p. is_verified p.status) (m.final h) ∙ h) ∙ m.final h;
}

-- A table whose rows moved, with rows added at its end.
pub data Extends {A : Type 0} (R : A → A → Type 0) : List A → List A → Type 0 where
  added : {ys : List A} → Extends R [] ys
  kept : {x y : A} {xs ys : List A} → R x y → Extends R xs ys → Extends R (x ∷ xs) (y ∷ ys)

module _ {A : Type 0} (R : A → A → Type 0) where
  pub Extends-update_where :
      ((a : A) → R a a)
      → (p : A → Bool) (f : A → A) → ((a : A) → p a ≡ true → R a (f a))
      → (xs : List A) → Extends R xs (update_where p f xs)
  unfolding update_where
  Extends-update_where same_ p f h [] = added
  Extends-update_where same_ p f h (x ∷ xs) = elim (Bool-cases (p x)) [
    | inl here ↦ rw here (kept (h x here) (Extends-update_where same_ p f h xs))
    | inr there ↦ rw there (kept (same_ x) (Extends-update_where same_ p f h xs))
  ]

  pub Extends-append : ((a : A) → R a a) → (xs ys : List A) → Extends R xs (xs ++ ys)
  Extends-append same_ [] ys = added
  Extends-append same_ (x ∷ xs) ys = kept (same_ x) (Extends-append same_ xs ys)

  pub Extends-refl : ((a : A) → R a a) → (xs : List A) → Extends R xs xs
  Extends-refl same_ [] = added
  Extends-refl same_ (x ∷ xs) = kept (same_ x) (Extends-refl same_ xs)

  pub Extends-trans :
      ((a b c : A) → R a b → R b c → R a c)
      → {xs ys zs : List A} → Extends R xs ys
      → Extends R ys zs
      → Extends R xs zs
  Extends-trans join added n = added
  Extends-trans join (kept m ms) (kept n ns) = kept (join _ _ _ m n) (Extends-trans join ms ns)

pub record Evolves (before after : Db) : Type 0 where
  pub invoices : Extends Moves before.invoices after.invoices
  pub payments : Extends Settles before.payments after.payments

pub Evolves-refl : (db : Db) → Evolves db db
Evolves-refl db = record {
  invoices = Extends-refl Moves Moves-refl db.invoices;
  payments = Extends-refl Settles Settles-refl db.payments;
}

pub Evolves-trans : (a b c : Db) → Evolves a b → Evolves b c → Evolves a c
Evolves-trans a b c m n = record {
  invoices = Extends-trans Moves Moves-trans m.invoices n.invoices;
  payments = Extends-trans Settles Settles-trans m.payments n.payments;
}

-- A handler that does no more, whether it returns or throws.
pub record Respects {A : Type 0} (m : Handler Db A) : Type 0 where
  pub evolves : (db : Db) → Evolves db (m db).0
