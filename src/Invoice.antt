-- ===== src/Invoice.antt =====
-- apps/backend/src/invoice/invoice.service.ts: invoices and payment links, and the payments that are
-- submitted for them. The texts that are only shown, the chain and the decimals of the token are left
-- out. Times are milliseconds.
pub mod Service
pub mod Settlement
pub mod Evolution
pub mod History
pub mod Verifier
pub mod Payoff
pub mod Configuration
mod Tests
use wizpay_core.Prelude.{ℕ, String, Bool, true, false, ◌==◌, List, Option}
use wizpay_core.Prelude.Outcome.{Outcome}
use wizpay_core.Intent.{Table}

pub data InvoiceStatus : Type 0 where
  open_ verifying paid expired cancelled : InvoiceStatus

pub data PaymentStatus : Type 0 where
  submitted verifying verified rejected : PaymentStatus

pub data SettlementKind : Type 0 where
  invoice payment_link : SettlementKind

abbrev pub ordinal : InvoiceStatus → ℕ
ordinal open_ = 0
ordinal verifying = 1
ordinal paid = 2
ordinal expired = 3
ordinal cancelled = 4

abbrev pub same_status : InvoiceStatus → InvoiceStatus → Bool
same_status a b = ordinal a == ordinal b

abbrev pub is_verified : PaymentStatus → Bool
is_verified verified = true
is_verified status = false

abbrev pub is_rejected : PaymentStatus → Bool
is_rejected rejected = true
is_rejected status = false

pub record Invoice : Type 0 where
  pub id : String
  pub public_id : String
  pub merchant_user_id : String
  pub merchant_wallet_address : String
  pub token_address : String
  pub amount_units : String
  pub title : String
  pub settlement_kind : SettlementKind
  pub status : InvoiceStatus
  pub expires_at : Option ℕ
  pub paid_at : Option ℕ
  pub cancelled_at : Option ℕ

-- A row of `invoicePayment`. `invoiceId` and `transactionHash` are unique.
pub record Payment : Type 0 where
  pub invoice_id : String
  pub transaction_hash : String
  pub status : PaymentStatus
  pub payer_address : Option String
  pub verified_at : Option ℕ
  pub rejection_code : Option String

pub record Db : Type 0 where
  pub invoices : List Invoice
  pub payments : List Payment
  pub intents : Table

-- An invoice with its payment, as the service reads it.
pub record Found : Type 0 where
  pub invoice : Invoice
  pub payment : Option Payment

-- What `toPublic` shows that depends on the state.
pub record PublicInvoice : Type 0 where
  pub public_id : String
  pub receiving_address : String
  pub amount_units : String
  pub status : InvoiceStatus
  pub payment_status : Option PaymentStatus
  pub verification_code : Option String
  pub transaction_hash : Option String
  pub paid_at : Option ℕ

-- What the service is given besides the runtime: the checks of the capabilities and of the routing,
-- and `parseUnits` and `toString` of amounts.
pub record Checks : Type 0 where
  pub capability : SettlementKind → Outcome (Unit {0})
  pub executable : SettlementKind → String → Outcome (Unit {0})
  pub canonical_token : String → Outcome String
  -- `none` where `parseUnits` throws, or gives a negative amount.
  pub parse_units : String → Option ℕ
  pub to_text : ℕ → String
