-- ===== src/Invoice/Service.antt =====
-- invoice.service.ts: creating, reading, expiring and cancelling invoices.
use Prim.Native.Char.{code}
use wizpay_core.Prelude.{
  ℕ, ◌+◌, String, Bool, true, false, ◌&&◌, ◌||◌, not, if◌then◌else◌, ltb, leb, ◌==◌, [], ◌∷◌, ◌++◌,
  Option, none, some, find, count, update_where, or_else,
}
use wizpay_core.Prelude.Text.{same}
use wizpay_core.Prelude.Outcome.{
  Handler, Outcome, done, threw, Error, not_found, failure, rejected, conflict, return, throw,
  throw_if, or_throw, lift,
}
use wizpay_core.Prelude.Sequence.{◌>>=◌, ◌>>◌}
use wizpay_core.Chain.{trim, length, all_chars, is_digit, is_hex, is_empty}
use wizpay_core.Intent.{Runtime}
use wizpay_core.Invoice.{
  open_, paid, expired, cancelled, SettlementKind, invoice, same_status, is_verified, is_rejected,
  PaymentStatus, Invoice, Payment, Db, Found, PublicInvoice, Checks,
}

abbrev pub invalid_amount : Error
invalid_amount = rejected "INVOICE_INVALID_AMOUNT"

abbrev pub invalid_title : Error
invalid_title = rejected "INVOICE_INVALID_TITLE"

abbrev pub invalid_expiry : Error
invalid_expiry = rejected "INVOICE_INVALID_EXPIRY"

abbrev pub not_open : Error
not_open = conflict "INVOICE_NOT_OPEN"

abbrev pub invoice_max_amount_units : ℕ
invoice_max_amount_units = 1000000000000000

-- DEFAULT_EXPIRY_MS and MAX_EXPIRY_MS
abbrev pub default_expiry_ms : ℕ
default_expiry_ms = 604800000

abbrev pub max_expiry_ms : ℕ
max_expiry_ms = 31536000000

-- The characters of a UUID by their places.
abbrev is_uuid_char : ℕ → ℕ → Bool
is_uuid_char i c =
    if i == 8 || i == 13 || i == 18 || i == 23
    then c == b'-'
    else if i == 14
    then leb b'1' c && leb c b'5'
    else if i == 19
    then c == b'8' || c == b'9' || c == b'a' || c == b'b' || c == b'A' || c == b'B'
    else is_hex c

abbrev uuid_from : ℕ → String → Bool
uuid_from i String.[] = true
uuid_from i (String.◌∷◌ c s) = is_uuid_char i (code c) && uuid_from (i + 1) s

unfoldable pub is_uuid : String → Bool
unfolding is_hex
is_uuid s = length s == 36 && uuid_from 0 s

-- `[A-Za-z0-9_-]`
abbrev is_public_id_char : ℕ → Bool
is_public_id_char c =
    leb b'A' c && leb c b'Z' || leb b'a' c && leb c b'z' || is_digit c || c == b'_' || c == b'-'

unfoldable pub is_public_id : String → Bool
unfolding is_digit
is_public_id s = length s == 22 && all_chars is_public_id_char s

unfoldable pub assert_uuid : String → Outcome (Unit {0})
assert_uuid id = if is_uuid id then done tt else threw not_found

unfoldable pub assert_public_id : String → Outcome (Unit {0})
assert_public_id public_id = if is_public_id public_id then done tt else threw not_found

-- `expiresAt: { lte: now }`
abbrev pub is_due : Option ℕ → ℕ → Bool
is_due none now = false
is_due (some expires) now = leb expires now

abbrev pub set_expired : Invoice → Invoice
set_expired i = record i { status = expired }

abbrev pub set_cancelled : ℕ → Invoice → Invoice
set_cancelled now i = record i { status = cancelled; cancelled_at = some now }

-- `updateMany`: the number of rows written.
unfoldable pub update_invoices : (Invoice → Bool) → (Invoice → Invoice) → Handler Db ℕ
update_invoices where_ set db =
    (record db { invoices = update_where where_ set db.invoices }, done (count where_ db.invoices))

unfoldable pub expire_open_invoices : (Invoice → Bool) → ℕ → Handler Db ℕ
expire_open_invoices where_ now =
    update_invoices (λ i. where_ i && same_status i.status open_ && is_due i.expires_at now)
      set_expired

abbrev pub is_owned : String → String → Invoice → Bool
is_owned user id i = same i.id id && same i.merchant_user_id user

abbrev pub has_public_id : String → Invoice → Bool
has_public_id public_id i = same i.public_id public_id

abbrev pub pays : String → Payment → Bool
pays invoice_id p = same p.invoice_id invoice_id

-- A read with `include: { payment: true }`.
unfoldable pub find_invoice : (Invoice → Bool) → Handler Db Found
find_invoice where_ db = elim (find where_ db.invoices) [
  | none ↦ (db, threw not_found)
  | some i ↦ (db, done (record { invoice = i; payment = find (pays i.id) db.payments }))
]

abbrev payment_status : Option Payment → Option PaymentStatus
payment_status none = none
payment_status (some p) = some p.status

abbrev verification_code : Option Payment → Option String
verification_code none = none
verification_code (some p) = if is_rejected p.status then p.rejection_code else none

-- `verifiedPayment` of `toPublic`
abbrev pub verified_payment : Found → Option Payment
verified_payment f = elim f.payment [
  | none ↦ none
  | some p ↦ if same_status f.invoice.status paid && is_verified p.status then some p else none
]

-- CreateInvoiceDto. The outer `none` of the expiry is an absent one, the inner a date that is none.
pub record CreateInvoice : Type 0 where
  pub token : String
  pub amount : String
  pub title : String
  pub settlement_kind : Option SettlementKind
  pub expires_at : Option (Option ℕ)

abbrev expiry : Option (Option ℕ) → ℕ → Option ℕ
expiry none now = some (now + default_expiry_ms)
expiry (some date) now = date

abbrev is_valid_expiry : Option ℕ → ℕ → Bool
is_valid_expiry none now = false
is_valid_expiry (some expires) now = ltb now expires && leb expires (now + max_expiry_ms)

abbrev kind_or_invoice : Option SettlementKind → SettlementKind
kind_or_invoice none = invoice
kind_or_invoice (some kind) = kind

abbrev is_valid_amount : Option ℕ → Bool
is_valid_amount none = false
is_valid_amount (some units) = ltb 0 units && leb units invoice_max_amount_units

module _ (env : Runtime) (checks : Checks) where
  unfoldable pub to_public : Found → Handler Db PublicInvoice
  to_public f = do
    address ← or_throw (env.get_address f.invoice.merchant_wallet_address) failure
    return (record {
      public_id = f.invoice.public_id;
      receiving_address = address;
      amount_units = f.invoice.amount_units;
      status = f.invoice.status;
      payment_status = payment_status f.payment;
      verification_code = verification_code f.payment;
      transaction_hash = elim (verified_payment f) [
        | none ↦ none
        | some p ↦ some p.transaction_hash
      ];
      paid_at = elim (verified_payment f) [
        | none ↦ none
        | some p ↦ or_else f.invoice.paid_at p.verified_at
      ];
    })

  unfoldable pub get_owned : String → String → ℕ → Handler Db PublicInvoice
  get_owned user id now = do
    lift (assert_uuid id)
    expire_open_invoices (is_owned user id) now
    found ← find_invoice (is_owned user id)
    to_public found

  -- The throw after an `updateMany` that cancelled no invoice.
  unfoldable pub refuse_cancel : String → String → Handler Db PublicInvoice
  refuse_cancel user id = do find_invoice (is_owned user id); throw not_open

  unfoldable pub cancel : String → String → ℕ → Handler Db PublicInvoice
  cancel user id now = do
    lift (assert_uuid id)
    expire_open_invoices (is_owned user id) now
    n ← update_invoices (λ i. is_owned user id i && same_status i.status open_) (set_cancelled now)
    if n == 1 then get_owned user id now else refuse_cancel user id

  unfoldable pub get_public : String → ℕ → Handler Db PublicInvoice
  get_public public_id now = do
    lift (assert_public_id public_id)
    expire_open_invoices (has_public_id public_id) now
    found ← find_invoice (has_public_id public_id)
    lift (checks.capability found.invoice.settlement_kind)
    to_public found

  abbrev new_invoice :
      String → String → String → String → String → ℕ → Option ℕ → CreateInvoice → Invoice
  new_invoice id public_id user wallet token units expires input = record {
    id = id;
    public_id = public_id;
    merchant_user_id = user;
    merchant_wallet_address = wallet;
    token_address = token;
    amount_units = checks.to_text units;
    title = trim input.title;
    settlement_kind = kind_or_invoice input.settlement_kind;
    status = open_;
    expires_at = expires;
    paid_at = none;
    cancelled_at = none;
  }

  -- The database and the random generator give the identifiers.
  unfoldable pub create :
      String → String → CreateInvoice → String → String → ℕ → Handler Db PublicInvoice
  create user wallet input id public_id now = do
    lift (checks.capability (kind_or_invoice input.settlement_kind))
    token ← lift (checks.canonical_token input.token)
    lift (checks.executable invoice token)
    let parsed = checks.parse_units input.amount
    throw_if (not (is_valid_amount parsed)) invalid_amount
    units ← or_throw parsed invalid_amount
    throw_if (is_empty (trim input.title)) invalid_title
    let expires = expiry input.expires_at now
    throw_if (not (is_valid_expiry expires now)) invalid_expiry
    address ← or_throw (env.get_address wallet) failure
    let made = new_invoice id public_id user address token units expires input
    λ db. (record db { invoices = db.invoices ++ (made ∷ []) }, done tt)
    to_public (record { invoice = made; payment = none })
