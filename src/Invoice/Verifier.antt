-- ===== src/Invoice/Verifier.antt =====
-- apps/backend/src/invoice/invoice-payment-verifier.service.ts: what the chain must show of a payment. What
-- the provider answers is an argument, and so is what `decodeEventLog` makes of each log.
pub mod Soundness
pub mod Laws
use wizpay_core.Prelude.{
  ℕ, ◌+◌, ◌-◌, String, Bool, true, false, ◌&&◌, not, if◌then◌else◌, ltb, leb, ◌==◌, List, [], ◌∷◌,
  Option, none, some, filter,
}
use wizpay_core.Prelude.Text.{same}
use wizpay_core.Intent.{Runtime}
use wizpay_core.Invoice.Settlement.{Verification, payment_verified, unverified}

-- The arguments of a `Transfer` event.
pub record Transfer : Type 0 where
  pub amount : ℕ
  pub payer : String
  pub recipient : String

pub record Log : Type 0 where
  pub address : String
  pub topic : Option String
  pub decoded : Option Transfer

pub record Transaction : Type 0 where
  pub chain_id : ℕ
  pub value : ℕ

pub record Receipt : Type 0 where
  pub is_success : Bool
  pub block_number : ℕ
  pub logs : List Log

-- The names of the errors that the provider throws, as far as the code tells them apart.
pub data ProviderError : Type 0 where
  receipt_not_found transaction_not_found other_error : ProviderError

pub data Answer (A : Type 0) : Type 0 where
  answered : (a : A) → Answer A
  failed : (e : ProviderError) → Answer A

pub record Provider : Type 0 where
  pub chain_id : Answer ℕ
  pub transaction : Answer (Option Transaction × Option Receipt)
  pub block_number : Answer ℕ

-- VerifyInvoiceTransferInput and the configuration. The amount is `none` where `BigInt` throws.
pub record Expected : Type 0 where
  pub chain_id : ℕ
  pub confirmations_required : ℕ
  pub amount_units : Option ℕ
  pub merchant : String
  pub token : String

abbrev pub transfer_topic : String
transfer_topic = "0xddf252ad1be2c89b69c2b068fc378daa952ba7f163c4a11628f55a4df523b3ef"

abbrev pub arc_native_accounting_mirror : String
arc_native_accounting_mirror = "0xfffffffffffffffffffffffffffffffffffffffe"

-- The end of the `try`.
abbrev pub retry_after : ProviderError → Verification
retry_after receipt_not_found = unverified "INVOICE_RECEIPT_PENDING" true
retry_after transaction_not_found = unverified "INVOICE_TRANSACTION_PENDING" true
retry_after other_error = unverified "INVOICE_RPC_UNAVAILABLE" true

abbrev pub reject : String → Verification
reject code = unverified code false

-- `if (xs.length === 0) this.reject(code)`
abbrev pub reject_empty : {A : Type 0} → List A → String → Verification → Verification
reject_empty [] code next = reject code
reject_empty (x ∷ xs) code next = next

abbrev pub missing_code : List Log → String
missing_code [] = "INVOICE_TRANSFER_EVENT_MISSING"
missing_code (log ∷ logs) = "INVOICE_WRONG_TOKEN"

-- `flatMap`: the logs that `decodeEventLog` reads.
unfoldable pub decoded_transfers : List Log → List Transfer
decoded_transfers [] = []
decoded_transfers (log ∷ logs) =
    let rest = decoded_transfers logs in elim log.decoded [ none ↦ rest | some t ↦ t ∷ rest ]

abbrev pub confirmation_count : ℕ → ℕ → ℕ
confirmation_count current block = if leb block current then current - block + 1 else 0

module _ (env : Runtime) (expected : Expected) where
  abbrev pub has_transfer_topic : Option String → Bool
  has_transfer_topic none = false
  has_transfer_topic (some topic) = same (env.lower topic) transfer_topic

  abbrev pub is_canonical : Log → Bool
  is_canonical log =
      not (env.is_address_equal log.address arc_native_accounting_mirror)
      && has_transfer_topic log.topic

  abbrev pub is_token_log : Log → Bool
  is_token_log log = env.is_address_equal log.address expected.token

  abbrev pub is_to_merchant : Transfer → Bool
  is_to_merchant t = env.is_address_equal t.recipient expected.merchant

  abbrev pub is_external : Transfer → Bool
  is_external t = not (env.is_address_equal t.payer expected.merchant)

  unfoldable pub confirm : Answer ℕ → ℕ → Transfer → Verification
  confirm (failed e) block t = retry_after e
  confirm (answered current) block t =
      if ltb (confirmation_count current block) expected.confirmations_required
      then unverified "INVOICE_CONFIRMATIONS_PENDING" true
      else payment_verified t.payer

  -- The test that one transfer is left.
  unfoldable pub match_one : Answer ℕ → ℕ → List Transfer → Verification
  match_one current block [] = reject "INVOICE_SELF_PAYMENT"
  match_one current block (t ∷ []) = confirm current block t
  match_one current block (t ∷ u ∷ ts) = reject "INVOICE_TRANSFER_EVENT_MISSING"

  unfoldable pub verify_amount : Answer ℕ → ℕ → Option ℕ → List Transfer → Verification
  verify_amount current block none transfers = retry_after other_error
  verify_amount current block (some units) transfers =
      let matches = filter (λ t. t.amount == units) transfers in
      reject_empty matches "INVOICE_WRONG_AMOUNT"
        (match_one current block (filter is_external matches))

  unfoldable pub verify_logs : Answer ℕ → ℕ → List Log → Verification
  verify_logs current block logs =
      let canonical = filter is_canonical logs in
      let token_logs = filter is_token_log canonical in
      let transfers = decoded_transfers token_logs in
      let recipients = filter is_to_merchant transfers in
      reject_empty token_logs (missing_code canonical) (
        reject_empty transfers "INVOICE_TRANSFER_EVENT_MISSING" (
          reject_empty recipients "INVOICE_WRONG_RECIPIENT"
            (verify_amount current block expected.amount_units recipients)))

  unfoldable pub verify_receipt : Answer ℕ → Option Transaction × Option Receipt → Verification
  verify_receipt current (none, receipt) = unverified "INVOICE_TRANSACTION_PENDING" true
  verify_receipt current (some transaction, none) = unverified "INVOICE_RECEIPT_PENDING" true
  verify_receipt current (some transaction, some receipt) =
      if not receipt.is_success
      then reject "INVOICE_FAILED_RECEIPT"
      else if not (transaction.chain_id == expected.chain_id)
      then reject "INVOICE_WRONG_CHAIN"
      else if not (transaction.value == 0)
      then reject "INVOICE_NATIVE_VALUE_NOT_ZERO"
      else verify_logs current receipt.block_number receipt.logs

  abbrev pub verify_transaction :
      Answer ℕ → Answer (Option Transaction × Option Receipt) → Verification
  verify_transaction current (failed e) = retry_after e
  verify_transaction current (answered pair) = verify_receipt current pair

  abbrev pub verify_chain : Provider → Answer ℕ → Verification
  verify_chain provider (failed e) = retry_after e
  verify_chain provider (answered id) =
      if not (id == expected.chain_id)
      then reject "INVOICE_WRONG_CHAIN"
      else verify_transaction provider.block_number provider.transaction

  unfoldable pub verify : Provider → Verification
  verify provider = verify_chain provider provider.chain_id
