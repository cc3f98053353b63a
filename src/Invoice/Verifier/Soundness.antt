-- ===== src/Invoice/Verifier/Soundness.antt =====
-- What a verified payment of invoice-payment-verifier.service.ts shows of the chain.
use wizpay_core.Prelude.{
  ℕ, ◌≡◌, refl, ap, ◌∙◌, inl, inr, String, true, false, ◌&&◌, if◌then◌else◌, ltb, ◌==◌, List, [],
  ◌∷◌, Option, none, some, filter, arith, Bool-cases, subst,
}
use wizpay_core.Intent.{Runtime}
use wizpay_core.Invoice.Settlement.{Verification, payment_verified}
use wizpay_core.Invoice.Verifier.{
  Transfer, Log, Transaction, Receipt, receipt_not_found, transaction_not_found, other_error,
  Answer, answered, failed, Provider, Expected, reject_empty, missing_code, decoded_transfers,
  confirmation_count, is_canonical, is_token_log, is_to_merchant, is_external, confirm, match_one,
  verify_amount, verify_logs, verify_receipt, verify_transaction, verify_chain, verify,
}

module _ (env : Runtime) (expected : Expected) where
  -- A log that pays the merchant this amount of the token, out of another wallet.
  abbrev pub pays_units : ℕ → Log → Option Transfer
  pays_units units log = elim log.decoded [
    | none ↦ none
    | some t ↦
        if (is_canonical env expected log && is_token_log env expected log)
          && (is_to_merchant env expected t && (t.amount == units && is_external env expected t))
        then some t
        else none
  ]

  abbrev add_some : Option Transfer → List Transfer → List Transfer
  add_some none ts = ts
  add_some (some t) ts = t ∷ ts

  abbrev pub payments_in : ℕ → List Log → List Transfer
  payments_in units [] = []
  payments_in units (log ∷ logs) = add_some (pays_units units log) (payments_in units logs)

  abbrev pub in_stages : ℕ → List Log → List Transfer
  in_stages units logs = filter (is_external env expected) (
      filter (λ t. t.amount == units)
        (filter (is_to_merchant env expected) (
          decoded_transfers
            (filter (is_token_log env expected) (filter (is_canonical env expected) logs)))))

  pub in_stages_lem : (units : ℕ) (logs : List Log) → in_stages units logs ≡ payments_in units logs
  unfolding filter decoded_transfers
  in_stages_lem units [] = refl
  in_stages_lem units (log ∷ logs) = ground (arith, in_stages_lem units logs)

  -- What a verified payment needs: the transaction and the block in which it succeeded, with exactly one
  -- payment of the invoice among its logs, and the confirmations.
  pub record IsPaid (provider : Provider) (payer : String) : Type 0 where
    pub transaction : Transaction
    pub receipt : Receipt
    pub units : ℕ
    pub transfer : Transfer
    pub current : ℕ
    pub on_chain : provider.chain_id ≡ answered expected.chain_id
    pub found : provider.transaction ≡ answered (some transaction, some receipt)
    pub block : provider.block_number ≡ answered current
    pub is_success : receipt.is_success ≡ true
    pub same_chain : transaction.chain_id ≡ expected.chain_id
    pub no_value : transaction.value ≡ 0
    pub amount : expected.amount_units ≡ some units
    pub one_payment : payments_in units receipt.logs ≡ transfer ∷ []
    pub is_payer : transfer.payer ≡ payer
    pub is_confirmed :
        ltb (confirmation_count current receipt.block_number) expected.confirmations_required
        ≡ false

  -- One transfer is left, with its confirmations.
  record Confirms (current : Answer ℕ) (block : ℕ) (transfers : List Transfer) (payer : String)
      : Type 0 where
    transfer : Transfer
    height : ℕ
    one : transfers ≡ transfer ∷ []
    at : current ≡ answered height
    is_payer : transfer.payer ≡ payer
    is_confirmed : ltb (confirmation_count height block) expected.confirmations_required ≡ false

  confirm-Confirms :
      (current : Answer ℕ) (block : ℕ) (t : Transfer) (payer : String)
      → confirm env expected current block t ≡ payment_verified payer
      → Confirms current block (t ∷ []) payer
  unfolding confirm
  confirm-Confirms (failed receipt_not_found) block t payer h = cc
  confirm-Confirms (failed transaction_not_found) block t payer h = cc
  confirm-Confirms (failed other_error) block t payer h = cc
  confirm-Confirms (answered height) block t payer h = record {
    transfer = t;
    height = height;
    one = refl;
    at = refl;
    is_payer = ground arith;
    is_confirmed = ground arith;
  }

  match_one-Confirms :
      (current : Answer ℕ) (block : ℕ) (ts : List Transfer) (payer : String)
      → match_one env expected current block ts ≡ payment_verified payer
      → Confirms current block ts payer
  unfolding match_one
  match_one-Confirms current block [] payer h = cc
  match_one-Confirms current block (t ∷ []) payer h = confirm-Confirms current block t payer h
  match_one-Confirms current block (t ∷ u ∷ ts) payer h = cc

  not_rejected :
      {A : Type 0} (xs : List A) (code payer : String) (next : Verification)
      → reject_empty xs code next ≡ payment_verified payer
      → next ≡ payment_verified payer
  not_rejected [] code payer next h = cc
  not_rejected (x ∷ xs) code payer next h = h

  record LogsPay (current : Answer ℕ) (block : ℕ) (logs : List Log) (payer : String) : Type 0 where
    units : ℕ
    amount : expected.amount_units ≡ some units
    confirms : Confirms current block (payments_in units logs) payer

  verify_amount-Confirms :
      (current : Answer ℕ) (block : ℕ) (amount : Option ℕ) (ts : List Transfer) (payer : String)
      → verify_amount env expected current block amount ts ≡ payment_verified payer
      → (units : ℕ) × (amount ≡ some units)
        × Confirms current block
            (filter (is_external env expected) (filter (λ t. t.amount == units) ts))
            payer
  unfolding verify_amount
  verify_amount-Confirms current block none ts payer h = cc
  verify_amount-Confirms current block (some units) ts payer h =
      (units, refl, match_one-Confirms current block _ payer (not_rejected _ _ payer _ h))

  verify_logs-LogsPay :
      (current : Answer ℕ) (block : ℕ) (logs : List Log) (payer : String)
      → verify_logs env expected current block logs ≡ payment_verified payer
      → LogsPay current block logs payer
  unfolding verify_logs
  verify_logs-LogsPay current block logs payer h =
      let canonical = filter (is_canonical env expected) logs in
      let token_logs = filter (is_token_log env expected) canonical in
      let transfers = decoded_transfers token_logs in
      let recipients = filter (is_to_merchant env expected) transfers in
      let last = verify_amount env expected current block expected.amount_units recipients in
      let wanted = reject_empty recipients "INVOICE_WRONG_RECIPIENT" last in
      let readable = reject_empty transfers "INVOICE_TRANSFER_EVENT_MISSING" wanted in
      let of_token = not_rejected token_logs (missing_code canonical) payer readable h in
      let decoded = not_rejected transfers "INVOICE_TRANSFER_EVENT_MISSING" payer wanted of_token in
      let passed = not_rejected recipients "INVOICE_WRONG_RECIPIENT" payer last decoded in
      let (units, amount, confirms) =
        verify_amount-Confirms current block expected.amount_units recipients payer passed in
      record {
        units = units;
        amount = amount;
        confirms =
            subst (λ ts. Confirms current block ts payer) (in_stages_lem units logs) confirms;
      }

  verify_transaction-IsPaid :
      (provider : Provider) (payer : String)
      (transaction : Answer (Option Transaction × Option Receipt))
      → provider.chain_id ≡ answered expected.chain_id
      → provider.transaction ≡ transaction
      → verify_transaction env expected provider.block_number transaction ≡ payment_verified payer
      → IsPaid provider payer
  unfolding verify_receipt
  verify_transaction-IsPaid provider payer (failed receipt_not_found) c t h = cc
  verify_transaction-IsPaid provider payer (failed transaction_not_found) c t h = cc
  verify_transaction-IsPaid provider payer (failed other_error) c t h = cc
  verify_transaction-IsPaid provider payer (answered (none, receipt)) c t h = cc
  verify_transaction-IsPaid provider payer (answered (some transaction, none)) c t h = cc
  verify_transaction-IsPaid provider payer (answered (some transaction, some receipt)) c t h =
      let paid =
        verify_logs-LogsPay provider.block_number receipt.block_number receipt.logs payer
          (ground arith) in
      record {
        transaction = transaction;
        receipt = receipt;
        units = paid.units;
        transfer = paid.confirms.transfer;
        current = paid.confirms.height;
        on_chain = c;
        found = t;
        block = paid.confirms.at;
        is_success = ground arith;
        same_chain = ground arith;
        no_value = ground arith;
        amount = paid.amount;
        one_payment = paid.confirms.one;
        is_payer = paid.confirms.is_payer;
        is_confirmed = paid.confirms.is_confirmed;
      }

  verify_chain-IsPaid :
      (provider : Provider) (payer : String) (id : Answer ℕ)
      → provider.chain_id ≡ id
      → verify_chain env expected provider id ≡ payment_verified payer
      → IsPaid provider payer
  verify_chain-IsPaid provider payer (failed receipt_not_found) c h = cc
  verify_chain-IsPaid provider payer (failed transaction_not_found) c h = cc
  verify_chain-IsPaid provider payer (failed other_error) c h = cc
  verify_chain-IsPaid provider payer (answered id) c h =
      elim (Bool-cases (id == expected.chain_id)) [
        | inl same ↦
            let eq : id ≡ expected.chain_id = ground arith in
            verify_transaction-IsPaid provider payer provider.transaction (c ∙ ap answered eq) refl
              (ground arith)
        | inr other ↦ ground arith
      ]

  pub verify_sound :
      (provider : Provider) (payer : String)
      → verify env expected provider ≡ payment_verified payer
      → IsPaid provider payer
  unfolding verify
  verify_sound provider payer h = verify_chain-IsPaid provider payer provider.chain_id refl h
