-- ===== src/Invoice/Verifier/Laws.antt =====
-- When invoice-payment-verifier.service.ts verifies a payment.
use wizpay_core.Prelude.{
  ℕ, ◌≡◌, ◌↔◌, refl, ap, ◌∙◌, String, ◌==◌, List, [], ◌∷◌, some, filter, arith,
}
use wizpay_core.Intent.{Runtime}
use wizpay_core.Invoice.Settlement.{Verification, payment_verified}
use wizpay_core.Invoice.Verifier.{
  Transfer, Log, Answer, answered, Provider, Expected, reject_empty, decoded_transfers,
  is_canonical, is_token_log, is_to_merchant, is_external, confirm, match_one, verify_amount,
  verify_logs, verify_receipt, verify,
}
use wizpay_core.Invoice.Verifier.Soundness.{in_stages, in_stages_lem, IsPaid, verify_sound}

module _ (env : Runtime) (expected : Expected) where
  -- Where a transfer is left at the end, a list on the way was not empty.
  passes :
      {A : Type 0} (xs : List A) (f : List A → List Transfer) (code : String) (next : Verification)
      (t : Transfer)
      → f [] ≡ []
      → f xs ≡ t ∷ []
      → reject_empty xs code next ≡ next
  passes [] f code next t e h = cc
  passes (x ∷ xs) f code next t e h = refl

  verify_logs_one :
      (current : Answer ℕ) (block units : ℕ) (logs : List Log) (t : Transfer)
      → expected.amount_units ≡ some units
      → in_stages env expected units logs ≡ t ∷ []
      → verify_logs env expected current block logs ≡ confirm env expected current block t
  unfolding verify_logs verify_amount match_one filter decoded_transfers
  verify_logs_one current block units logs t amount h =
      let external = filter (is_external env expected) in
      let exact : List Transfer → List Transfer = filter (λ u. u.amount == units) in
      let canonical = filter (is_canonical env expected) logs in
      let token_logs = filter (is_token_log env expected) canonical in
      let transfers = decoded_transfers token_logs in
      let recipients = filter (is_to_merchant env expected) transfers in
      passes token_logs
        (λ ls. external (exact (filter (is_to_merchant env expected) (decoded_transfers ls)))) _ _ t
        refl h
      ∙ passes transfers (λ ts. external (exact (filter (is_to_merchant env expected) ts))) _ _ t
          refl h
      ∙ passes recipients (λ ts. external (exact ts)) _ _ t refl h
      ∙ ap (λ a. verify_amount env expected current block a recipients) amount
      ∙ passes (exact recipients) external _ _ t refl h
      ∙ ap (match_one env expected current block) h

  verify_complete :
      (provider : Provider) (payer : String)
      → IsPaid env expected provider payer
      → verify env expected provider ≡ payment_verified payer
  unfolding verify verify_receipt confirm
  verify_complete provider payer p =
      let logs =
        verify_logs_one (answered p.current) p.receipt.block_number p.units p.receipt.logs
          p.transfer p.amount (in_stages_lem env expected p.units p.receipt.logs ∙ p.one_payment) in
      let on_chain = p.on_chain in
      let found = p.found in
      let block = p.block in
      let is_success = p.is_success in
      let same_chain = p.same_chain in
      let no_value = p.no_value in
      let is_confirmed = p.is_confirmed in let is_payer = p.is_payer in ground arith

  -- A payment is verified exactly on a successful transaction of this chain that carries no value, whose
  -- logs have exactly one payment of the invoice: of its token, to its merchant, of its exact amount, out
  -- of another wallet, which is the payer; and with the confirmations asked for.
  pub verify_iff :
      (provider : Provider) (payer : String)
      → (verify env expected provider ≡ payment_verified payer) ↔ IsPaid env expected provider payer
  verify_iff provider payer =
      (verify_sound env expected provider payer, verify_complete provider payer)
