-- ===== src/Invoice/Payoff.antt =====
-- The settlement of invoice.service.ts with the answer of invoice-payment-verifier.service.ts: what the
-- chain shows of an invoice that was settled.
use wizpay_core.Prelude.{ℕ, ◌≡◌, refl, inl, inr, String, Option, none, some, arith, Option-cases}
use wizpay_core.Prelude.Outcome.{done}
use wizpay_core.Intent.{Runtime}
use wizpay_core.Invoice.{Db, Found, PublicInvoice, Checks}
use wizpay_core.Invoice.Settlement.{Verification, payment_verified, broken, settle}
use wizpay_core.Invoice.History.{IsCompleted, settle_sound}
use wizpay_core.Invoice.Verifier.{Provider, Expected, verify}
use wizpay_core.Invoice.Verifier.Soundness.{IsPaid}
use wizpay_core.Invoice.Verifier.Laws.{verify_iff}

-- What the verifier is configured with, and `BigInt` on a text of units, `none` where it throws.
pub record Setting : Type 0 where
  pub chain_id : ℕ
  pub confirmations_required : ℕ
  pub read_units : String → Option ℕ

module _ (env : Runtime) (setting : Setting) (found : Found) where
  -- The token, the wallet and the amount that `verifyPublicPayment` gives the verifier.
  abbrev pub expected_at : String → String → Expected
  expected_at token wallet = record {
    chain_id = setting.chain_id;
    confirmations_required = setting.confirmations_required;
    amount_units = setting.read_units found.invoice.amount_units;
    merchant = wallet;
    token = token;
  }

  -- `none` where `getAddress` throws.
  unfoldable pub expected_of : Option Expected
  expected_of = elim (env.get_address found.invoice.token_address) [
    | none ↦ none
    | some token ↦ elim (env.get_address found.invoice.merchant_wallet_address) [
      | none ↦ none
      | some wallet ↦ some (expected_at token wallet)
    ]
  ]

  -- The call of the verifier, in the `try` of `verifyPublicPayment`: what `getAddress` throws is no error
  -- of the verifier.
  unfoldable pub ask_verifier : Provider → Verification
  ask_verifier provider = elim expected_of [
    | none ↦ broken
    | some expected ↦ verify env expected provider
  ]

  -- The terms that the verifier was asked for are those of the invoice.
  pub record HasTerms (expected : Expected) : Type 0 where
    pub token : env.get_address found.invoice.token_address ≡ some expected.token
    pub merchant : env.get_address found.invoice.merchant_wallet_address ≡ some expected.merchant
    pub amount : expected.amount_units ≡ setting.read_units found.invoice.amount_units
    pub chain : expected.chain_id ≡ setting.chain_id
    pub confirmations : expected.confirmations_required ≡ setting.confirmations_required

  -- A payer that the verifier names has paid on the chain, on the terms of the invoice.
  ask_verifier_sound :
      (provider : Provider) (payer : String)
      → ask_verifier provider ≡ payment_verified payer
      → (expected : Expected) × HasTerms expected × IsPaid env expected provider payer
  unfolding ask_verifier expected_of
  ask_verifier_sound provider payer h =
      elim (Option-cases (env.get_address found.invoice.token_address)) [
        | inl bad ↦ ground arith
        | inr (token, is_token) ↦
            elim (Option-cases (env.get_address found.invoice.merchant_wallet_address)) [
              | inl bad ↦ ground arith
              | inr (wallet, is_wallet) ↦ (
                expected_at token wallet,
                record {
                  token = is_token;
                  merchant = is_wallet;
                  amount = refl;
                  chain = refl;
                  confirmations = refl;
                },
                (verify_iff env (expected_at token wallet) provider payer).0 (ground arith),
              )
            ]
      ]

-- A payment that was settled is on the chain and proves its intent. Where the settlement returns on what
-- the verifier answers for the invoice, one payer completed the intent with the terms of the invoice, and
-- the chain shows exactly one confirmed transfer of that payer, of the invoice's amount and token, to
-- its merchant's wallet, both addresses as `getAddress` gives them.
pub settle_on_chain :
    (env : Runtime) (checks : Checks) (setting : Setting) (provider : Provider) (public_id : String)
    (found : Found) (intent_id hash : String) (now : ℕ) (db after : Db) (shown : PublicInvoice)
    → settle env checks public_id found intent_id hash
        (ask_verifier env setting found provider)
        now
        db
      ≡ (after, done shown)
    → (completion : IsCompleted env found intent_id hash
        (ask_verifier env setting found provider)
        now
        db)
      × (expected : Expected) × HasTerms env setting found expected
      × IsPaid env expected provider completion.payer
settle_on_chain env checks setting provider public_id found intent_id hash now db after shown h =
    let completion =
      settle_sound env checks public_id found intent_id hash
        (ask_verifier env setting found provider) now db after shown h in
    let (expected, has_terms, is_paid) =
      ask_verifier_sound env setting found provider completion.payer completion.is_verified in
    (completion, expected, has_terms, is_paid)
