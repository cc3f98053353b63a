-- ===== src/Bridge/Evidence.antt =====
-- bridge/bridge-lifecycle.service.ts: when a decoded CCTP message is that of an intent, and when the
-- logs of a receipt show its mint.
use wizpay_core.Prelude.{
  ℕ, String, Bool, true, false, ◌&&◌, ◌||◌, not, if◌then◌else◌, ltb, leb, ◌==◌, List, [], ◌∷◌,
  Option, none, some,
}
use wizpay_core.Prelude.Text.{same, truthy, or_empty}
use wizpay_core.Bridge.{Payload, Runtime}
use wizpay_core.Bridge.Message.{Decoded}

-- The arguments of the event `MessageReceived`.
pub record MintEvent : Type 0 where
  pub caller : String
  pub source_domain : ℕ
  pub nonce : String
  pub sender : String
  pub finality_threshold_executed : ℕ
  pub message_body : String

-- DestinationReceiptLog. `decoded` is the answer of `decodeEventLog`: `none` where it throws, or
-- finds another event.
pub record ReceiptLog : Type 0 where
  pub address : String
  pub topics : List String
  pub decoded : Option MintEvent

pub record ExpectedMint : Type 0 where
  pub message_transmitter : String
  pub source_domain : ℕ
  pub nonce : String
  pub sender : String
  pub finality_threshold_executed : ℕ
  pub message_body : String

abbrev is_empty : {A : Type 0} → List A → Bool
is_empty [] = true
is_empty (x ∷ xs) = false

abbrev pub zero_nonce : String
zero_nonce = "0x0000000000000000000000000000000000000000000000000000000000000000"

module _ (env : Runtime) where
  open env use {is_address, get_address, is_address_equal, zero_address, lower}

  unfoldable pub matches_cctp_v2_message_received : MintEvent → String → ExpectedMint → Bool
  matches_cctp_v2_message_received args caller expected =
      is_address_equal args.caller caller
      && args.source_domain == expected.source_domain
      && same (lower args.nonce) (lower expected.nonce)
      && same (lower args.sender) (lower expected.sender)
      && args.finality_threshold_executed == expected.finality_threshold_executed
      && same (lower args.message_body) (lower expected.message_body)

  -- The body of the loop: whether it returns `true` at this log.
  unfoldable pub is_expected_mint : ExpectedMint → ReceiptLog → Bool
  unfolding matches_cctp_v2_message_received
  is_expected_mint expected log =
      if not (is_address log.address)
        || not (is_address_equal (get_address log.address) expected.message_transmitter)
        || is_empty log.topics
      then false
      else (elim log.decoded [
        | none ↦ false
        | some args ↦
            if not (is_address args.caller) || is_address_equal args.caller zero_address
            then false
            else matches_cctp_v2_message_received args args.caller expected
      ])

  unfoldable pub destination_mint_receipt_matches : List ReceiptLog → ExpectedMint → Bool
  unfolding is_expected_mint
  destination_mint_receipt_matches [] expected = false
  destination_mint_receipt_matches (log ∷ logs) expected =
      is_expected_mint expected log || destination_mint_receipt_matches logs expected

  unfoldable pub matches_bridge_attestation : Payload → Decoded → Option String → Bool
  matches_bridge_attestation payload decoded expected_nonce =
      decoded.version == 1
      && decoded.burn_version == 1
      && decoded.source_domain == payload.source_domain
      && decoded.destination_domain == payload.destination_domain
      && (not (truthy expected_nonce)
          || same (lower decoded.nonce) (lower (or_empty expected_nonce)))
      && decoded.finality_threshold_executed == payload.min_finality_threshold
      && is_address_equal decoded.sender payload.source_token_messenger_v2
      && is_address_equal decoded.recipient payload.destination_token_messenger_v2
      && is_address_equal decoded.destination_caller payload.destination_caller
      && decoded.min_finality_threshold == payload.min_finality_threshold
      && is_address_equal decoded.burn_token payload.source_usdc_address
      && is_address_equal decoded.mint_recipient payload.recipient_address
      && is_address_equal decoded.message_sender payload.wallet_address
      && decoded.amount == payload.amount
      && decoded.max_fee == payload.max_fee
      && leb decoded.fee_executed decoded.max_fee
      && ltb decoded.fee_executed decoded.amount

  unfoldable pub matches_bridge_source_message : Payload → Decoded → Bool
  matches_bridge_source_message payload decoded =
      decoded.version == 1
      && decoded.source_domain == payload.source_domain
      && decoded.destination_domain == payload.destination_domain
      && same decoded.nonce zero_nonce
      && decoded.finality_threshold_executed == 0
      && decoded.burn_version == 1
      && decoded.min_finality_threshold == payload.min_finality_threshold
      && is_address_equal decoded.sender payload.source_token_messenger_v2
      && is_address_equal decoded.recipient payload.destination_token_messenger_v2
      && is_address_equal decoded.destination_caller payload.destination_caller
      && is_address_equal decoded.burn_token payload.source_usdc_address
      && is_address_equal decoded.mint_recipient payload.recipient_address
      && is_address_equal decoded.message_sender payload.wallet_address
      && decoded.amount == payload.amount
      && decoded.max_fee == payload.max_fee
      && decoded.fee_executed == 0
