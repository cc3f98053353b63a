-- ===== src/Bridge.antt =====
-- apps/backend/src/bridge/bridge-lifecycle.service.ts: the transfers of USDC over Circle's CCTP, from
-- the intent to the mint on the other chain. The types, and what the service is given.
-- Amounts and fees, which the code stores as the decimal text of a `bigint`, are numbers; times are
-- milliseconds. The dates of a row, which are only shown, are left out.
pub mod Registry
pub mod Message
pub mod Evidence
pub mod Store
pub mod Reports
pub mod Attestation
pub mod Destination
pub mod Creation
pub mod Quote
pub mod Rows
pub mod Steps
pub mod Refinement
pub mod Laws
pub mod History
pub mod Proof
pub mod Reopening
mod Tests
use wizpay_core.Prelude.{ℕ, String, Bool, List, Option}

-- BridgeLifecycleStatus
pub data BridgeStatus : Type 0 where
  idle approving_source approval_confirmed source_approved burning_source : BridgeStatus
  source_confirmed source_burn_confirmed waiting_for_attestation attestation_ready : BridgeStatus
  switching_destination_chain awaiting_destination_signature minting_destination : BridgeStatus
  verifying_destination source_rejected source_failed_before_burn : BridgeStatus
  attestation_delayed destination_signature_rejected : BridgeStatus
  destination_transaction_failed destination_verification_failed : BridgeStatus
  configuration_error completed : BridgeStatus

-- BridgeIntentPayload, less `createdAt` and the optional keys that the service never sets.
pub record Payload : Type 0 where
  pub idempotency_key : String
  pub source_code : String
  pub destination_code : String
  pub source_chain_id : ℕ
  pub destination_chain_id : ℕ
  pub source_domain : ℕ
  pub destination_domain : ℕ
  pub source_usdc_address : String
  pub destination_usdc_address : String
  pub source_token_messenger_v2 : String
  pub destination_token_messenger_v2 : String
  pub destination_message_transmitter_v2 : String
  pub wallet_address : String
  pub recipient_address : String
  pub destination_caller : String
  pub amount : ℕ
  pub max_fee : ℕ
  pub min_finality_threshold : ℕ

-- BridgeLifecycleResult, less the two keys that the service never sets. `none` is an absent key, or
-- `null`; `destination_receipt_verified` is false where the key is absent.
pub record LifecycleResult : Type 0 where
  pub approval_transaction_hash : Option String
  pub source_transaction_hash : Option String
  pub destination_transaction_hash : Option String
  pub message_hash : Option String
  pub nonce : Option String
  pub fee_executed : Option ℕ
  pub mint_amount : Option ℕ
  pub attested_message : Option String
  pub attestation : Option String
  pub completed_at : Option ℕ
  pub destination_submitted_at : Option ℕ
  pub destination_receipt_verified : Bool
  pub destination_verified_at : Option ℕ
  pub attestation_status : Option String
  pub attestation_delay_reason : Option String

-- StoredBridgeRow
pub record Row : Type 0 where
  pub id : String
  pub task_id : String
  pub status : BridgeStatus
  pub payload : Payload
  pub result : LifecycleResult
  pub message_hash : Option String
  pub nonce : Option String
  pub destination_transaction_hash : Option String
  pub destination_lease_id : Option String
  pub destination_lease_expires_at : Option ℕ

-- The columns of a task that the service writes.
pub record BridgeTask : Type 0 where
  pub id : String
  pub status : String

pub record Db : Type 0 where
  pub rows : List Row
  pub tasks : List BridgeTask

-- BridgeIntentView
pub record View : Type 0 where
  pub id : String
  pub status : BridgeStatus
  pub payload : Payload
  pub result : LifecycleResult

-- What the service is given: functions of the library viem, `toLowerCase`, and its configuration.
pub record Runtime : Type 0 where
  -- `isAddress`, `getAddress` and `isAddressEqual` on what are addresses, `zeroAddress`.
  pub is_address : String → Bool
  pub get_address : String → String
  pub is_address_equal : String → String → Bool
  pub zero_address : String
  -- `isHex` and `keccak256`
  pub is_hex : String → Bool
  pub keccak256 : String → String
  pub lower : String → String
  -- Whether `getArcCctpResource` finds both contracts of Arc Mainnet.
  pub resources_available : Bool
  -- The network that `arcNetwork` configures, and the readers of the other chains.
  pub arc_network_chain_id : ℕ
  pub arc_rpc_url : String
  pub configured_rpc : ℕ → Option String
