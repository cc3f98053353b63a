-- ===== src/Intent.antt =====
-- apps/backend/src/execution-intent/execution-intent.service.ts: the durable record of one payment
-- that a wallet is asked to sign, with its statuses and the moves between them.
-- The columns `route` and `provider`, which the code stores at creation and never tests, are left
-- out. Times are milliseconds.
pub mod Service
pub mod Binding
pub mod Submission
pub mod Row
pub mod Verification
pub mod Lease
pub mod Evidence
pub mod Outcomes
pub mod Interleaving
pub mod Refinement
mod Tests
use wizpay_core.Prelude.{
  ℕ, ◌≡◌, Bool, true, false, ◌||◌, List, [], ◌∷◌, Option, String, arith, ◌==◌,
}

pub data IntentStatus : Type 0 where
  created awaiting_wallet_signature authorization_pending submission_pending submitted :
      IntentStatus
  verifying failed_retryable completed failed_final expired cancelled : IntentStatus

abbrev pub ordinal : IntentStatus → ℕ
ordinal created = 0
ordinal awaiting_wallet_signature = 1
ordinal authorization_pending = 2
ordinal submission_pending = 3
ordinal submitted = 4
ordinal verifying = 5
ordinal failed_retryable = 6
ordinal completed = 7
ordinal failed_final = 8
ordinal expired = 9
ordinal cancelled = 10

abbrev pub same_status : IntentStatus → IntentStatus → Bool
same_status a b = ordinal a == ordinal b

pub eq_of_same_status : (a b : IntentStatus) → same_status a b ≡ true → a ≡ b
eq_of_same_status a b h = ground arith

abbrev pub includes : List IntentStatus → IntentStatus → Bool
includes [] s = false
includes (x ∷ xs) s = same_status x s || includes xs s

-- EXECUTION_INTENT_TRANSITIONS
abbrev pub transitions : IntentStatus → List IntentStatus
transitions created =
    awaiting_wallet_signature ∷ authorization_pending ∷ submission_pending ∷ failed_final ∷ expired
    ∷ cancelled ∷ []
transitions awaiting_wallet_signature = submitted ∷ failed_retryable ∷ failed_final ∷ cancelled ∷ []
transitions authorization_pending =
    submission_pending ∷ submitted ∷ failed_retryable ∷ failed_final ∷ expired ∷ []
transitions submission_pending = submitted ∷ failed_retryable ∷ failed_final ∷ expired ∷ []
transitions submitted = verifying ∷ failed_retryable ∷ failed_final ∷ []
transitions verifying = completed ∷ failed_retryable ∷ failed_final ∷ []
transitions failed_retryable =
    awaiting_wallet_signature ∷ authorization_pending ∷ submission_pending ∷ submitted ∷ verifying
    ∷ failed_final ∷ expired ∷ []
transitions completed = []
transitions failed_final = []
transitions expired = []
transitions cancelled = []

-- `isTerminal`
abbrev pub is_terminal : IntentStatus → Bool
is_terminal s = includes (completed ∷ failed_final ∷ expired ∷ cancelled ∷ []) s

pub record Intent : Type 0 where
  pub id : String
  pub network : String
  pub status : IntentStatus
  pub operation : String
  pub idempotency_key : String
  pub source_wallet : String
  pub recipient : Option String
  pub batch_digest : Option String
  pub token_in : String
  pub token_out : String
  pub amount_units : String
  pub external_reference : String
  pub task_id : Option String
  pub owner_id : Option String
  pub wallet_id : Option String
  pub contract_address : Option String
  pub calldata_hash : Option String
  pub transaction_hash : Option String
  pub circle_challenge_id : Option String
  pub circle_transaction_id : Option String
  pub failure_code : Option String
  pub lease_owner : Option String
  pub lease_expires_at : Option ℕ
  pub attempt_count : ℕ
  pub completed_at : Option ℕ

-- The table of intents. `id` is its primary key, and `transactionHash` is unique.
abbrev pub Table : Type 0
Table = List Intent

-- What the service is given: the network of the runtime (`PaymentRoutingService`), and the functions
-- of the JavaScript runtime and of the library viem that it calls.
pub record Runtime : Type 0 where
  pub network : String
  -- `toLowerCase`
  pub lower : String → String
  -- `getAddress`, which throws (`none`) on what is no address, and `isAddressEqual`.
  pub get_address : String → Option String
  pub is_address_equal : String → String → Bool
