-- ===== src/Intent/Binding.antt =====
-- execution-intent.service.ts: what is bound to an intent once before its submission: its execution
-- context and the correlation of the wallet's challenge.
use mathlib.Core.Option
use wizpay_core.Prelude.{
  String, Bool, ◌&&◌, ◌||◌, not, Option, none, some, if◌then◌else◌, or_else, ◌==◌, any, is_some,
}
use wizpay_core.Prelude.Text.{same, same?, truthy}
use wizpay_core.Prelude.Outcome.{Handler, done, ◌>>=◌, ◌>>◌, return, throw_if, or_throw, failure}
use wizpay_core.Chain.{trim}
use wizpay_core.Intent.{Intent, Table, Runtime}
use wizpay_core.Intent.Service.{has_id, update_many, get, immutable_conflict}

-- The input of `bindImmutableExecutionContext`, and its normal form.
pub record Context : Type 0 where
  pub owner_id : String
  pub wallet_id : String
  pub contract_address : Option String
  pub calldata_hash : Option String

-- `prior && next && prior !== next`
abbrev pub clashes : Option String → Option String → Bool
clashes prior next = truthy prior && truthy next && not (same? prior next)

abbrev pub context_clashes : Intent → Context → Bool
context_clashes i c =
    clashes i.owner_id (some c.owner_id)
    || clashes i.wallet_id (some c.wallet_id)
    || clashes i.contract_address c.contract_address
    || clashes i.calldata_hash c.calldata_hash

abbrev pub same_context : Intent → Intent → Bool
same_context existing i =
    has_id existing.id i
    && same? i.owner_id existing.owner_id
    && same? i.wallet_id existing.wallet_id
    && same? i.contract_address existing.contract_address
    && same? i.calldata_hash existing.calldata_hash

abbrev pub set_context : Intent → Context → Intent → Intent
set_context existing c i = record i {
  owner_id = or_else existing.owner_id (some c.owner_id);
  wallet_id = or_else existing.wallet_id (some c.wallet_id);
  contract_address = or_else existing.contract_address c.contract_address;
  calldata_hash = or_else existing.calldata_hash c.calldata_hash;
}

abbrev pub is_context : Intent → Context → Bool
is_context i c =
    same? i.owner_id (some c.owner_id)
    && same? i.wallet_id (some c.wallet_id)
    && same? i.contract_address c.contract_address
    && same? i.calldata_hash c.calldata_hash

pub record Correlation : Type 0 where
  pub challenge_id : String
  pub transaction_id : Option String

abbrev pub correlation_clashes : Intent → Correlation → Bool
correlation_clashes i c =
    truthy i.circle_challenge_id && not (same? i.circle_challenge_id (some c.challenge_id))
    || truthy i.circle_transaction_id
      && truthy c.transaction_id
      && not (same? i.circle_transaction_id c.transaction_id)

abbrev pub same_correlation : Intent → Intent → Bool
same_correlation existing i =
    has_id existing.id i
    && same? i.circle_challenge_id existing.circle_challenge_id
    && same? i.circle_transaction_id existing.circle_transaction_id

-- A column that the write fills, with a value that another row has.
abbrev pub takes : Option String → Option String → Option String → Bool
takes old new held = not (is_some old) && is_some new && same? new held

-- `circleChallengeId` and `circleTransactionId` are unique.
unfoldable pub reuses_correlation : Intent → Correlation → Table → Bool
reuses_correlation existing c table =
    any
      (λ i.
        not (has_id existing.id i)
        && (takes existing.circle_challenge_id (some c.challenge_id) i.circle_challenge_id
            || takes existing.circle_transaction_id c.transaction_id i.circle_transaction_id))
      table

abbrev pub set_correlation : Intent → Correlation → Intent → Intent
set_correlation existing c i = record i {
  circle_challenge_id = or_else existing.circle_challenge_id (some c.challenge_id);
  circle_transaction_id = or_else existing.circle_transaction_id c.transaction_id;
  lease_owner = none;
  lease_expires_at = none;
}

abbrev pub is_correlated : Intent → Correlation → Bool
is_correlated i c =
    same? i.circle_challenge_id (some c.challenge_id)
    && (not (truthy c.transaction_id) || same? i.circle_transaction_id c.transaction_id)

module _ (env : Runtime) where
  open env use {lower, get_address, is_address_equal}

  -- `contractAddress ? getAddress(contractAddress).toLowerCase() : null`
  unfoldable pub normal_address : Option String → Handler Table (Option String)
  normal_address none = return none
  normal_address (some a) =
      if same a ""
      then return none
      else (do address ← or_throw (get_address a) failure; return (some (lower address)))

  unfoldable pub bind_immutable_execution_context : String → Context → Handler Table Intent
  bind_immutable_execution_context id input = do
    existing ← get env id
    address ← normal_address input.contract_address
    let c : Context = record {
      owner_id = trim input.owner_id;
      wallet_id = trim input.wallet_id;
      contract_address = address;
      calldata_hash = Option.map lower input.calldata_hash;
    }
    throw_if (context_clashes existing c) immutable_conflict
    n ← update_many (same_context existing) (set_context existing c)
    throw_if (not (n == 1)) immutable_conflict
    bound ← get env id
    throw_if (not (is_context bound c)) immutable_conflict
    return bound

  unfoldable pub bind_circle_correlation : String → Correlation → Handler Table Intent
  bind_circle_correlation id c = do
    existing ← get env id
    throw_if (correlation_clashes existing c) immutable_conflict
    taken ← λ t. (t, done (reuses_correlation existing c t))
    throw_if taken immutable_conflict
    n ← update_many (same_correlation existing) (set_correlation existing c)
    throw_if (not (n == 1)) immutable_conflict
    bound ← get env id
    throw_if (not (is_correlated bound c)) immutable_conflict
    return bound
