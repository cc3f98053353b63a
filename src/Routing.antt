-- ===== src/Routing.antt =====
-- apps/backend/src/routing/payment-routing.service.ts: how a payment between two tokens is made.
use wizpay_core.Prelude.{String, Bool, true, false, ◌&&◌, not, if◌then◌else◌, Option, none, some}
use wizpay_core.Prelude.Text.{same}
use wizpay_core.Prelude.Outcome.{Outcome, done, threw, Error, rejected, unprocessable}
use wizpay_core.Prelude.Throwing.{◌>>=◌, ◌>>◌, refuse_if}
use wizpay_core.Chain.{trim}

-- The configuration, with the tokens as the constructor has parsed them, and `getAddress` (`none` where
-- it throws) and `isAddressEqual` of viem.
pub record Config : Type 0 where
  pub network : String
  pub usdc : String
  pub eurc : Option String
  pub capabilities : String → Bool
  pub get_address : String → Option String
  pub is_address_equal : String → String → Bool

pub data Operation : Type 0 where
  send payroll invoice payment_link : Operation

pub data Kind : Type 0 where
  direct_transfer cross_token_atomic cross_token_disabled : Kind

pub record Decision : Type 0 where
  pub kind : Kind
  pub operation : Operation
  pub token_in : String
  pub token_out : String

abbrev pub invalid_context : Error
invalid_context = rejected "PAYMENT_ROUTING_INVALID_CONTEXT"

abbrev pub invalid_token : Error
invalid_token = rejected "PAYMENT_ROUTING_INVALID_TOKEN"

abbrev pub unsupported_token : Error
unsupported_token = rejected "PAYMENT_ROUTING_UNSUPPORTED_TOKEN"

abbrev pub cross_token_disabled_error : Error
cross_token_disabled_error = unprocessable "CROSS_TOKEN_DISABLED"

abbrev pub zero_address : String
zero_address = "0x0000000000000000000000000000000000000000"

abbrev cross_token_capability : Operation → String
cross_token_capability payroll = "crossTokenPayroll"
cross_token_capability send = "swap"
cross_token_capability operation = "crossTokenInvoice"

abbrev pub is_disabled : Kind → Bool
is_disabled cross_token_disabled = true
is_disabled kind = false

-- `capabilities[name] === true`, of a known name.
abbrev pub is_enabled : Config → String → Bool
is_enabled config name = config.capabilities name

unfoldable pub assert_executable : Decision → Outcome Decision
assert_executable decision =
    if is_disabled decision.kind then threw cross_token_disabled_error else done decision

module _ (config : Config) where
  open config use {network, usdc, eurc, get_address, is_address_equal}

  abbrev non_zero : String → Option String
  non_zero address = if is_address_equal address zero_address then none else some address

  -- `none` where it throws.
  unfoldable pub parse_address : String → Option String
  parse_address value =
      if not (same value (trim value))
      then none
      else (elim (get_address value) [ none ↦ none | some address ↦ non_zero address ])

  abbrev as_eurc : Option String → String → Outcome String
  as_eurc none address = threw unsupported_token
  as_eurc (some token) address =
      if is_address_equal address token then done token else threw unsupported_token

  -- The configured address of the token.
  unfoldable pub identify_token : String → Outcome String
  identify_token value = elim (parse_address value) [
    | none ↦ threw invalid_token
    | some address ↦ if is_address_equal address usdc then done usdc else as_eurc eurc address
  ]

  abbrev cross_kind : Operation → Kind
  cross_kind operation =
      if same network "arc-mainnet" && is_enabled config (cross_token_capability operation)
      then cross_token_atomic
      else cross_token_disabled

  unfoldable pub decide : String → Operation → String → String → Outcome Decision
  decide requested operation token_in token_out = do
    refuse_if (not (same requested network)) invalid_context
    in_ ← identify_token token_in
    out ← identify_token token_out
    done (record {
      kind = if is_address_equal in_ out then direct_transfer else cross_kind operation;
      operation = operation;
      token_in = in_;
      token_out = out;
    })

  -- USDC or EURC.
  unfoldable pub canonical_token : String → Outcome String
  canonical_token symbol =
      if same symbol "USDC"
      then done usdc
      else if same symbol "EURC"
      then (elim eurc [ none ↦ threw unsupported_token | some token ↦ done token ])
      else threw unsupported_token
