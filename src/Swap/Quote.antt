-- ===== src/Swap/Quote.antt =====
-- The checks of a quote and the amounts that are computed from it.
pub mod Laws
use Prim.Native.Char.{Char, code}
use Prim.Native.String
use wizpay_core.Prelude.{
  ℕ, ◌+◌, ◌-◌, ◌*◌, ◌/◌, ◌^◌, String, Bool, true, false, ◌&&◌, ◌||◌, not, if◌then◌else◌, ltb, leb,
  ◌==◌, List, [], ◌∷◌,
}
use wizpay_core.Prelude.Text.{same}
use wizpay_core.Prelude.Outcome.{Outcome, done, threw}
use wizpay_core.Chain.{is_digit, is_0x_hex, all_chars}
use wizpay_core.Swap.{
  Viem, usdc, eurc, pool_id, quoter, swap_executor, native_scale, unsupported_pair,
  invalid_slippage, invalid_quote, ◌>>=◌,
}

-- `NormalizedMainnetUniswapV4BoundaryRequest`, without the wallet that asks.
pub record Request : Type 0 where
  pub token_in : String
  pub token_out : String
  pub amount_in : ℕ
  pub slippage_bps : ℕ
  pub recipient : String
  pub deadline : ℕ

pub record Observation : Type 0 where
  pub chain_id : ℕ
  pub quoter_address : String
  pub pool_id : String
  pub token_in : String
  pub token_out : String
  pub amount_in : String
  pub block_number : ℕ
  pub amount_out : String
  pub gas_estimate : String

-- `MainnetUniswapV4ValidatedQuote`, without the pool id, which is constant.
pub record ValidatedQuote : Type 0 where
  pub zero_for_one : Bool
  pub token_in : String
  pub token_out : String
  pub amount_in : ℕ
  pub amount_out : ℕ
  pub gas_estimate : ℕ
  pub min_amount_out : ℕ
  pub min_hop_price_x36 : ℕ
  pub slippage_bps : ℕ

-- `10_000n - BigInt(slippageBps)`, for at most 500 basis points
abbrev pub kept_bps : ℕ → ℕ
kept_bps slippage_bps = 10000 - slippage_bps

unfoldable pub apply_slippage : ℕ → ℕ → Outcome ℕ
apply_slippage amount_out slippage_bps =
    if ltb slippage_bps 1 || ltb 500 slippage_bps
    then threw invalid_slippage
    else (let min_amount_out = (amount_out * kept_bps slippage_bps) / 10000 in
        if min_amount_out == 0 then threw invalid_quote else done min_amount_out)

abbrev pub x36 : ℕ
x36 = 1000000000000000000000000000000000000

unfoldable pub calculate_min_hop_price_x36 : ℕ → ℕ → ℕ → Outcome ℕ
calculate_min_hop_price_x36 amount_in amount_out slippage_bps =
    if amount_in == 0
    then threw invalid_quote
    else (apply_slippage amount_out slippage_bps >>= λ _.
        let price = (amount_out * kept_bps slippage_bps * x36) / (amount_in * 10000) in
        if price == 0 then threw invalid_quote else done price)

-- `/^[1-9]\d*$/`
unfoldable pub is_canonical_uint : String → Bool
is_canonical_uint String.[] = false
is_canonical_uint (String.◌∷◌ c s) = leb b'1' (code c) && leb (code c) b'9' && all_chars is_digit s

-- `Number.MAX_SAFE_INTEGER`
abbrev pub max_safe_integer : ℕ
max_safe_integer = 9007199254740991

module _ (viem : Viem) where
  open viem use {is_address, is_address_equal, lower, big_int, to_text}

  unfoldable pub zero_for_one_from_tokens : String → String → Outcome Bool
  zero_for_one_from_tokens token_in token_out =
      if is_address_equal token_in usdc && is_address_equal token_out eurc
      then done true
      else if is_address_equal token_in eurc && is_address_equal token_out usdc
      then done false
      else threw unsupported_pair

  unfoldable pub require_canonical_uint : String → Outcome ℕ
  require_canonical_uint value =
      if is_canonical_uint value then done (big_int value) else threw invalid_quote

  -- The condition under which `validateQuoteObservation` goes on.
  abbrev pub observation_matches : Request → Observation → Bool
  observation_matches request o =
      o.chain_id == 5042
      && is_address o.quoter_address
      && is_address_equal o.quoter_address quoter
      && is_0x_hex 64 o.pool_id
      && same (lower o.pool_id) pool_id
      && is_address o.token_in
      && is_address o.token_out
      && is_address_equal o.token_in request.token_in
      && is_address_equal o.token_out request.token_out
      && same o.amount_in (to_text request.amount_in)
      && leb o.block_number max_safe_integer
      && ltb 0 o.block_number

  unfoldable pub validate_quote_observation : Request → Observation → Outcome ValidatedQuote
  validate_quote_observation request o =
      if not (observation_matches request o) then threw invalid_quote else (do
        amount_out ← require_canonical_uint o.amount_out
        gas_estimate ← require_canonical_uint o.gas_estimate
        min_amount_out ← apply_slippage amount_out request.slippage_bps
        price ← calculate_min_hop_price_x36 request.amount_in amount_out request.slippage_bps
        zero_for_one ← zero_for_one_from_tokens request.token_in request.token_out
        done (record {
          zero_for_one = zero_for_one;
          token_in = request.token_in;
          token_out = request.token_out;
          amount_in = request.amount_in;
          amount_out = amount_out;
          gas_estimate = gas_estimate;
          min_amount_out = min_amount_out;
          min_hop_price_x36 = price;
          slippage_bps = request.slippage_bps;
        }))

  -- The native value of the swap's call: USDC is the gas token, with twelve more decimals.
  unfoldable pub transaction_value : ValidatedQuote → ℕ
  transaction_value quote =
      if is_address_equal quote.token_in usdc then quote.amount_in * native_scale else 0
