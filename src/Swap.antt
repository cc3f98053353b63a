-- ===== src/Swap.antt =====
-- apps/backend/src/user-swap/mainnet-uniswap-v4-protocol.ts: the USDC/EURC swap of Arc Mainnet, its
-- quote and its receipt. Amounts (`bigint`, which the code keeps positive) are numbers, and so are
-- the chain id, the block number and the basis points.
pub mod Quote
pub mod Receipt
mod Tests
use wizpay_core.Prelude.{ℕ, String, Bool, List}
pub use wizpay_core.Prelude.Throwing.{◌>>=◌}
use wizpay_core.Prelude.Outcome.{Outcome, done, threw, Error, protocol}

-- What the code calls of the library viem and of the JavaScript runtime.
pub record Viem : Type 0 where
  -- `isAddress`, `getAddress` on what is an address, `isAddressEqual`.
  pub is_address : String → Bool
  pub get_address : String → String
  pub is_address_equal : String → String → Bool
  pub zero_address : String
  -- `toLowerCase`, `BigInt`, `toString`, and the address in the last 40 characters of a topic.
  pub lower : String → String
  pub big_int : String → ℕ
  pub to_text : ℕ → String
  pub topic_address : String → String

abbrev pub usdc : String
usdc = "0x3600000000000000000000000000000000000000"

abbrev pub eurc : String
eurc = "0xbEf5f6d51CB62b58e6A8f77868681825C6fe21c1"

abbrev pub pool_id : String
pool_id = "0xeb0fd02fb8044d5514fb6e165ee134fd547eff0378bb33b76f4b81d8b03bd1ae"

abbrev pub quoter : String
quoter = "0x8dc178efb8111bb0973dd9d722ebeff267c98f94"

abbrev pub swap_executor : String
swap_executor = "0x7A051F17B237750EF9D4E63fb75381B9F8755774"

abbrev pub native_emitter : String
native_emitter = "0xfffffffffffffffffffffffffffffffffffffffe"

abbrev pub native_scale : ℕ
native_scale = 1000000000000

-- The codes of `MainnetUniswapV4ProtocolError`.
abbrev pub unsupported_pair : Error
unsupported_pair = protocol "UNSUPPORTED_PAIR"

abbrev pub invalid_slippage : Error
invalid_slippage = protocol "INVALID_SLIPPAGE"

abbrev pub invalid_quote : Error
invalid_quote = protocol "INVALID_QUOTE"

abbrev pub invalid_receipt : Error
invalid_receipt = protocol "INVALID_RECEIPT"
