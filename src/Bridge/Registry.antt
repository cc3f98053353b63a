-- ===== src/Bridge/Registry.antt =====
-- packages/bridge-registry/index.js: the chains that the bridge serves, their transfer modes and the
-- routes. The keys that are only shown are left out, and a code that names a property that every
-- JavaScript object has is not considered.
use wizpay_core.Prelude.{
  ℕ, String, Bool, true, false, ◌&&◌, not, if◌then◌else◌, List, [], ◌∷◌, none, some, find,
}
use wizpay_core.Prelude.Text.{same}
use wizpay_core.Prelude.Outcome.{Outcome, done, threw, Error, protocol}

pub record Chain : Type 0 where
  pub code : String
  pub chain_id : ℕ
  pub domain : ℕ
  pub usdc_address : String
  pub token_messenger_v2 : String
  pub message_transmitter_v2 : String
  pub fast_transfer_source : Bool

abbrev pub cctp_token_messenger_v2 : String
cctp_token_messenger_v2 = "0x28b5a0e9C621a5BadaA536219b3a228C8168cf5d"

abbrev pub cctp_message_transmitter_v2 : String
cctp_message_transmitter_v2 = "0x81D40F21F12A8F0E3252Bccb954D722d4c464B64"

abbrev pub standard_finality_threshold : ℕ
standard_finality_threshold = 2000

abbrev pub fast_finality_threshold : ℕ
fast_finality_threshold = 1000

abbrev pub max_burn_amount_units : ℕ
max_burn_amount_units = 10000000000000

abbrev chain : String → ℕ → ℕ → String → Bool → Chain
chain code chain_id domain usdc_address fast = record {
  code = code;
  chain_id = chain_id;
  domain = domain;
  usdc_address = usdc_address;
  token_messenger_v2 = cctp_token_messenger_v2;
  message_transmitter_v2 = cctp_message_transmitter_v2;
  fast_transfer_source = fast;
}

unfoldable pub bridge_chains : List Chain
bridge_chains =
    chain "ARC-MAINNET" 5042 26 "0x3600000000000000000000000000000000000000" false
    ∷ chain "ETH-MAINNET" 1 0 "0xA0b86991c6218b36c1d19D4a2e9Eb0cE3606eB48" true
    ∷ chain "BASE-MAINNET" 8453 6 "0x833589fCD6eDb6E08f4c7C32D4f71b54bdA02913" true
    ∷ chain "ARB-MAINNET" 42161 3 "0xaf88d065e77c8cC2239327C5EDb3A432268e5831" true
    ∷ chain "OP-MAINNET" 10 2 "0x0b2C639c533813f4Aa9D7837CAf62653d097Ff85" true
    ∷ chain "POLYGON-MAINNET" 137 7 "0x3c499c542cEF5E3811e1192ce70d8cC03d5c3359" false
    ∷ chain "AVAX-MAINNET" 43114 1 "0xB97EF9Ef8734C71904D8002F8b6Bc66Dd9c48a6E" false
    ∷ []

abbrev pub chain_unknown : Error
chain_unknown = protocol "BRIDGE_CHAIN_UNKNOWN"

unfoldable pub get_bridge_chain : String → Outcome Chain
unfolding bridge_chains
get_bridge_chain code = elim (find (λ c. same c.code code) bridge_chains) [
  | none ↦ threw chain_unknown
  | some c ↦ done c
]

-- `getBridgeTransferMode`, whether it is fast.
unfoldable pub is_fast : String → Outcome Bool
is_fast source_code = elim (get_bridge_chain source_code) [
  | threw e ↦ threw e
  | done source ↦ done source.fast_transfer_source
]

unfoldable pub get_bridge_finality_threshold : String → Outcome ℕ
get_bridge_finality_threshold source_code = elim (is_fast source_code) [
  | threw e ↦ threw e
  | done fast ↦ done (if fast then fast_finality_threshold else standard_finality_threshold)
]

abbrev arc_mainnet : String
arc_mainnet = "ARC-MAINNET"

unfoldable pub assert_bridge_route : String → String → Outcome (Chain × Chain)
assert_bridge_route source_code destination_code = elim (get_bridge_chain source_code) [
  | threw e ↦ threw e
  | done source ↦ elim (get_bridge_chain destination_code) [
    | threw e ↦ threw e
    | done destination ↦
        if same source.code destination.code
        then threw (protocol "BRIDGE_ROUTE_SAME_CHAIN")
        else if not (same source.code arc_mainnet) && not (same destination.code arc_mainnet)
        then threw (protocol "BRIDGE_ROUTE_NOT_ARC")
        else done (source, destination)
  ]
]
