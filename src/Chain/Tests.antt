-- ===== src/Chain/Tests.antt =====
-- Runs of apps/backend/src/common/multichain.ts on concrete texts.
use Prim.Native.String.{String}
use wizpay_core.Prelude.{◌≡◌, refl, true, some, none}
use wizpay_core.Chain.{is_evm_address, normalize_chain_tx_id}

abbrev a_hash : String
a_hash = "0xdDf252ad1be2c89b69c2b068fc378daa952ba7f163c4a11628f55a4df523b3ef"

normalize_chain_tx_id_tests :
    (normalize_chain_tx_id
        (some " 0xdDf252ad1be2c89b69c2b068fc378daa952ba7f163c4a11628f55a4df523b3ef ")
      ≡ some a_hash)
    × (normalize_chain_tx_id (some "0x12") ≡ none)
    × (is_evm_address (some " 0x8366a39CC670B4001A1121B8F6A443A643e40951") ≡ true)
unfolding normalize_chain_tx_id is_evm_address
normalize_chain_tx_id_tests = (refl, refl, refl)
