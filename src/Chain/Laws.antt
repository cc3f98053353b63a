-- ===== src/Chain/Laws.antt =====
-- What apps/backend/src/common/multichain.ts recognises, and what its normal form is.
use Prim.Native.Char.{code}
use wizpay_core.Prelude.{
  ℕ, String, ◌≡◌, refl, ◌⊎◌, inl, inr, true, false, ◌&&◌, Option, none, some, arith, Bool-cases, ap,
  ◌∙◌, sym,
}
use wizpay_core.Chain.{
  is_space, trim_start, trim_end, trim, is_0x_hex, is_base58, is_base58_text, is_evm_address,
  is_solana_address, is_evm_tx_hash, is_solana_signature, normalize_chain_tx_id,
}

trim_end_idem : (s : String) → trim_end (trim_end s) ≡ trim_end s
unfolding trim_end
trim_end_idem String.[] = refl
trim_end_idem (String.◌∷◌ c s) = ground (arith, trim_end_idem s)

-- The first character, if any, is no white space.
abbrev StartsClean : String → Type 0
StartsClean String.[] = Unit {0}
StartsClean (String.◌∷◌ c s) = is_space (code c) ≡ false

trim_start-StartsClean : (s : String) → StartsClean (trim_start s)
unfolding trim_start
trim_start-StartsClean String.[] = tt
trim_start-StartsClean (String.◌∷◌ c s) = elim (Bool-cases (is_space (code c))) [
  | inl space ↦ rw space (trim_start-StartsClean s)
  | inr solid ↦ rw solid solid
]

trim_end-StartsClean : (s : String) → StartsClean s → StartsClean (trim_end s)
unfolding trim_end
trim_end-StartsClean String.[] h = tt
trim_end-StartsClean (String.◌∷◌ c s) h = rw h h

trim_start_of_StartsClean : (s : String) → StartsClean s → trim_start s ≡ s
unfolding trim_start
trim_start_of_StartsClean String.[] h = refl
trim_start_of_StartsClean (String.◌∷◌ c s) h = rw h

pub trim_idem : (s : String) → trim (trim s) ≡ trim s
unfolding trim
trim_idem s =
    ap trim_end (
      trim_start_of_StartsClean (trim_end (trim_start s))
        (trim_end-StartsClean (trim_start s) (trim_start-StartsClean s)))
    ∙ trim_end_idem (trim_start s)

-- `0` opens every hexadecimal text, and is no base-58 character.
hex-not-base58 : (n : ℕ) (s : String) → is_0x_hex n s ≡ true → is_base58_text s ≡ false
unfolding is_0x_hex is_base58_text is_base58
hex-not-base58 n String.[] h = refl
hex-not-base58 n (String.◌∷◌ a String.[]) h = cc
hex-not-base58 n (String.◌∷◌ a (String.◌∷◌ b s)) h = ground arith

-- No value is read both as an EVM address and as a Solana address, nor both as an EVM transaction
-- hash and as a Solana signature.
pub chain_formats_disjoint :
    (value : Option String)
    → (is_evm_address value && is_solana_address value ≡ false)
      × (is_evm_tx_hash value && is_solana_signature value ≡ false)
unfolding is_evm_address is_solana_address is_evm_tx_hash is_solana_signature
chain_formats_disjoint none = (refl, refl)
chain_formats_disjoint (some value) =
    (ground (arith, hex-not-base58 40 (trim value)), ground (arith, hex-not-base58 64 (trim value)))

-- A normalised transaction id is itself in normal form, and is an EVM transaction hash or a Solana
-- signature.
pub normalize_chain_tx_id_idem :
    (value : Option String) (id : String)
    → normalize_chain_tx_id value ≡ some id
    → (normalize_chain_tx_id (some id) ≡ some id)
      × ((is_evm_tx_hash (some id) ≡ true) ⊎ (is_solana_signature (some id) ≡ true))
unfolding normalize_chain_tx_id
normalize_chain_tx_id_idem none id h = cc
normalize_chain_tx_id_idem (some value) id h =
    let same : id ≡ trim value = ground arith in
    let clean : trim id ≡ id = ap trim same ∙ trim_idem value ∙ sym same in
    (ground arith, ground arith)
