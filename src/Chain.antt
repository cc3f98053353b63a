-- ===== src/Chain.antt =====
-- apps/backend/src/common/multichain.ts: which texts are addresses, transaction hashes and
-- signatures. A value that is not a string is `none`. The regular expressions are tests on the
-- characters of the trimmed text; the characters that `trim` removes are those of ECMAScript.
pub mod Laws
mod Tests
use Prim.Native.Char.{Char, code}
use Prim.Native.String
use wizpay_core.Prelude.{
  ℕ, zero, suc, String, Bool, true, false, ◌&&◌, ◌||◌, not, Option, none, some, leb, ◌==◌,
  if◌then◌else◌,
}

-- White space and line ends of ECMAScript.
is_space : ℕ → Bool
is_space c =
    leb 9 c && leb c 13
    || c == 32
    || c == 160
    || c == 5760
    || leb 8192 c && leb c 8202
    || c == 8232
    || c == 8233
    || c == 8239
    || c == 8287
    || c == 12288
    || c == 65279

abbrev pub is_empty : String → Bool
is_empty String.[] = true
is_empty (String.◌∷◌ c s) = false

unfoldable pub trim_start : String → String
unfolding is_space
trim_start String.[] = String.[]
trim_start (String.◌∷◌ c s) = if is_space (code c) then trim_start s else String.◌∷◌ c s

unfoldable pub trim_end : String → String
unfolding is_space
trim_end String.[] = String.[]
trim_end (String.◌∷◌ c s) =
    let rest = trim_end s in
    if is_space (code c) && is_empty rest then String.[] else String.◌∷◌ c rest

unfoldable pub trim : String → String
unfolding trim_start trim_end
trim s = trim_end (trim_start s)

-- The number of characters; JavaScript's `length` where no character needs a surrogate pair.
abbrev pub length : String → ℕ
length String.[] = 0
length (String.◌∷◌ c s) = suc (length s)

-- `/^[class]*$/`
abbrev pub all_chars : (ℕ → Bool) → String → Bool
all_chars p String.[] = true
all_chars p (String.◌∷◌ c s) = p (code c) && all_chars p s

unfoldable pub is_digit : ℕ → Bool
is_digit c = leb b'0' c && leb c b'9'

unfoldable pub is_hex : ℕ → Bool
unfolding is_digit
is_hex c = is_digit c || leb b'a' c && leb c b'f' || leb b'A' c && leb c b'F'

-- `[1-9A-HJ-NP-Za-km-z]`
unfoldable pub is_base58 : ℕ → Bool
is_base58 c =
    leb b'1' c && leb c b'9'
    || leb b'A' c && leb c b'H'
    || leb b'J' c && leb c b'N'
    || leb b'P' c && leb c b'Z'
    || leb b'a' c && leb c b'k'
    || leb b'm' c && leb c b'z'

-- `/^0x[a-fA-F0-9]{n}$/`
unfoldable pub is_0x_hex : ℕ → String → Bool
unfolding is_hex
is_0x_hex n (String.◌∷◌ a (String.◌∷◌ b s)) =
    code a == b'0' && code b == b'x' && length s == n && all_chars is_hex s
is_0x_hex n s = false

-- `/^[1-9A-HJ-NP-Za-km-z]+$/`
unfoldable pub is_base58_text : String → Bool
unfolding is_base58
is_base58_text s = not (is_empty s) && all_chars is_base58 s

unfoldable pub is_evm_address : Option String → Bool
unfolding is_0x_hex trim
is_evm_address none = false
is_evm_address (some value) = is_0x_hex 40 (trim value)

unfoldable pub is_solana_address : Option String → Bool
unfolding is_base58_text trim
is_solana_address none = false
is_solana_address (some value) =
    let candidate = trim value in
    leb 32 (length candidate) && leb (length candidate) 44 && is_base58_text candidate

unfoldable pub is_evm_tx_hash : Option String → Bool
unfolding is_0x_hex trim
is_evm_tx_hash none = false
is_evm_tx_hash (some value) = is_0x_hex 64 (trim value)

unfoldable pub is_solana_signature : Option String → Bool
unfolding is_base58_text trim
is_solana_signature none = false
is_solana_signature (some value) =
    let candidate = trim value in
    leb 64 (length candidate) && leb (length candidate) 88 && is_base58_text candidate

unfoldable pub normalize_chain_tx_id : Option String → Option String
unfolding is_evm_tx_hash is_solana_signature
normalize_chain_tx_id none = none
normalize_chain_tx_id (some value) =
    let candidate = trim value in
    if is_empty candidate
    then none
    else if is_evm_tx_hash (some candidate) || is_solana_signature (some candidate)
    then some candidate
    else none
