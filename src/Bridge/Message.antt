-- ===== src/Bridge/Message.antt =====
-- bridge/bridge-message.ts: reading a CCTP message, a text of hexadecimal digits, by the offsets of
-- its fields in bytes. Bytes are pairs of digits after `0x`.
pub mod Layout
pub mod Encoding
use Prim.Native.Char.{code, Char}
use Prim.Native.String
use wizpay_core.Prelude.{
  ℕ, zero, suc, ◌+◌, ◌-◌, ◌*◌, ◌/◌, String, Bool, ◌||◌, not, if◌then◌else◌, ltb, leb, ◌&&◌,
}
use wizpay_core.Prelude.Outcome.{Outcome, done, threw, rejected, Error}
use wizpay_core.Prelude.Text.{take_chars, drop_chars, prefixed, repeated}
use wizpay_core.Chain.{length, is_digit}
use wizpay_core.Bridge.{Runtime}

abbrev pub header_length : ℕ
header_length = 148

abbrev pub burn_body_length : ℕ
burn_body_length = 228

-- DecodedCctpMessage
pub record Decoded : Type 0 where
  pub version : ℕ
  pub source_domain : ℕ
  pub destination_domain : ℕ
  pub nonce : String
  pub sender : String
  pub recipient : String
  pub destination_caller : String
  pub min_finality_threshold : ℕ
  pub finality_threshold_executed : ℕ
  pub burn_version : ℕ
  pub burn_token : String
  pub mint_recipient : String
  pub amount : ℕ
  pub message_sender : String
  pub max_fee : ℕ
  pub fee_executed : ℕ
  pub expiration_block : ℕ
  pub message_hash : String

-- `BigInt` on a text of hexadecimal digits after `0x`.
abbrev digit_value : ℕ → ℕ
digit_value c = if is_digit c then c - b'0' else if leb b'a' c && leb c b'f' then c - 87 else c - 55

abbrev pub value_from : ℕ → String → ℕ
value_from acc String.[] = acc
value_from acc (String.◌∷◌ c s) = value_from (acc * 16 + digit_value (code c)) s

abbrev pub big_int : String → ℕ
big_int text = value_from 0 (drop_chars 2 text)

-- `sliceBytes`: `slice(start, end)` of the digits of the bytes.
unfoldable pub slice_bytes : String → ℕ → ℕ → String
slice_bytes message offset bytes =
    prefixed (take_chars (bytes * 2) (drop_chars (2 + offset * 2) message))

-- `readNumber`, and `readBigInt`, which read the same number.
unfoldable pub read_number : String → ℕ → ℕ → ℕ
unfolding slice_bytes
read_number message offset bytes = big_int (slice_bytes message offset bytes)

-- `value.slice(-40)`
abbrev pub last_40 : String → String
last_40 value = drop_chars (length value - 40) value

module _ (env : Runtime) where
  unfoldable pub read_address : String → ℕ → String
  unfolding slice_bytes
  read_address message offset = env.get_address (prefixed (last_40 (slice_bytes message offset 32)))

  -- `padStart(64, '0')` of the digits of an address.
  unfoldable pub address_to_bytes32 : String → String
  address_to_bytes32 address =
      let digits = drop_chars 2 (env.lower address) in
      prefixed (repeated (64 - length digits) "0" digits)

  abbrev pub invalid_message : Error
  invalid_message = rejected "BRIDGE_MESSAGE_INVALID"

  unfoldable pub fields : String → Decoded
  fields message = record {
    version = read_number message 0 4;
    source_domain = read_number message 4 4;
    destination_domain = read_number message 8 4;
    nonce = slice_bytes message 12 32;
    sender = read_address message 44;
    recipient = read_address message 76;
    destination_caller = read_address message 108;
    min_finality_threshold = read_number message 140 4;
    finality_threshold_executed = read_number message 144 4;
    burn_version = read_number message header_length 4;
    burn_token = read_address message (header_length + 4);
    mint_recipient = read_address message (header_length + 36);
    amount = read_number message (header_length + 68) 32;
    message_sender = read_address message (header_length + 100);
    max_fee = read_number message (header_length + 132) 32;
    fee_executed = read_number message (header_length + 164) 32;
    expiration_block = read_number message (header_length + 196) 32;
    message_hash = env.keccak256 message;
  }

  -- `(message.length - 2) / 2 < HEADER_LENGTH + BURN_BODY_LENGTH`, without the fraction.
  unfoldable pub decode_cctp_v2_message : String → Outcome Decoded
  unfolding fields
  decode_cctp_v2_message message =
      if not (env.is_hex message)
        || ltb (length message) (2 + (header_length + burn_body_length) * 2)
      then threw invalid_message
      else done (fields message)

  unfoldable pub cctp_message_body : String → Outcome String
  unfolding decode_cctp_v2_message
  cctp_message_body message = elim (decode_cctp_v2_message message) [
    | threw e ↦ threw e
    | done decoded ↦ done (prefixed (drop_chars (2 + header_length * 2) message))
  ]
