-- ===== src/Bridge/Message/Encoding.antt =====
-- Circle's layout of a CCTP message, and that bridge/bridge-message.ts reads back what it holds.
use wizpay_core.Prelude.{ℕ, ◌^◌, ◌*◌, ◌+◌, ◌<◌, ◌≤◌, ◌≡◌, refl, String, true, List, [], ◌∷◌, arith}
use wizpay_core.Prelude.Text.{append, prefixed}
use wizpay_core.Prelude.Outcome.{done}
use wizpay_core.Chain.{length}
use wizpay_core.Bridge.{Runtime}
use wizpay_core.Bridge.Message.{
  Decoded, slice_bytes, read_number, read_address, fields, decode_cctp_v2_message,
}
use wizpay_core.Bridge.Message.Layout.{
  hex_of, length-hex_of, concat, Fits, piece, width, offset, number_at, slice_at, address_at,
  padding, total-le-length,
}

-- What a message holds: numbers, and digits without their `0x`. An address stands in the last 40 of
-- the 64 digits of its field; the hook's data ends the message.
pub record Content : Type 0 where
  pub version : ℕ
  pub source_domain : ℕ
  pub destination_domain : ℕ
  pub nonce : String
  pub sender : String
  pub recipient : String
  pub destination_caller : String
  pub min_finality_threshold : ℕ
  pub finality_threshold_executed : ℕ
  pub burn_version : ℕ
  pub burn_token : String
  pub mint_recipient : String
  pub amount : ℕ
  pub message_sender : String
  pub max_fee : ℕ
  pub fee_executed : ℕ
  pub expiration_block : ℕ
  pub hook_data : String

unfoldable pub pieces : Content → List String
pieces c =
    "0x"
    ∷ hex_of 8 c.version
    ∷ hex_of 8 c.source_domain
    ∷ hex_of 8 c.destination_domain
    ∷ c.nonce
    ∷ append padding c.sender
    ∷ append padding c.recipient
    ∷ append padding c.destination_caller
    ∷ hex_of 8 c.min_finality_threshold
    ∷ hex_of 8 c.finality_threshold_executed
    ∷ hex_of 8 c.burn_version
    ∷ append padding c.burn_token
    ∷ append padding c.mint_recipient
    ∷ hex_of 64 c.amount
    ∷ append padding c.message_sender
    ∷ hex_of 64 c.max_fee
    ∷ hex_of 64 c.fee_executed
    ∷ hex_of 64 c.expiration_block
    ∷ c.hook_data
    ∷ []

abbrev pub widths : List ℕ
widths = 2 ∷ 8 ∷ 8 ∷ 8 ∷ 64 ∷ 64 ∷ 64 ∷ 64 ∷ 8 ∷ 8 ∷ 8 ∷ 64 ∷ 64 ∷ 64 ∷ 64 ∷ 64 ∷ 64 ∷ 64 ∷ []

unfoldable pub encode : Content → String
encode c = concat (pieces c)

-- The widths of the fields.
pub record IsContent (c : Content) : Type 0 where
  pub version : c.version < 16 ^ 8
  pub source_domain : c.source_domain < 16 ^ 8
  pub destination_domain : c.destination_domain < 16 ^ 8
  pub nonce : length c.nonce ≡ 64
  pub sender : length c.sender ≡ 40
  pub recipient : length c.recipient ≡ 40
  pub destination_caller : length c.destination_caller ≡ 40
  pub min_finality_threshold : c.min_finality_threshold < 16 ^ 8
  pub finality_threshold_executed : c.finality_threshold_executed < 16 ^ 8
  pub burn_version : c.burn_version < 16 ^ 8
  pub burn_token : length c.burn_token ≡ 40
  pub mint_recipient : length c.mint_recipient ≡ 40
  pub amount : c.amount < 16 ^ 64
  pub message_sender : length c.message_sender ≡ 40
  pub max_fee : c.max_fee < 16 ^ 64
  pub fee_executed : c.fee_executed < 16 ^ 64
  pub expiration_block : c.expiration_block < 16 ^ 64

padded : (s : String) → length s ≡ 40 → length (append padding s) ≡ 64
padded s h = omega arith

-- What is read of a message is what it holds.
abbrev pub decoded : Content → Runtime → Decoded
decoded c env = record {
  version = c.version;
  source_domain = c.source_domain;
  destination_domain = c.destination_domain;
  nonce = prefixed c.nonce;
  sender = env.get_address (prefixed c.sender);
  recipient = env.get_address (prefixed c.recipient);
  destination_caller = env.get_address (prefixed c.destination_caller);
  min_finality_threshold = c.min_finality_threshold;
  finality_threshold_executed = c.finality_threshold_executed;
  burn_version = c.burn_version;
  burn_token = env.get_address (prefixed c.burn_token);
  mint_recipient = env.get_address (prefixed c.mint_recipient);
  amount = c.amount;
  message_sender = env.get_address (prefixed c.message_sender);
  max_fee = c.max_fee;
  fee_executed = c.fee_executed;
  expiration_block = c.expiration_block;
  message_hash = env.keccak256 (encode c);
}

module _ (c : Content) (ok : IsContent c) where
  pieces-Fits : Fits widths (pieces c)
  unfolding pieces
  pieces-Fits = (
    refl,
    (
      length-hex_of 8 c.version,
      (
        length-hex_of 8 c.source_domain,
        (
          length-hex_of 8 c.destination_domain,
          (
            ok.nonce,
            (
              padded c.sender ok.sender,
              (
                padded c.recipient ok.recipient,
                (
                  padded c.destination_caller ok.destination_caller,
                  (
                    length-hex_of 8 c.min_finality_threshold,
                    (
                      length-hex_of 8 c.finality_threshold_executed,
                      (
                        length-hex_of 8 c.burn_version,
                        (
                          padded c.burn_token ok.burn_token,
                          (
                            padded c.mint_recipient ok.mint_recipient,
                            (
                              length-hex_of 64 c.amount,
                              (
                                padded c.message_sender ok.message_sender,
                                (
                                  length-hex_of 64 c.max_fee,
                                  (
                                    length-hex_of 64 c.fee_executed,
                                    (length-hex_of 64 c.expiration_block, tt),
                                  ),
                                ),
                              ),
                            ),
                          ),
                        ),
                      ),
                    ),
                  ),
                ),
              ),
            ),
          ),
        ),
      ),
    ),
  )

  long : 754 ≤ length (encode c)
  unfolding encode
  long = total-le-length widths (pieces c) pieces-Fits

  number :
      (k start bytes n : ℕ)
      → k < 18
      → width k widths ≡ bytes * 2
      → offset k widths ≡ 2 + start * 2
      → piece k (pieces c) ≡ hex_of (bytes * 2) n
      → n < 16 ^ (bytes * 2)
      → read_number (encode c) start bytes ≡ n
  unfolding encode
  number k start bytes n h w o p fits =
      number_at widths (pieces c) pieces-Fits k start bytes h w o n p fits

  address :
      (env : Runtime) (k start : ℕ) (a : String)
      → k < 18
      → width k widths ≡ 64
      → offset k widths ≡ 2 + start * 2
      → piece k (pieces c) ≡ append padding a
      → length a ≡ 40
      → read_address env (encode c) start ≡ env.get_address (prefixed a)
  unfolding encode
  address env k start a h w o p = address_at env widths (pieces c) k start a pieces-Fits h w o p

  nonce_read : slice_bytes (encode c) 12 32 ≡ prefixed c.nonce
  unfolding encode pieces
  nonce_read = slice_at widths (pieces c) pieces-Fits 4 12 32 (omega arith) refl refl

  fields-encode : (env : Runtime) → fields env (encode c) ≡ decoded c env
  unfolding fields pieces
  fields-encode env = λ i. record {
    version = number 1 0 4 c.version (omega arith) refl refl refl ok.version i;
    source_domain = number 2 4 4 c.source_domain (omega arith) refl refl refl ok.source_domain i;
    destination_domain =
        number 3 8 4 c.destination_domain (omega arith) refl refl refl ok.destination_domain i;
    nonce = nonce_read i;
    sender = address env 5 44 c.sender (omega arith) refl refl refl ok.sender i;
    recipient = address env 6 76 c.recipient (omega arith) refl refl refl ok.recipient i;
    destination_caller =
        address env 7 108 c.destination_caller (omega arith) refl refl refl ok.destination_caller i;
    min_finality_threshold =
        number 8 140 4 c.min_finality_threshold (omega arith) refl refl refl
          ok.min_finality_threshold i;
    finality_threshold_executed =
        number 9 144 4 c.finality_threshold_executed (omega arith) refl refl refl
          ok.finality_threshold_executed i;
    burn_version = number 10 148 4 c.burn_version (omega arith) refl refl refl ok.burn_version i;
    burn_token = address env 11 152 c.burn_token (omega arith) refl refl refl ok.burn_token i;
    mint_recipient =
        address env 12 184 c.mint_recipient (omega arith) refl refl refl ok.mint_recipient i;
    amount = number 13 216 32 c.amount (omega arith) refl refl refl ok.amount i;
    message_sender =
        address env 14 248 c.message_sender (omega arith) refl refl refl ok.message_sender i;
    max_fee = number 15 280 32 c.max_fee (omega arith) refl refl refl ok.max_fee i;
    fee_executed = number 16 312 32 c.fee_executed (omega arith) refl refl refl ok.fee_executed i;
    expiration_block =
        number 17 344 32 c.expiration_block (omega arith) refl refl refl ok.expiration_block i;
    message_hash = env.keccak256 (encode c);
  }

-- A CCTP message of Circle's layout, whose numbers and texts have the widths of their fields, and which
-- the library takes for hexadecimal, is decoded to what it holds: each number, the nonce, and the
-- address in each address field.
pub decode-encode :
    (env : Runtime) (c : Content)
    → IsContent c
    → env.is_hex (encode c) ≡ true
    → decode_cctp_v2_message env (encode c) ≡ done (decoded c env)
unfolding decode_cctp_v2_message
decode-encode env c ok hex = ground (arith, long c ok, fields-encode c ok env)
