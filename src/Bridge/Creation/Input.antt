-- ===== src/Bridge/Creation/Input.antt =====
-- bridge/bridge-lifecycle.service.ts: the checks of what `createIntent` is asked for, which read and
-- write nothing.
use Prim.Native.Char.{code}
use wizpay_core.Prelude.{
  ℕ, ◌+◌, ◌*◌, ◌/◌, ◌-◌, String, Bool, true, false, ◌&&◌, ◌||◌, not, if◌then◌else◌, ltb, leb, ◌==◌,
  List, Option, none, some, find,
}
use wizpay_core.Prelude.Text.{take_chars, append}
use wizpay_core.Prelude.Outcome.{Outcome, done, threw, Error, rejected, unavailable, protocol}
use wizpay_core.Prelude.Throwing.{◌>>=◌, ◌>>◌, refuse_if}
use wizpay_core.Chain.{trim, length, all_chars, is_digit, is_empty}
use wizpay_core.Bridge.{Runtime}
use wizpay_core.Bridge.Registry.{
  Chain, fast_finality_threshold, max_burn_amount_units, is_fast, get_bridge_finality_threshold,
  assert_bridge_route,
}

-- CreateBridgeIntentDto
pub record CreateInput : Type 0 where
  pub idempotency_key : String
  pub source_code : String
  pub destination_code : String
  pub wallet_address : String
  pub recipient_address : String
  pub amount : String
  pub max_fee : String
  pub min_finality_threshold : ℕ

-- An entry of Circle's list of fees, as `Number` reads its fields, where they are natural numbers.
-- `fee` is `Math.round(feeBps * 100)`, where the fee is a number between 0 and 100 basis points.
pub record FeeEntry : Type 0 where
  pub source_domain : Option ℕ
  pub destination_domain : Option ℕ
  pub finality_threshold : Option ℕ
  pub fee : Option ℕ

-- Circle's answers for a fast transfer. `fees` is the list of fees, empty where the request fails or
-- answers no list; `allowance` is the text of the allowance, where the request for it succeeds.
pub record FastAnswers : Type 0 where
  pub fees : List FeeEntry
  pub allowance : Option String

abbrev pub is_number : ℕ → Option ℕ → Bool
is_number n none = false
is_number n (some m) = m == n

abbrev pub is_fast_entry : FeeEntry → Bool
is_fast_entry entry = is_number fast_finality_threshold entry.finality_threshold

abbrev pub fee_of : Option FeeEntry → Option ℕ
fee_of none = none
fee_of (some entry) = entry.fee

-- The fee of the first fast entry, whatever its domains.
unfoldable pub first_fee : FastAnswers → Option ℕ
first_fee answers = fee_of (find is_fast_entry answers.fees)

abbrev pub invalid_address : Error
invalid_address = rejected "BRIDGE_INVALID_ADDRESS"

abbrev pub invalid_amount : Error
invalid_amount = rejected "BRIDGE_INVALID_AMOUNT"

abbrev pub amount_above_max : Error
amount_above_max = rejected "BRIDGE_AMOUNT_ABOVE_MAX"

abbrev pub invalid_request : Error
invalid_request = rejected "BRIDGE_INVALID_REQUEST"

abbrev pub transfer_mode_mismatch : Error
transfer_mode_mismatch = rejected "BRIDGE_TRANSFER_MODE_MISMATCH"

abbrev pub fast_unavailable : Error
fast_unavailable = unavailable "BRIDGE_FAST_UNAVAILABLE"

-- `BigInt` on a text of decimal digits.
abbrev pub decimal_from : ℕ → String → ℕ
decimal_from acc String.[] = acc
decimal_from acc (String.◌∷◌ c s) = decimal_from (acc * 10 + (code c - b'0')) s

abbrev pub decimal : String → ℕ
decimal s = decimal_from 0 s

-- `/^(0|[1-9][0-9]*)$/`
unfoldable pub is_canonical : String → Bool
unfolding is_digit
is_canonical String.[] = false
is_canonical (String.◌∷◌ c s) =
    if code c == b'0' then is_empty s else is_digit (code c) && all_chars is_digit s

-- `/^\d+(?:\.\d{1,6})?$/`, from the first digit on: the digits before the point, and those after.
unfoldable pub is_fraction : String → Bool
is_fraction s = leb 1 (length s) && leb (length s) 6 && all_chars is_digit s

unfoldable pub is_units_rest : String → Bool
unfolding is_fraction is_digit
is_units_rest String.[] = true
is_units_rest (String.◌∷◌ c s) =
    if code c == b'.' then is_fraction s else is_digit (code c) && is_units_rest s

unfoldable pub is_units_text : String → Bool
unfolding is_units_rest is_digit
is_units_text String.[] = false
is_units_text (String.◌∷◌ c s) = is_digit (code c) && is_units_rest s

-- `split('.')`
unfoldable pub before_point : String → String
before_point String.[] = ""
before_point (String.◌∷◌ c s) = if code c == b'.' then "" else String.◌∷◌ c (before_point s)

unfoldable pub after_point : String → String
after_point String.[] = ""
after_point (String.◌∷◌ c s) = if code c == b'.' then s else after_point s

unfoldable pub allowance_subunits : String → ℕ
unfolding before_point after_point
allowance_subunits text =
    decimal (before_point text) * 1000000
    + decimal (take_chars 6 (append (after_point text) "000000"))

-- `protocolFee`: the fee of the amount, rounded up.
unfoldable pub protocol_fee : ℕ → ℕ → ℕ
protocol_fee amount hundredths =
    if hundredths == 0 then 0 else (amount * hundredths + 999999) / 1000000

unfoldable pub assert_fast_ready : ℕ → ℕ → FastAnswers → Outcome (Unit {0})
assert_fast_ready amount max_fee answers = elim (first_fee answers) [
  | none ↦ threw fast_unavailable
  | some hundredths ↦
      if ltb max_fee (protocol_fee amount hundredths)
      then threw fast_unavailable
      else (elim answers.allowance [
        | none ↦ threw fast_unavailable
        | some text ↦
            if not (is_units_text (trim text)) || ltb (allowance_subunits (trim text)) amount
            then threw fast_unavailable
            else done tt
      ])
]

-- `amount`: the number of a canonical text, at most the limit of one transfer.
unfoldable pub read_amount : String → Outcome ℕ
unfolding is_canonical
read_amount value =
    if not (is_canonical value)
    then threw invalid_amount
    else if ltb max_burn_amount_units (decimal value)
    then threw amount_above_max
    else done (decimal value)

-- `route`: an error of the registry becomes a refusal with its code.
abbrev refused : Error → Error
refused (protocol code) = rejected code
refused e = e

unfoldable pub route : String → String → Outcome (Chain × Chain)
route source_code destination_code = elim (assert_bridge_route source_code destination_code) [
  | threw e ↦ threw (refused e)
  | done ends ↦ done ends
]

-- What the checks of the input establish.
pub record Accepted : Type 0 where
  pub source : Chain
  pub destination : Chain
  pub wallet_address : String
  pub recipient_address : String
  pub amount : ℕ
  pub max_fee : ℕ
  pub threshold : ℕ

module _ (env : Runtime) where
  open env use {is_address, get_address}

  unfoldable pub read_address : String → Outcome String
  read_address value =
      if not (is_address (trim value))
      then threw invalid_address
      else done (get_address (trim value))

  unfoldable pub check_input : CreateInput → FastAnswers → Outcome Accepted
  check_input input answers = do
    ends ← route input.source_code input.destination_code
    wallet_address ← read_address input.wallet_address
    recipient_address ← read_address input.recipient_address
    amount ← read_amount input.amount
    max_fee ← read_amount input.max_fee
    refuse_if (amount == 0) invalid_request
    refuse_if (ltb amount max_fee) invalid_request
    threshold ← get_bridge_finality_threshold (ends.0).code
    refuse_if (not (input.min_finality_threshold == threshold)) transfer_mode_mismatch
    fast ← is_fast (ends.0).code
    if fast then assert_fast_ready amount max_fee answers else done tt
    done (record {
      source = ends.0;
      destination = ends.1;
      wallet_address = wallet_address;
      recipient_address = recipient_address;
      amount = amount;
      max_fee = max_fee;
      threshold = threshold;
    })
