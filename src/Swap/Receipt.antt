-- ===== src/Swap/Receipt.antt =====
-- `verifySwapReceipt`: the checks of a swap's receipt, and the scan of its logs.
pub mod Scan
pub mod Laws
use Prim.Native.String
use wizpay_core.Prelude.{
  ℕ, ◌+◌, String, Bool, true, false, ◌&&◌, ◌||◌, not, if◌then◌else◌, ltb, leb, ◌==◌, List, [], ◌∷◌,
  Option, none, some,
}
use wizpay_core.Prelude.Text.{same}
use wizpay_core.Prelude.Outcome.{Outcome, done, threw}
use Prim.Native.Char.{code}
use wizpay_core.Chain.{is_0x_hex, is_hex, is_digit, all_chars, length, is_empty}
use wizpay_core.Swap.{Viem, usdc, swap_executor, native_emitter, invalid_receipt, ◌>>=◌}

-- The arguments of the executor's event.
pub record Executed : Type 0 where
  pub caller : String
  pub token_in : String
  pub token_out : String
  pub amount_in : ℕ
  pub amount_out : ℕ

-- What `decodeEventLog` makes of a log of the executor: it throws, or finds the event.
pub data Decoded : Type 0 where
  undecodable : Decoded
  executed : Executed → Decoded

-- `MainnetUniswapV4ReceiptLog`; `decoded` is what `decodeEventLog` answers for it.
pub record Log : Type 0 where
  pub address : String
  pub topics : List String
  pub data_ : String
  pub decoded : Decoded

-- The status `'success'` or `1` is `true`.
pub record Receipt : Type 0 where
  pub chain_id : ℕ
  pub succeeded : Bool
  pub from : String
  pub to : String
  pub input : String
  pub value : String
  pub logs : List Log

pub record Expected : Type 0 where
  pub wallet_address : String
  pub recipient : String
  pub token_in : String
  pub token_out : String
  pub amount_in : ℕ
  pub min_amount_out : ℕ
  pub transaction_data : String
  pub transaction_value : ℕ

-- The variables of the loop.
pub record Tally : Type 0 where
  pub token_in_spent : ℕ
  pub amount_out : ℕ
  pub native_input_transferred : ℕ
  pub executor_events : ℕ
  pub event_amount_out : ℕ

abbrev pub no_tally : Tally
no_tally = record {
  token_in_spent = 0;
  amount_out = 0;
  native_input_transferred = 0;
  executor_events = 0;
  event_amount_out = 0;
}

pub record Evidence : Type 0 where
  pub amount_out : ℕ
  pub token_in_spent : ℕ

abbrev pub transfer_topic : String
transfer_topic = "0xddf252ad1be2c89b69c2b068fc378daa952ba7f163c4a11628f55a4df523b3ef"

-- `/^0x[0-9a-fA-F]{1,64}$/`
unfoldable pub is_word : String → Bool
unfolding is_hex
is_word (String.◌∷◌ a (String.◌∷◌ b s)) =
    code a == b'0' && code b == b'x' && leb 1 (length s) && leb (length s) 64 && all_chars is_hex s
is_word s = false

-- `/^\d+$/`
abbrev pub is_decimal : String → Bool
is_decimal s = not (is_empty s) && all_chars is_digit s

module _ (viem : Viem) (expected : Expected) where
  open viem use {
    is_address, get_address, is_address_equal, zero_address, lower, big_int, topic_address,
  }

  abbrev pub is_expected : Executed → Bool
  is_expected e =
      is_address_equal e.caller expected.wallet_address
      && is_address_equal e.token_in expected.token_in
      && is_address_equal e.token_out expected.token_out
      && e.amount_in == expected.amount_in
      && leb expected.min_amount_out e.amount_out

  unfoldable pub add_event : Executed → Tally → Tally
  add_event e tally =
      if is_expected e
      then record tally {
        executor_events = tally.executor_events + 1;
        event_amount_out = e.amount_out;
      }
      else tally

  -- The three `if`s on a transfer of `value` that `address` logs.
  unfoldable pub add_transfer : String → String → String → ℕ → Tally → Tally
  add_transfer address from to value tally = record tally {
    token_in_spent =
        if is_address_equal address expected.token_in
          && is_address_equal from expected.wallet_address
          && is_address_equal to swap_executor
        then tally.token_in_spent + value
        else tally.token_in_spent;
    native_input_transferred =
        if is_address_equal address native_emitter
          && is_address_equal from expected.wallet_address
          && is_address_equal to swap_executor
        then tally.native_input_transferred + value
        else tally.native_input_transferred;
    amount_out =
        if is_address_equal address expected.token_out && is_address_equal to expected.recipient
        then tally.amount_out + value
        else tally.amount_out;
  }

  -- The second half of the loop's body: a log that is a well-formed transfer is added.
  unfoldable pub scan_transfer : Log → Tally → Tally
  scan_transfer log tally = elim log.topics [
    | [] ↦ tally
    | topic ∷ [] ↦ tally
    | topic ∷ from ∷ [] ↦ tally
    | topic ∷ from ∷ to ∷ rest ↦
        if same (lower topic) transfer_topic
          && is_0x_hex 64 from
          && is_0x_hex 64 to
          && is_word log.data_
        then add_transfer (get_address log.address) (topic_address from) (topic_address to)
            (big_int log.data_) tally
        else tally
  ]

  -- The loop's body. A log of the executor that cannot be decoded is passed over.
  unfoldable pub scan_log : Log → Tally → Tally
  scan_log log tally =
      if not (is_address log.address)
      then tally
      else if is_address_equal (get_address log.address) swap_executor
      then (elim log.decoded [
        | undecodable ↦ tally
        | executed e ↦ scan_transfer log (add_event e tally)
      ])
      else scan_transfer log tally

  unfoldable pub scan : List Log → Tally → Tally
  scan [] tally = tally
  scan (log ∷ logs) tally = scan logs (scan_log log tally)

  unfoldable pub require_address : String → Outcome String
  require_address value =
      if not (is_address value) || is_address_equal value zero_address
      then threw invalid_receipt
      else done (get_address value)

  -- The checks after the loop.
  unfoldable pub check_tally : Tally → Outcome Evidence
  check_tally tally =
      let native = is_address_equal expected.token_in usdc in
      let spent = if native then expected.amount_in else tally.token_in_spent in
      if not (tally.executor_events == 1) || ltb tally.event_amount_out expected.min_amount_out
      then threw invalid_receipt
      else if not native && not (spent == expected.amount_in)
      then threw invalid_receipt
      else if native && not (tally.native_input_transferred == expected.transaction_value)
      then threw invalid_receipt
      else if ltb tally.amount_out expected.min_amount_out
      then threw invalid_receipt
      else done (record { amount_out = tally.event_amount_out; token_in_spent = spent })

  unfoldable pub verify_swap_receipt : Receipt → Outcome Evidence
  verify_swap_receipt receipt =
      if not (is_address_equal expected.wallet_address expected.recipient)
        || not (receipt.chain_id == 5042)
        || not receipt.succeeded
      then threw invalid_receipt
      else (do
        from ← require_address receipt.from
        to ← require_address receipt.to
        if not (is_address_equal from expected.wallet_address)
              || not (is_address_equal to swap_executor)
              || not (same (lower receipt.input) (lower expected.transaction_data))
              || not (is_decimal receipt.value)
              || not (big_int receipt.value == expected.transaction_value)
            then threw invalid_receipt
            else check_tally (scan receipt.logs no_tally))
