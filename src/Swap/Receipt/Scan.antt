-- ===== src/Swap/Receipt/Scan.antt =====
-- The loop of `verifySwapReceipt` against a description of what it adds up: the sums and the count,
-- over the logs, of what each log says by itself.
use wizpay_core.Prelude.{
  ℕ, ◌+◌, ◌≡◌, refl, inl, inr, ◌⊎◌, String, Bool, true, false, ◌&&◌, not, if◌then◌else◌, List, [],
  ◌∷◌, Option, none, some, count, sum_by, sum_by-cons, from_Bool, arith, Bool-cases,
}
use wizpay_core.Prelude.Text.{same}
use wizpay_core.Chain.{is_0x_hex}
use wizpay_core.Swap.{Viem, swap_executor, native_emitter}
use wizpay_core.Swap.Receipt.{
  Decoded, undecodable, executed, Executed, Log, Expected, Tally, transfer_topic, is_word,
  is_expected, add_event, add_transfer, scan_transfer, scan_log, scan,
}

-- A transfer that a log records.
pub record Transfer : Type 0 where
  pub token : String
  pub from : String
  pub to : String
  pub value : ℕ

decoded_cases : (d : Decoded) → (d ≡ undecodable) ⊎ ((e : Executed) × (d ≡ executed e))
decoded_cases undecodable = inl refl
decoded_cases (executed e) = inr (e, refl)

module _ (viem : Viem) (expected : Expected) where
  open viem use {is_address, get_address, is_address_equal, lower, big_int, topic_address}

  abbrev is_executor : Log → Bool
  is_executor log = is_address_equal (get_address log.address) swap_executor

  abbrev is_readable : Decoded → Bool
  is_readable undecodable = false
  is_readable (executed e) = true

  abbrev transfer_in : Log → List String → Option Transfer
  transfer_in log (topic ∷ from ∷ to ∷ rest) =
      if same (lower topic) transfer_topic
        && is_0x_hex 64 from
        && is_0x_hex 64 to
        && is_word log.data_
      then some (record {
        token = get_address log.address;
        from = topic_address from;
        to = topic_address to;
        value = big_int log.data_;
      })
      else none
  transfer_in log topics = none

  -- The transfer of a log: the address is one, the topics and the data are well formed, and the log is
  -- not one of the executor that cannot be decoded.
  unfoldable pub transfer_of : Log → Option Transfer
  transfer_of log =
      if is_address log.address && not (is_executor log && not (is_readable log.decoded))
      then transfer_in log log.topics
      else none

  abbrev value_if : (Transfer → Bool) → Option Transfer → ℕ
  value_if p none = 0
  value_if p (some t) = if p t then t.value else 0

  abbrev spends_in : Transfer → Bool
  spends_in t =
      is_address_equal t.token expected.token_in
      && is_address_equal t.from expected.wallet_address
      && is_address_equal t.to swap_executor

  abbrev spends_native_in : Transfer → Bool
  spends_native_in t =
      is_address_equal t.token native_emitter
      && is_address_equal t.from expected.wallet_address
      && is_address_equal t.to swap_executor

  abbrev pays_in : Transfer → Bool
  pays_in t =
      is_address_equal t.token expected.token_out && is_address_equal t.to expected.recipient

  -- What a log adds to the input spent, to the native input, and to the output.
  abbrev pub spends : Log → ℕ
  spends log = value_if spends_in (transfer_of log)

  abbrev pub spends_native : Log → ℕ
  spends_native log = value_if spends_native_in (transfer_of log)

  abbrev pub pays : Log → ℕ
  pays log = value_if pays_in (transfer_of log)

  abbrev expected_event : Decoded → Bool
  expected_event undecodable = false
  expected_event (executed e) = is_expected viem expected e

  -- Whether a log is the event of the expected swap.
  abbrev pub is_swap : Log → Bool
  is_swap log = is_address log.address && is_executor log && expected_event log.decoded

  abbrev added : Option Transfer → Tally → Tally
  added none tally = tally
  added (some t) tally = add_transfer viem expected t.token t.from t.to t.value tally

  transfer_lem :
      (log : Log) (topics : List String) (tally : Tally)
      → log.topics ≡ topics
      → scan_transfer viem expected log tally ≡ added (transfer_in log topics) tally
  unfolding scan_transfer
  transfer_lem log [] tally e = ground arith
  transfer_lem log (a ∷ []) tally e = ground arith
  transfer_lem log (a ∷ b ∷ []) tally e = ground arith
  transfer_lem log (a ∷ b ∷ c ∷ rest) tally e = ground arith

  -- What a tally has after a transfer or none, as `Adds` says of a log.
  added_sums :
      (o : Option Transfer) (tally : Tally)
      → ((added o tally).token_in_spent ≡ tally.token_in_spent + value_if spends_in o)
        × ((added o tally).native_input_transferred
            ≡ tally.native_input_transferred + value_if spends_native_in o)
        × ((added o tally).amount_out ≡ tally.amount_out + value_if pays_in o)
        × ((added o tally).executor_events ≡ tally.executor_events)
  unfolding add_transfer
  added_sums none tally = ground arith
  added_sums (some t) tally = (ground arith, ground arith, ground arith, refl)

  abbrev Adds : Log → Tally → Tally → Type 0
  Adds log tally tally' =
      (tally'.token_in_spent ≡ tally.token_in_spent + spends log)
      × (tally'.native_input_transferred ≡ tally.native_input_transferred + spends_native log)
      × (tally'.amount_out ≡ tally.amount_out + pays log)
      × (tally'.executor_events ≡ tally.executor_events + from_Bool (is_swap log))

  scan_log_sums : (log : Log) (tally : Tally) → Adds log tally (scan_log viem expected log tally)
  unfolding scan_log transfer_of add_event
  scan_log_sums log tally = elim (Bool-cases (is_address log.address)) [
    | inr no_ ↦ (ground arith, ground arith, ground arith, ground arith)
    | inl address ↦ elim (Bool-cases (is_executor log)) [
      | inr other ↦
          let step = transfer_lem log log.topics tally refl in
          let sums = added_sums (transfer_in log log.topics) tally in
          (ground arith, ground arith, ground arith, ground arith)
      | inl mine ↦ elim (decoded_cases log.decoded) [
        | inl bad ↦ (ground arith, ground arith, ground arith, ground arith)
        | inr (e, good) ↦
            let tally' : Tally = add_event viem expected e tally in
            let step = transfer_lem log log.topics tally' refl in
            let sums = added_sums (transfer_in log log.topics) tally' in
            (ground arith, ground arith, ground arith, ground arith)
      ]
    ]
  ]

-- The loop of `verifySwapReceipt` adds up what the logs say one by one: the input that the wallet sent
-- to the executor, in the token and natively, the output that the recipient was paid, and the number of
-- the executor's events for the expected swap.
pub scan_sums :
    (viem : Viem) (expected : Expected) (logs : List Log) (tally : Tally)
    → ((scan viem expected logs tally).token_in_spent
        ≡ tally.token_in_spent + sum_by (spends viem expected) 0 logs)
      × ((scan viem expected logs tally).native_input_transferred
          ≡ tally.native_input_transferred + sum_by (spends_native viem expected) 0 logs)
      × ((scan viem expected logs tally).amount_out
          ≡ tally.amount_out + sum_by (pays viem expected) 0 logs)
      × ((scan viem expected logs tally).executor_events
          ≡ tally.executor_events + count (is_swap viem expected) logs)
unfolding scan count sum_by
scan_sums viem expected [] tally = (omega arith, omega arith, omega arith, omega arith)
scan_sums viem expected (log ∷ logs) tally =
    let next = scan_log viem expected log tally in
    let here = scan_log_sums viem expected log tally in
    let rest = scan_sums viem expected logs next in
    (
      omega (arith, here.0, rest.0, sum_by-cons (spends viem expected) log logs),
      omega (arith, here.1, rest.1, sum_by-cons (spends_native viem expected) log logs),
      omega (arith, here.2, rest.2, sum_by-cons (pays viem expected) log logs),
      omega (arith, here.3, rest.3),
    )
