-- ===== src/Bridge/Quote.antt =====
-- bridge/bridge-quote.service.ts: the quote of a transfer, and that `createIntent` of
-- bridge-lifecycle.service.ts accepts the fee that it suggests.
use wizpay_core.Prelude.{
  ℕ, ◌+◌, ◌-◌, ◌*◌, ◌/◌, ◌≤◌, ◌≡◌, inl, inr, String, Bool, true, false, not, if◌then◌else◌, ltb,
  ◌==◌, Option, none, some, arith, Bool-cases, Option-cases, find, find-and, count, ◌&&◌,
}
use wizpay_core.Prelude.Outcome.{Outcome, done, threw, Error, unavailable}
use wizpay_core.Prelude.Throwing.{◌>>=◌, ◌>>◌, refuse_if, returned, not_refused, carry}
use wizpay_core.Chain.{trim}
use wizpay_core.Bridge.Registry.{Chain, get_bridge_chain, is_fast, get_bridge_finality_threshold}
use wizpay_core.Bridge.Creation.Input.{
  FastAnswers, FeeEntry, is_number, is_fast_entry, first_fee, fast_unavailable, is_canonical,
  decimal, is_units_text, allowance_subunits, protocol_fee, assert_fast_ready,
}

-- BridgeQuote
pub record Quote : Type 0 where
  pub source_code : String
  pub destination_code : String
  pub fast : Bool
  pub min_finality_threshold : ℕ
  pub amount : ℕ
  pub protocol_fee : ℕ
  pub max_fee_suggested : ℕ
  pub receive_amount : ℕ
  pub allowance_sufficient : Option Bool

abbrev pub quote_unavailable : Error
quote_unavailable = unavailable "BRIDGE_QUOTE_UNAVAILABLE"

unfoldable pub calculate_fast_protocol_fee : ℕ → ℕ → ℕ
calculate_fast_protocol_fee amount_units hundredths =
    if amount_units == 0
    then 0
    else if hundredths == 0
    then 0
    else (amount_units * hundredths + 999999) / 1000000

unfoldable pub calculate_fast_max_fee : ℕ → ℕ
calculate_fast_max_fee fee = if fee == 0 then 0 else (fee * 120 + 99) / 100

abbrev pub is_route_entry : ℕ → ℕ → FeeEntry → Bool
is_route_entry source_domain destination_domain entry =
    is_fast_entry entry
    && (is_number source_domain entry.source_domain
        && is_number destination_domain entry.destination_domain)

-- `parseCircleMinimumFeeBps`: the fast entry of the route, else the first fast one.
unfoldable pub route_fee : ℕ → ℕ → FastAnswers → Option ℕ
route_fee source_domain destination_domain answers =
    elim (find (is_route_entry source_domain destination_domain) answers.fees) [
      | none ↦ first_fee answers
      | some entry ↦ entry.fee
    ]

-- `fastFeeBps` and `fastAllowanceSubunits`, on Circle's answers.
unfoldable pub fast_fee : ℕ → ℕ → FastAnswers → Outcome ℕ
fast_fee source_domain destination_domain answers =
    elim (route_fee source_domain destination_domain answers) [
      | none ↦ threw fast_unavailable
      | some hundredths ↦ done hundredths
    ]

unfoldable pub fast_allowance : FastAnswers → Outcome ℕ
fast_allowance answers = elim answers.allowance [
  | none ↦ threw fast_unavailable
  | some text ↦
      if is_units_text (trim text)
      then done (allowance_subunits (trim text))
      else threw fast_unavailable
]

unfoldable pub fast_quote : Chain → Chain → ℕ → ℕ → FastAnswers → Outcome Quote
fast_quote source destination threshold amount answers = do
  hundredths ← fast_fee source.domain destination.domain answers
  refuse_if (ltb amount (calculate_fast_max_fee (calculate_fast_protocol_fee amount hundredths)))
      fast_unavailable
  allowance ← fast_allowance answers
  refuse_if (ltb allowance amount) fast_unavailable
  done (record {
    source_code = source.code;
    destination_code = destination.code;
    fast = true;
    min_finality_threshold = threshold;
    amount = amount;
    protocol_fee = calculate_fast_protocol_fee amount hundredths;
    max_fee_suggested = calculate_fast_max_fee (calculate_fast_protocol_fee amount hundredths);
    receive_amount = amount - calculate_fast_protocol_fee amount hundredths;
    allowance_sufficient = some true;
  })

abbrev standard_quote : String → String → ℕ → ℕ → Quote
standard_quote source_code destination_code threshold amount = record {
  source_code = source_code;
  destination_code = destination_code;
  fast = false;
  min_finality_threshold = threshold;
  amount = amount;
  protocol_fee = 0;
  max_fee_suggested = 0;
  receive_amount = amount;
  allowance_sufficient = none;
}

unfoldable pub quote : String → String → String → FastAnswers → Outcome Quote
quote source_code destination_code amount answers = do
  source ← get_bridge_chain source_code
  destination ← get_bridge_chain destination_code
  refuse_if (not (is_canonical amount)) quote_unavailable
  refuse_if (decimal amount == 0) quote_unavailable
  fast ← is_fast source.code
  threshold ← get_bridge_finality_threshold source.code
  if fast
      then fast_quote source destination threshold (decimal amount) answers
      else done (standard_quote source.code destination.code threshold (decimal amount))

-- The fee of a quote is the fee that `createIntent` asks for, and the suggestion covers it.
fees_agree :
    (amount hundredths : ℕ)
    → calculate_fast_protocol_fee amount hundredths ≡ protocol_fee amount hundredths
unfolding calculate_fast_protocol_fee protocol_fee
fees_agree amount hundredths = ground arith

suggestion_covers : (fee : ℕ) → fee ≤ calculate_fast_max_fee fee
unfolding calculate_fast_max_fee
suggestion_covers fee = ground arith

-- What is true of a quote.
pub record IsQuote (answers : FastAnswers) (q : Quote) : Type 0 where
  pub fee_bounded : q.max_fee_suggested ≤ q.amount
  pub covers : q.protocol_fee ≤ q.max_fee_suggested
  pub splits : q.receive_amount + q.protocol_fee ≡ q.amount
  pub accepted : q.fast ≡ true → assert_fast_ready q.amount q.max_fee_suggested answers ≡ done tt

-- Where Circle names one fast entry, the fee of the route is that of the first fast entry.
one_fast :
    (source_domain destination_domain : ℕ) (answers : FastAnswers)
    → count is_fast_entry answers.fees ≤ 1
    → route_fee source_domain destination_domain answers ≡ first_fee answers
unfolding route_fee first_fee
one_fast s d answers one = elim (Option-cases (find (is_route_entry s d) answers.fees)) [
  | inl other ↦ ground arith
  | inr (entry, found) ↦
      let first : find is_fast_entry answers.fees ≡ some entry =
        find-and is_fast_entry
          (λ e. is_number s e.source_domain && is_number d e.destination_domain) answers.fees one
          found in
      ground arith
]

ready :
    (s d amount hundredths allowance : ℕ) (answers : FastAnswers)
    → count is_fast_entry answers.fees ≤ 1
    → fast_fee s d answers ≡ done hundredths
    → fast_allowance answers ≡ done allowance
    → ltb allowance amount ≡ false
    → assert_fast_ready amount
        (calculate_fast_max_fee (calculate_fast_protocol_fee amount hundredths))
        answers
      ≡ done tt
unfolding assert_fast_ready fast_fee fast_allowance
ready s d amount hundredths allowance answers one fee allowed enough =
    let agree = one_fast s d answers one in
    elim (Option-cases (first_fee answers)) [
      | inl unknown ↦ ground arith
      | inr (x, known) ↦ elim (Option-cases answers.allowance) [
        | inl unknown ↦ ground arith
        | inr (text, given) ↦ elim (Bool-cases (is_units_text (trim text))) [
          | inr other ↦ ground arith
          | inl number ↦ ground (
            arith,
            fees_agree amount hundredths,
            suggestion_covers (calculate_fast_protocol_fee amount hundredths),
          )
        ]
      ]
    ]

fast_quote-IsQuote :
    (source destination : Chain) (threshold amount : ℕ) (answers : FastAnswers) (q : Quote)
    → count is_fast_entry answers.fees ≤ 1
    → fast_quote source destination threshold amount answers ≡ done q
    → IsQuote answers q
unfolding fast_quote
fast_quote-IsQuote source destination threshold amount answers q one h =
    returned (fast_fee source.domain destination.domain answers) _ h (λ hundredths fee h1.
      let charge = calculate_fast_protocol_fee amount hundredths in
      not_refused (ltb amount (calculate_fast_max_fee charge)) fast_unavailable _ h1 (λ bounded h2.
        returned (fast_allowance answers) _ h2 (λ allowance allowed h3.
          not_refused (ltb allowance amount) fast_unavailable _ h3 (λ enough h4.
            carry (IsQuote answers) h4 (record {
              fee_bounded = ground arith;
              covers = suggestion_covers charge;
              splits = ground (arith, suggestion_covers charge);
              accepted = λ fast.
                  ready source.domain destination.domain amount hundredths allowance answers one fee
                    allowed enough;
            })))))

by_mode :
    (source destination : Chain) (threshold amount : ℕ) (answers : FastAnswers) (fast : Bool)
    (q : Quote)
    → count is_fast_entry answers.fees ≤ 1
    → (if fast
        then fast_quote source destination threshold amount answers
        else done (standard_quote source.code destination.code threshold amount))
      ≡ done q
    → IsQuote answers q
by_mode s d threshold amount answers true q one h =
    fast_quote-IsQuote s d threshold amount answers q one h
by_mode s d threshold amount answers false q one h = carry (IsQuote answers) h (record {
  fee_bounded = omega arith;
  covers = omega arith;
  splits = omega arith;
  accepted = λ fast. cc;
})

-- A quote that is given on an answer of Circle with at most one fast entry suggests a fee within the
-- amount that covers Circle's fee; what is received and the fee make up the amount; and a fast quote
-- passes the fee and allowance checks of `createIntent` while Circle answers the same.
pub quote-IsQuote :
    (source_code destination_code amount : String) (answers : FastAnswers) (q : Quote)
    → count is_fast_entry answers.fees ≤ 1
    → quote source_code destination_code amount answers ≡ done q
    → IsQuote answers q
unfolding quote
quote-IsQuote source_code destination_code amount answers q one h =
    returned (get_bridge_chain source_code) _ h (λ source s h1.
      returned (get_bridge_chain destination_code) _ h1 (λ destination d h2.
        not_refused (not (is_canonical amount)) quote_unavailable _ h2 (λ number h3.
          not_refused (decimal amount == 0) quote_unavailable _ h3 (λ positive h4.
            returned (is_fast source.code) _ h4 (λ fast f h5.
              returned (get_bridge_finality_threshold source.code) _ h5 (λ threshold t h6.
                by_mode source destination threshold (decimal amount) answers fast q one h6))))))
