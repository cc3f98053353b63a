-- ===== src/Swap/Quote/Laws.antt =====
-- What a quote that passes the checks guarantees.
use wizpay_core.Prelude.{
  ℕ, ◌+◌, ◌-◌, ◌*◌, ◌/◌, ◌≤◌, ◌<◌, ◌≡◌, inl, inr, true, ◌&&◌, arith, Bool-cases,
}
use native.Mathlib.Nat.{mul-le-mul_left, div-mul-le_self, lt-div-mul-add}
use wizpay_core.Prelude.Outcome.{done, Outcome-cases}
use wizpay_core.Swap.{Viem}
use wizpay_core.Swap.Quote.{
  apply_slippage, calculate_min_hop_price_x36, x36, Request, Observation, ValidatedQuote,
  observation_matches, validate_quote_observation, zero_for_one_from_tokens, require_canonical_uint,
  is_canonical_uint,
}

kept_le : (amount_out slippage_bps : ℕ) → amount_out * (10000 - slippage_bps) ≤ amount_out * 10000
kept_le amount_out slippage_bps =
    mul-le-mul_left amount_out (let le : 10000 - slippage_bps ≤ 10000 = omega arith in le)

-- `applySlippage` returns on 1 to 500 basis points alone, and then the largest whole amount that is
-- no more than the quoted amount less the slippage; it is positive, and no more than the quoted one.
pub apply_slippage_bounds :
    (amount_out slippage_bps m : ℕ)
    → apply_slippage amount_out slippage_bps ≡ done m
    → (1 ≤ slippage_bps)
      × (slippage_bps ≤ 500)
      × (m * 10000 ≤ amount_out * (10000 - slippage_bps))
      × (amount_out * (10000 - slippage_bps) < (m + 1) * 10000)
      × (0 < m)
      × (m ≤ amount_out)
unfolding apply_slippage
apply_slippage_bounds amount_out slippage_bps m h = ground (arith, kept_le amount_out slippage_bps)

-- Where `calculateMinHopPriceX36` returns, the input is positive and the slippage 1 to 500 basis
-- points, and the result is the largest whole price in 36 decimals that the quoted output less the
-- slippage pays for the input; it is positive.
pub calculate_min_hop_price_bounds :
    (amount_in amount_out slippage_bps p : ℕ)
    → calculate_min_hop_price_x36 amount_in amount_out slippage_bps ≡ done p
    → (0 < amount_in)
      × (1 ≤ slippage_bps)
      × (slippage_bps ≤ 500)
      × (0 < p)
      × (p * (amount_in * 10000) ≤ amount_out * (10000 - slippage_bps) * x36)
      × (amount_out * (10000 - slippage_bps) * x36 < p * (amount_in * 10000) + amount_in * 10000)
unfolding calculate_min_hop_price_x36
calculate_min_hop_price_bounds amount_in amount_out slippage_bps p h =
    let top : ℕ = amount_out * (10000 - slippage_bps) * x36 in
    let base : ℕ = amount_in * 10000 in
    elim (Outcome-cases (apply_slippage amount_out slippage_bps)) [
      | inr (e, refused) ↦ ground arith
      | inl (m, applied) ↦
          let known = apply_slippage_bounds amount_out slippage_bps m applied in
          let positive : 0 < amount_in = ground arith in
          let is_price : p ≡ top / base = ground arith in
          let p_positive : 0 < p = ground arith in
          (
            positive,
            known.0,
            known.1,
            p_positive,
            rw is_price (div-mul-le_self top base),
            rw is_price (lt-div-mul-add (let b : 0 < base = omega arith in b)),
          )
    ]

-- A quote that `validateQuoteObservation` accepts is for the tokens and the input of the request,
-- swaps USDC for EURC or EURC for USDC, was observed on Arc Mainnet, and its least output is
-- positive, at least the observed output less the request's slippage (in whole units), and at most it.
pub validate_quote_observation_sound :
    (viem : Viem) (request : Request) (o : Observation) (q : ValidatedQuote)
    → validate_quote_observation viem request o ≡ done q
    → (observation_matches viem request o ≡ true)
      × (q.token_in ≡ request.token_in)
      × (q.token_out ≡ request.token_out)
      × (q.amount_in ≡ request.amount_in)
      × (zero_for_one_from_tokens viem request.token_in request.token_out ≡ done q.zero_for_one)
      × (q.amount_out ≡ viem.big_int o.amount_out)
      × (0 < q.min_amount_out)
      × (q.min_amount_out ≤ q.amount_out)
      × (q.amount_out * (10000 - request.slippage_bps) < (q.min_amount_out + 1) * 10000)
unfolding validate_quote_observation require_canonical_uint
validate_quote_observation_sound viem request o q h =
    let out : ℕ = viem.big_int o.amount_out in
    let bps : ℕ = request.slippage_bps in
    elim (Bool-cases (observation_matches viem request o)) [
      | inr no_ ↦ ground arith
      | inl agrees ↦
          elim (Bool-cases (is_canonical_uint o.amount_out && is_canonical_uint o.gas_estimate)) [
            | inr no_ ↦ ground arith
            | inl canonical ↦ elim (Outcome-cases (apply_slippage out bps)) [
              | inr (e, refused) ↦ ground arith
              | inl (m, applied) ↦
                  elim (Outcome-cases (calculate_min_hop_price_x36 request.amount_in out bps)) [
                    | inr (e, refused) ↦ ground arith
                    | inl (p, priced) ↦
                        elim (Outcome-cases
                          (zero_for_one_from_tokens viem request.token_in request.token_out)) [
                            | inr (e, refused) ↦ ground arith
                            | inl (z, pair) ↦
                                let accepted = apply_slippage_bounds out bps m applied in
                                ground (arith, accepted, pair)
                          ]
                  ]
            ]
          ]
    ]
