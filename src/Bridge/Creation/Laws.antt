-- ===== src/Bridge/Creation/Laws.antt =====
-- What the checks of `createIntent` of bridge-lifecycle.service.ts establish.
use wizpay_core.Prelude.{
  ℕ, ◌*◌, ◌≤◌, ◌<◌, ◌≡◌, sym, subst, ◌∙◌, ap, inl, inr, String, Bool, true, false, not, ◌&&◌, ◌||◌,
  some, arith, if◌then◌else◌, Bool-cases, Option-cases, find_sound, ltb, ◌==◌, find,
}
use wizpay_core.Prelude.Text.{same, same_iff}
use wizpay_core.Prelude.Outcome.{Outcome, done, threw, protocol, Outcome-cases}
use wizpay_core.Prelude.Throwing.{returned, not_refused}
use wizpay_core.Chain.{trim}
use wizpay_core.Bridge.{Runtime}
use wizpay_core.Bridge.Registry.{
  Chain, bridge_chains, get_bridge_chain, is_fast, get_bridge_finality_threshold,
  assert_bridge_route, max_burn_amount_units, fast_finality_threshold, standard_finality_threshold,
}
use wizpay_core.Bridge.Creation.Input.{
  CreateInput, FastAnswers, first_fee, Accepted, protocol_fee, assert_fast_ready, is_canonical,
  decimal, read_amount, allowance_subunits, read_address, route, check_input, invalid_request,
  transfer_mode_mismatch,
}

-- The fee of a fast transfer is the least number of units that is at least the amount's part:
-- `hundredths` hundredths of a basis point.
pub protocol_fee_least :
    (amount hundredths : ℕ)
    → (amount * hundredths ≤ protocol_fee amount hundredths * 1000000)
      × ((fee : ℕ) → amount * hundredths ≤ fee * 1000000 → protocol_fee amount hundredths ≤ fee)
unfolding protocol_fee
protocol_fee_least amount hundredths = (ground arith, λ fee h. ground arith)

pub get_bridge_chain-code :
    (code : String) (c : Chain) → get_bridge_chain code ≡ done c → c.code ≡ code
unfolding get_bridge_chain
get_bridge_chain-code code c h = elim (Option-cases (find (λ x. same x.code code) bridge_chains)) [
  | inl missing ↦ ground arith
  | inr (x, found) ↦
      ground (arith, find_sound (λ x. same x.code code) bridge_chains found, same_iff x.code code)
]

-- The last part of `assertBridgeRoute`.
abbrev choice : Chain → Chain → Outcome (Chain × Chain)
choice s d =
    if same s.code d.code
    then threw (protocol "BRIDGE_ROUTE_SAME_CHAIN")
    else if not (same s.code "ARC-MAINNET") && not (same d.code "ARC-MAINNET")
    then threw (protocol "BRIDGE_ROUTE_NOT_ARC")
    else done (s, d)

chosen :
    (s d source destination : Chain)
    → choice s d ≡ done (source, destination)
    → (s ≡ source)
      × (d ≡ destination)
      × (same s.code d.code ≡ false)
      × ((same s.code "ARC-MAINNET" || same d.code "ARC-MAINNET") ≡ true)
chosen s d source destination h = elim (Bool-cases (same s.code d.code)) [
  | inl equal ↦ ground arith
  | inr apart ↦ elim (Bool-cases (same s.code "ARC-MAINNET" || same d.code "ARC-MAINNET")) [
    | inr away ↦ ground arith
    | inl arc ↦ (ground arith, ground arith, apart, arc)
  ]
]

-- A route that is accepted joins two different chains of the registry, of which one is Arc Mainnet.
pub assert_bridge_route_sound :
    (source_code destination_code : String) (source destination : Chain)
    → assert_bridge_route source_code destination_code ≡ done (source, destination)
    → (get_bridge_chain source_code ≡ done source)
      × (get_bridge_chain destination_code ≡ done destination)
      × (same source.code destination.code ≡ false)
      × ((same source.code "ARC-MAINNET" || same destination.code "ARC-MAINNET") ≡ true)
unfolding assert_bridge_route
assert_bridge_route_sound a b source destination h = elim (Outcome-cases (get_bridge_chain a)) [
  | inr (e, unknown) ↦ ground arith
  | inl (s, known) ↦ elim (Outcome-cases (get_bridge_chain b)) [
    | inr (e, unknown) ↦ ground arith
    | inl (d, known') ↦
        let (p, q, apart, arc) = chosen s d source destination (ground arith) in
        (known ∙ ap done p, known' ∙ ap done q, rw (sym p, sym q) apart, rw (sym p, sym q) arc)
  ]
]

read_amount-le :
    (value : String) (n : ℕ)
    → read_amount value ≡ done n
    → (n ≤ max_burn_amount_units) × (n ≡ decimal value)
unfolding read_amount
read_amount-le value n h = elim (Bool-cases (is_canonical value)) [
  | inr other ↦ ground arith
  | inl number ↦ elim (Bool-cases (ltb max_burn_amount_units (decimal value))) [
    | inl above ↦ ground arith
    | inr within ↦ (ground arith, ground arith)
  ]
]

-- Circle's answers that let a fast transfer pass.
pub record IsFastReady (answers : FastAnswers) (amount max_fee : ℕ) : Type 0 where
  pub hundredths : ℕ
  pub is_fee : first_fee answers ≡ some hundredths
  pub covered : amount * hundredths ≤ max_fee * 1000000
  pub allowance : String
  pub is_allowance : answers.allowance ≡ some allowance
  pub allowed : amount ≤ allowance_subunits (trim allowance)

assert_fast_ready_sound :
    (amount max_fee : ℕ) (answers : FastAnswers)
    → assert_fast_ready amount max_fee answers ≡ done tt
    → IsFastReady answers amount max_fee
unfolding assert_fast_ready
assert_fast_ready_sound amount max_fee answers h = elim (Option-cases (first_fee answers)) [
  | inl unknown ↦ ground arith
  | inr (hundredths, known) ↦ elim (Bool-cases (ltb max_fee (protocol_fee amount hundredths))) [
    | inl low ↦ ground arith
    | inr high ↦ elim (Option-cases answers.allowance) [
      | inl unknown ↦ ground arith
      | inr (text, given) ↦ record {
        hundredths = hundredths;
        is_fee = known;
        covered = ground (arith, (protocol_fee_least amount hundredths).0);
        allowance = text;
        is_allowance = given;
        allowed = ground arith;
      }
    ]
  ]
]

mode :
    (code : String) (source : Chain) (threshold : ℕ)
    → get_bridge_chain code ≡ done source
    → get_bridge_finality_threshold source.code ≡ done threshold
    → (threshold ≡ (
        if source.fast_transfer_source
        then fast_finality_threshold
        else standard_finality_threshold))
      × (is_fast source.code ≡ done source.fast_transfer_source)
unfolding get_bridge_finality_threshold is_fast
mode code source threshold known h =
    let again : get_bridge_chain source.code ≡ done source =
      ap get_bridge_chain (get_bridge_chain-code code source known) ∙ known in
    (ground arith, ground arith)

-- What is true of the terms that `createIntent` accepts.
pub record IsAccepted (input : CreateInput) (answers : FastAnswers) (a : Accepted) : Type 0 where
  pub source_known : get_bridge_chain input.source_code ≡ done a.source
  pub destination_known : get_bridge_chain input.destination_code ≡ done a.destination
  pub apart : same a.source.code a.destination.code ≡ false
  pub through_arc :
      (same a.source.code "ARC-MAINNET" || same a.destination.code "ARC-MAINNET") ≡ true
  pub amount_read : a.amount ≡ decimal input.amount
  pub positive : 0 < a.amount
  pub bounded : a.amount ≤ max_burn_amount_units
  pub fee_bounded : a.max_fee ≤ a.amount
  pub threshold_asked : a.threshold ≡ input.min_finality_threshold
  pub mode : a.threshold ≡ (
      if a.source.fast_transfer_source
      then fast_finality_threshold
      else standard_finality_threshold)
  pub fast_ready : a.source.fast_transfer_source ≡ true → IsFastReady answers a.amount a.max_fee

routed-ends :
    (a b : String) (ends : Chain × Chain)
    → route a b ≡ done ends
    → assert_bridge_route a b ≡ done ends
unfolding route
routed-ends a b ends h = elim (Outcome-cases (assert_bridge_route a b)) [
  | inr (e, refused) ↦ ground arith
  | inl (x, found) ↦ ground arith
]

terms-IsAccepted :
    (input : CreateInput) (answers : FastAnswers) (ends : Chain × Chain) (wallet recipient : String)
    (amount max_fee threshold : ℕ) (fast : Bool)
    → route input.source_code input.destination_code ≡ done ends
    → read_amount input.amount ≡ done amount
    → amount == 0 ≡ false
    → ltb amount max_fee ≡ false
    → get_bridge_finality_threshold (ends.0).code ≡ done threshold
    → not (input.min_finality_threshold == threshold) ≡ false
    → is_fast (ends.0).code ≡ done fast
    → (fast ≡ true → assert_fast_ready amount max_fee answers ≡ done tt)
    → IsAccepted input answers (record {
      source = ends.0;
      destination = ends.1;
      wallet_address = wallet;
      recipient_address = recipient;
      amount = amount;
      max_fee = max_fee;
      threshold = threshold;
    })
terms-IsAccepted input answers ends wallet recipient amount max_fee threshold fast routed am
      positive fee_bounded th asked f ready =
    let (s, d, apart, arc) =
      assert_bridge_route_sound input.source_code input.destination_code ends.0 ends.1
        (routed-ends input.source_code input.destination_code ends routed) in
    let (within, reads) = read_amount-le input.amount amount am in
    let (moded, fast_is) = mode input.source_code ends.0 threshold s th in
    record {
      source_known = s;
      destination_known = d;
      apart = apart;
      through_arc = arc;
      amount_read = reads;
      positive = ground arith;
      bounded = within;
      fee_bounded = ground arith;
      threshold_asked = ground arith;
      mode = moded;
      fast_ready = λ h. assert_fast_ready_sound amount max_fee answers (ready (ground arith));
    }

-- The terms that `createIntent` accepts: two different chains of the registry, of which one is Arc
-- Mainnet; a positive amount within the limit of one transfer, and a fee limit within the amount; the
-- threshold of the source chain's mode; in the fast mode a fee limit that covers Circle's fee, and
-- Circle's allowance for the amount.
pub check_input_sound :
    (env : Runtime) (input : CreateInput) (answers : FastAnswers) (a : Accepted)
    → check_input env input answers ≡ done a
    → IsAccepted input answers a
unfolding check_input
check_input_sound env input answers a h =
    returned (route input.source_code input.destination_code) _ h (λ ends routed h1.
      returned (read_address env input.wallet_address) _ h1 (λ wallet w h2.
        returned (read_address env input.recipient_address) _ h2 (λ recipient r h3.
          returned (read_amount input.amount) _ h3 (λ amount am h4.
            returned (read_amount input.max_fee) _ h4 (λ max_fee mf h5.
              not_refused (amount == 0) invalid_request _ h5 (λ positive h6.
                not_refused (ltb amount max_fee) invalid_request _ h6 (λ fee_bounded h7.
                  returned (get_bridge_finality_threshold (ends.0).code) _ h7 (λ threshold th h8.
                    not_refused (not (input.min_finality_threshold == threshold))
                      transfer_mode_mismatch _ h8
                      (λ asked h9. returned (is_fast (ends.0).code) _ h9 (λ fast f h10.
                        returned
                          (if fast then assert_fast_ready amount max_fee answers else done tt) _ h10
                          (λ ready_ ready h11. subst (IsAccepted input answers) (ground arith) (
                            terms-IsAccepted input answers ends wallet recipient amount max_fee
                              threshold fast routed am positive fee_bounded th asked f
                              (λ on. ground arith)))))))))))))
