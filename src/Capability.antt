-- ===== src/Capability.antt =====
-- apps/backend/src/capabilities/capability.service.ts: the checks that a feature is on.
use wizpay_core.Prelude.{
  String, Bool, true, false, not, if◌then◌else◌, List, [], ◌∷◌, Option, none, some, any, or_else,
}
use wizpay_core.Prelude.Text.{same, truthy, or_empty}
use wizpay_core.Prelude.Outcome.{Outcome, done, threw, Error, rejected, unavailable}
use wizpay_core.Prelude.Throwing.{◌>>=◌, ◌>>◌, refuse_if}
use wizpay_core.Task.{Recipient, Payload}
use wizpay_core.Routing.{
  Config, Operation, send, payroll, invoice, payment_link, Kind, direct_transfer, Decision,
  is_enabled, assert_executable, decide,
}

abbrev pub unknown_capability : Error
unknown_capability = rejected "UNKNOWN_CAPABILITY"

abbrev pub disabled : Error
disabled = unavailable "CAPABILITY_DISABLED"

abbrev pub context_required : Error
context_required = rejected "CAPABILITY_CONTEXT_REQUIRED"

-- ARC_CAPABILITY_NAMES
abbrev pub arc_capability_names : List String
arc_capability_names =
    "send" ∷ "sameTokenPayroll" ∷ "invoice" ∷ "paymentLink" ∷ "liquidity" ∷ "bridge" ∷ "swap"
    ∷ "crossTokenPayroll" ∷ "crossTokenInvoice" ∷ "nanoAgentApi" ∷ []

abbrev direct_capability : Operation → String
direct_capability send = "send"
direct_capability payroll = "sameTokenPayroll"
direct_capability invoice = "invoice"
direct_capability payment_link = "paymentLink"

abbrev is_direct : Kind → Bool
is_direct direct_transfer = true
is_direct kind = false

module _ (config : Config) where
  unfoldable pub assert_ : String → Outcome (Unit {0})
  assert_ name = do
    refuse_if (not (any (same name) arc_capability_names)) unknown_capability
    refuse_if (not (is_enabled config name)) disabled

  unfoldable pub assert_payment_decision : Decision → Outcome (Unit {0})
  unfolding assert_
  assert_payment_decision decision = do
    assert_executable decision
    if is_direct decision.kind then assert_ (direct_capability decision.operation) else done tt

  -- One turn of the loop of `assertPayroll`. A recipient that is no object is `none`.
  unfoldable pub assert_recipient : String → Option Recipient → Outcome (Unit {0})
  assert_recipient source none = threw context_required
  assert_recipient source (some recipient) =
      let target = or_else recipient.target_token_address (some source) in
      if not (truthy target)
      then threw context_required
      else decide config config.network payroll source (or_empty target) >>= λ decision.
          assert_payment_decision decision

  abbrev assert_recipients : String → List (Option Recipient) → Outcome (Unit {0})
  assert_recipients source [] = done tt
  assert_recipients source (r ∷ rs) = assert_recipient source r >> assert_recipients source rs

  unfoldable pub assert_payroll : Payload → Outcome (Unit {0})
  assert_payroll payload = elim payload.recipients [
    | [] ↦ threw context_required
    | r ∷ rs ↦
        if not (truthy payload.source_token_address)
        then threw context_required
        else assert_recipients (or_empty payload.source_token_address) (r ∷ rs)
  ]
