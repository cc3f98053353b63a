-- ===== src/Invoice/Configuration.antt =====
-- The checks that invoice.service.ts makes, by the capability and the routing services.
use wizpay_core.Prelude.{ℕ, String, Option}
use wizpay_core.Prelude.Outcome.{Outcome, done}
use wizpay_core.Prelude.Throwing.{◌>>=◌, ◌>>◌}
use wizpay_core.Routing.{Config, Operation, decide, assert_executable, canonical_token}
use wizpay_core.Capability.{assert_}
use wizpay_core.Invoice.{SettlementKind, invoice, payment_link, Checks}

abbrev operation_of : SettlementKind → Operation
operation_of invoice = Operation.invoice
operation_of payment_link = Operation.payment_link

abbrev capability_of : SettlementKind → String
capability_of invoice = "invoice"
capability_of payment_link = "paymentLink"

module _ (config : Config) where
  unfoldable pub assert_direct : SettlementKind → String → Outcome (Unit {0})
  assert_direct kind token = do
    decision ← decide config config.network (operation_of kind) token token
    assert_executable decision
    done tt

  abbrev pub checks_of : (String → Option ℕ) → (ℕ → String) → Checks
  checks_of parse_units to_text = record {
    capability = λ kind. assert_ config (capability_of kind);
    executable = assert_direct;
    canonical_token = canonical_token config;
    parse_units = parse_units;
    to_text = to_text;
  }
