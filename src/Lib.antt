-- ===== src/Lib.antt =====
-- The backend of WizPay Core: payments in USDC and EURC on Arc Mainnet that the user's own wallet
-- signs. The backend prepares a payment, records what the wallet has submitted, and verifies it.
--
-- The parts, and the files that model them (paths below apps/backend/src):
-- - Prelude (and Prelude/...): shared names; tests on numbers and texts; tables as lists of rows, with
--   the lemmas on searches, writes and counts; handlers, which pass a state on and return or throw.
-- - Chain: common/multichain.ts, which texts are addresses, hashes and signatures. The regular
--   expressions are tests on characters.
-- - Task: the tables of the task engine. Task/Lifecycle: task/task.service.ts and
--   task/task-log.service.ts (updateStatus, isValidTransition, tryPickupForExecution, logStep). Task/Units:
--   task/task-unit.service.ts (reportUnit, a database transaction). Task/Transactions:
--   task/task-transaction.service.ts.
-- - Poller: queue/processors/transaction-poller.service.ts (poll, checkAndFinalizeTask). Poller/Loop runs
--   the queue of polls, as queue/processors/tx-poll.processor.ts does, which swallows what a poll throws.
-- - Orchestrator: orchestrator/orchestrator.service.ts (executeTask), which moves a task through
--   Task/Lifecycle around the run of an agent, after the check of Capability.
-- - Routing: routing/payment-routing.service.ts (decide, canonicalToken, assertExecutable). Capability:
--   capabilities/capability.service.ts (assert, assertPayroll), with the names of packages/arc-network/index.js.
--   Invoice/Configuration fills with both the interface of checks that the invoices use.
-- - Payroll: agents/payroll/payroll-batch.service.ts (splitIntoBatches, calculateTotals,
--   calculateApprovalRequirement) and payrollSameTokenApprovalAmountWithFee of task/task.service.ts.
-- - Intent: execution-intent/execution-intent.service.ts, one module per group of operations: Intent/Service
--   (get, transition, beginVerification, the lease), Intent/Binding (context and correlation),
--   Intent/Submission (the hash, cancellation, completion). Intent/Interleaving is the table's row under
--   requests that run at the same time: one step for each `updateMany`, under its own `where`.
--   Intent/Refinement relates the handlers to these steps.
-- - Swap: user-swap/mainnet-uniswap-v4-protocol.ts. Swap/Quote: applySlippage, calculateMinHopPriceX36,
--   validateQuoteObservation. Swap/Receipt: verifySwapReceipt.
--
-- - Bridge: the transfers over Circle's CCTP. Bridge/Registry: packages/bridge-registry/index.js (below the
--   repository's root). Bridge/Message: bridge/bridge-message.ts, by the offsets of the fields; Bridge/Message/Encoding
--   is Circle's layout of a message. The others: bridge/bridge-lifecycle.service.ts, Bridge/Creation (createIntent),
--   Bridge/Reports (reportApproval, reportSource, reportDestination, getIntent), Bridge/Attestation
--   (refreshAttestation), Bridge/Destination (authorizeDestination, submitDestination, verifyDestination),
--   Bridge/Evidence (the tests on messages and logs). Bridge/Steps has the writes to a row, Bridge/Refinement
--   that the operations make no others. Bridge/Quote: bridge/bridge-quote.service.ts.
-- - Invoice: invoice/invoice.service.ts. Invoice/Service (create, getOwned, cancel, getPublic, expireOpenInvoices,
--   toPublic; the merchant's view is the public one), Invoice/Settlement (verifyPublicPayment, which calls Intent).
--   Invoice/Verifier: invoice/invoice-payment-verifier.service.ts, and Invoice/Payoff the two together.
--   Invoice/Evolution is what a handler may do to the tables, Invoice/History the requests one after the other.
--
-- The database is a record of lists of rows; a write goes to every row that meets its `where`. A row
-- keeps the columns that the code tests or writes by a rule; free-form JSON, messages and dates that are
-- only stored are left out. A service method is a handler of the same name on this state; what it writes
-- before a throw stays written, except in `atomic`. Error messages are left out, error codes are kept.
--
-- Amounts are natural numbers (`bigint` that the code keeps positive). A basis-point number that is no
-- integer, which applySlippage refuses, has no counterpart here.
--
-- Parameters: the network of the runtime; `toLowerCase`, `BigInt` and `toString`; of the library viem
-- `getAddress`, `isAddress`, `isAddressEqual`, and the answer of `decodeEventLog` with each log; the
-- receipts that the chain gives; the agents that the orchestrator calls, and the capabilities and tokens that are
-- configured; for the bridge `isHex`, `keccak256`, the answers of Circle (of a fee entry, its fields as `Number`
-- reads them, the fee in hundredths of a basis point) and of the readers of the other chains, and the configured
-- networks; for the invoices `parseUnits` and what the chain's provider answers, with the identifiers that are drawn, taken to be new. The operations of the bridge
-- read and then write a row; they are taken one after the other.
--
-- Fuel: chunks takes the number of recipients, of which every round uses one at least. run_queue
-- takes the number of polls that are run: more than 180 less those already made are enough.
-- bind_transaction_hash takes the number of its calls of itself, one for each time that another request
-- binds the hash between its read and its write; without other requests one is enough.
--
-- Not modelled: the creation of tasks and of intents, the capability checks of wallet calls, and the list of
-- invoices, which are to follow; the frontend, the packages, the contracts and the generated interfaces; controllers,
-- configuration, queues and clients of other services, which only pass values on.
pub mod Prelude
pub mod Bridge
pub mod Chain
pub mod Intent
pub mod Invoice
pub mod Payroll
pub mod Task
pub mod Poller
pub mod Routing
pub mod Capability
pub mod Orchestrator
pub mod Swap
