-- ===== src/Lib.antt =====
-- A model of the services of Autonomous Enterprise, an API for running a company: the code under
-- apps/api/src/modules and apps/api/src/common. Each modelled module keeps its state in the maps of
-- a repository; a service validates a request, reads the maps, throws or writes. The parts do not
-- share state: a workflow calls several services in turn.
--
-- * Shared (with Tests, Effects, Maps, Int, Lists, Sort) holds what the parts share: the action of a
--   service method on its repository (`Action`: a result or an exception, and the state that was
--   written so far), a call of another service on its part of the state (`on_part`), a JavaScript Map
--   as a list of keys and values in insertion order (`Store`), sums over it, signed numbers, and
--   arrays that are searched, written in place or sorted.
-- * Inventory models apps/api/src/modules/inventory: inventory.service.ts in Catalogue (products,
--   warehouses, reorder rules, listings) and Stocks (setStock, checkAvailability, reserveStock,
--   cancelReservation), infrastructure/in-memory-inventory.repository.ts in Repository, domain and dto
--   in Types. Invariant says what holds of a stock record; Reserving, Cancelling, Counting and Traces
--   follow it through the calls; Repeating and Availability relate two calls. Ledger is an abstract
--   specification of the stock keeping, Refining the service's implementation of it.
-- * Finance models apps/api/src/modules/finance: finance.service.ts in Budgets (cost centers, budgets,
--   allocations) and Expenses, infrastructure/in-memory-finance.repository.ts in Repository, domain
--   and dto in Types. Invariant, Allocating, Deciding, Keeping, Traces and Decisions hold the proofs,
--   Funding what a workflow uses of an allocation.
-- * Accounting models apps/api/src/modules/accounting: accounting.service.ts in Journals (chart of
--   accounts, journals) and Invoices (invoices, payments), the in-memory repository in Repository,
--   domain and dto in Types. Settlement, Paying and Closing are about invoices; Balance, Booking and
--   Reversing about journals; Traces about any sequence of calls.
-- * Procurement models apps/api/src/modules/procurement: procurement.service.ts in Requests
--   (suppliers, quotations, purchase requests) and Orders (purchase orders, goods receipts), the
--   in-memory repository in Repository, domain and dto in Types. Ordering and Converting are about
--   createPurchaseOrder, Receiving about receiveGoods, Reapproving about
--   approvePurchaseRequest between two calls of createPurchaseOrder.
-- * Ticketing models apps/api/src/modules/ticketing: ticketing.service.ts in Tickets (tickets,
--   comments, assignments) and Slas, the in-memory repository in Repository, domain and dto in Types.
--   Steps, Writes and Lifecycle are about the status of a ticket under any sequence of calls.
-- * WorkflowTask models apps/api/src/modules/workflow-task: workflow-task.service.ts in Tasks and
--   Attempts (recordAttempt with its circuit breaker, which opens a ticket), the array of the in-memory
--   repository in Tasks; Bounds counts the attempts.
-- * AiBudget models apps/api/src/modules/ai-budget: ai-budget.service.ts in Budgets, Reservations
--   and Breakdown, the arrays of the in-memory repository in Budgets, domain in Types. Limits is about
--   reserveAndRecordUsage, Conserving about getAgentUsageBreakdown.
-- * Sales models apps/api/src/modules/sales: sales.service.ts in Orders (customers, orders) and Leads
--   (status of an order, representatives, leads), the in-memory repositories in Repository, the types
--   of packages/contracts and the dto in Types. Pricing is about the amounts of an order, Steps and
--   Traces about any sequence of calls, Reviving about closeLead on an order of a final status. The reports getSalesRepKpis and getChannelSummary are left out.
-- * Policy models apps/api/src/common/policy, Audit the log of apps/api/src/common/audit, Outbox
--   apps/api/src/modules/workflow/outbox.service.ts over the array of
--   apps/api/src/common/messaging/outbox.persistence.ts, and Conflict
--   apps/api/src/common/orchestration/conflict-resolution.service.ts on audit log and tickets; Severity,
--   Draining and Deciding, below them, hold their proofs.
-- * Workflow models apps/api/src/modules/workflow/purchase-approval.service.ts in PurchaseApproval, on
--   the states of procurement, finance, audit log and outbox together. Approving is about a call that
--   approves, Compensating about one that throws, Repeating about repeated calls and the budgets.
--   apps/api/src/modules/workflow/financial-posting.service.ts is in FinancialPosting, on the states of
--   accounting, tasks with their audit log, and outbox; Postable and Posting say what becomes of the
--   journals.
--   apps/api/src/modules/workflow/replenishment.service.ts is in Replenishment, Replenishing is about
--   the events of its calls.
--
-- A method `fooBar` is the definition `foo_bar`, a field likewise; a class of requests keeps its
-- name. Examples, in each part, runs the theorems on concrete states.
--
-- How the program is read:
-- * A number is an integer count of a smallest unit, so that sums are exact: rounding of binary
--   floating point is not modelled. In accounting the unit is one millionth, which makes the literal
--   0.0001 of the code 100; where an amount lies exactly on that tolerance, rounding decides in the
--   program and the exact value in the model. A confidence and a trust score count thousandths; the
--   clock of deadlines counts milliseconds. An absent number, or one that is not a number, is `none`.
-- * An absent optional text is the empty text; the code treats the two alike.
-- * A method returns the data of its response; the wrapper with success and metadata is left out. An
--   exception keeps its class and the fixed part of its message.
-- * The clock, new identifiers and the JavaScript functions that print a number, round one to two
--   decimals, trim a text or read and print a date are arguments, as are the publisher of events and
--   the message of an exception. That a new identifier is not in use is a hypothesis of
--   the steps that need it.
-- * A call is one step. Interleavings of two calls at their `await`s, the request context and the
--   database adapters are not modelled. The repositories of the modules copy what they store and
--   return, so values stand for objects; where a repository hands out the stored object, of tasks, the
--   methods write each task that they change.
-- * Of an audit entry and of an outbox event the data that they carry, of any type, is left out.
-- * Every loop of the modelled code runs over a list and is recursion on it: there is no fuel.
--
-- Not modelled: the other workflows and the other modules under apps/api/src/modules, the rest of
-- apps/api/src/common, packages and apps/web.
pub mod Shared
pub mod Inventory
pub mod Finance
pub mod Accounting
pub mod Procurement
pub mod Ticketing
pub mod Audit
pub mod WorkflowTask
pub mod Policy
pub mod Outbox
pub mod Workflow
pub mod AiBudget
pub mod Conflict
pub mod Sales
