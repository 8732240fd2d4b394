-- ===== src/Lib.antt =====
-- QuantoraTrade: an antt model of its trading core, and the theorems about it.
--
-- The program is a Python service that turns strategy signals into PAPER orders. The risk layer
-- approves a decision and its assessment as an order intent; the submission service verifies the
-- intent against the stored evidence, claims its idempotency key in a journal, asks the kill switch
-- and calls a broker once. The PAPER broker's adapter fills an order from a quote. The adapter lives
-- in memory; a facade makes it durable by writing every order through a repository to PostgreSQL,
-- where several processes may write. A worker's control starts, stops, halts and recovers the cycle
-- that drives all this; commands for it wait in a queue that several workers may claim from under leases.
-- Fills become positions and an account, a validator judges candles before they are analysed, and
-- samples for research are split in time.
--
-- Files, each with the source that it follows (paths from the repository's root):
--   Prelude              lists, texts, dicts, Boolean tests, and methods that raise and change state
--   Domain               src/quantora_trade/domain/enums.py, the UTC check of domain/models.py there,
--                        and the library calls json.dumps, sha256 and uuid5 as parameters
--   Execution/Models     src/quantora_trade/execution/models.py: each dataclass a record, each
--                        __post_init__ a check
--   Execution/Lifecycle  src/quantora_trade/execution/lifecycle.py: the table ORDER_TRANSITIONS
--   Execution/Paper      src/quantora_trade/execution/paper.py: DeterministicPaperAdapter, a method
--                        a function of the state `Adapter` (the dict of orders and the number of
--                        calls of the clock)
--   Execution/Repository src/quantora_trade/infrastructure/database/order_repository.py: `persist`,
--                        `get` and `_validate` over the rows
--   Execution/Durable    src/quantora_trade/execution/durable.py: DurablePaperAdapter over both
--   Risk/KillSwitch      src/quantora_trade/risk/kill_switch.py: scopes, events, the in-memory
--                        repository and the service
--   Risk/Approval        src/quantora_trade/risk/approval.py: build_approved_order_intent
--   Infrastructure/Journal
--                        src/quantora_trade/infrastructure/database/submission_repository.py: the
--                        claims of PostgresSubmissionJournal, one instance's view
--   Risk/Submission      src/quantora_trade/risk/submission.py: OrderSubmissionService over the
--                        journal, the kill switch and a broker
--   Risk/Decision        src/quantora_trade/risk/decision.py: DecisionEngine.decide
--   Application/Worker   src/quantora_trade/application/paper_worker.py: PaperWorkerControl, over
--                        the transitions of src/quantora_trade/infrastructure/database/
--                        worker_repository.py; Application/Worker/Lease: the workload's lease there
--   Infrastructure/Commands
--                        src/quantora_trade/infrastructure/database/command_repository.py over the
--                        table of command_models.py there: PostgresSystemCommandRepository
--   Market/Quality       src/quantora_trade/market_data/quality.py: MarketDataValidator
--   Application/Consumer src/quantora_trade/application/paper_command_consumer.py: PaperCommandConsumer
--                        over the queue, the control and a workload, which is a parameter
--   Backtesting/Splits   src/quantora_trade/backtesting/splits.py: chronological_split
--   Domain/Orders, Domain/Candles
--                        src/quantora_trade/domain/models.py: decisions, assessments, approved
--                        intents and candles
--   Accounting/Models, Accounting/Ledger
--                        src/quantora_trade/accounting/models.py and service.py there: positions
--                        from fills at average cost, and the account over them
--   Execution/Tests, Risk/Tests, Application/Tests, Accounting/Tests, Market/Tests,
--   Infrastructure/Tests, Backtesting/Tests
--                        concrete inputs; their children have the theorems at these inputs
--
-- Conventions. A method that may raise returns a `Result`, with the state beside it; what it wrote
-- before it raised stays written. An amount of an order is a natural number of units of 10^-12, the
-- scale of its database column, and a commission, a product of two, of 10^-24; the text of an
-- amount is a function of its value, while Python's keeps the exponent. The clock is a function of
-- the number of its call. In the order repository another process's writes are a function `others`
-- that is applied to the rows before each access, so a theorem about every `others` is one about
-- every interleaving of accesses; the journal, the kill switch and the worker's tables are one
-- process's. A call of the command queue or of the workload's lease is one transaction that takes
-- what the caller's clock and its generator of UUIDs return, and a new command the number that the
-- identity column's sequence drew for it, so its theorems hold for any workers with any clocks and
-- for commits in any order of their numbers. Sums and products of the accounts and of the splits
-- are exact; the accounts' division is a parameter, exact or not. The loop of `_mutate` runs its
-- fixed number of attempts by recursion on that number, so no fuel is chosen. The broker, the hash
-- and the UUID functions are parameters.
--
-- Not modelled: SQL and the conversion of rows, the locks of the in-memory classes
-- (persist_transition and submission_guard of the kill switch take one; a call of its service is
-- one step here, with no other call between its accesses), and texts of error messages where they
-- are made of values. The risk engine, the worker's cycle, the bridge from the broker to the
-- adapter, the backtesting engine, the research tools and the web interface are not modelled.
pub mod Prelude
pub mod Domain
pub mod Infrastructure
pub mod Risk
pub mod Execution
pub mod Application
pub mod Accounting
pub mod Market
pub mod Backtesting
