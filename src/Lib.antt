-- ===== src/Lib.antt =====
-- Verification of the moaray gateway, a Rust proxy in front of language-model upstreams. It
-- authenticates a caller, routes a model name to one upstream (passthrough) or to a recipe (mixture of
-- agents), and keeps each upstream behind a rate limit, a concurrency cap and a circuit breaker that
-- outlive a reload of the configuration.
--
-- The parts, and how they meet:
--   Config    crates/moaray-config: a document is validated into descriptors, the input of all below.
--             Schema and Runtime are the records, Rules and Validate the checks (one function per
--             check of `validate`), Validate/Models, /Governance and /WellFormed the proofs.
--   Core      crates/moaray-core: the error type with its envelope and classifications (Error), the
--             router (Router), usage records and costs (Usage), chat types and providers (Types).
--   Breaker   crates/moaray/src/breaker.rs: a method takes the record under the mutex and gives it back.
--   Limit     crates/moaray/src/limit.rs: token buckets and concurrency caps.
--   State     crates/moaray/src/runtime.rs: one slot for each upstream identity (limiter, cap, breaker)
--             and one bucket for each limited key; what a reload does to them
--             (Reconcile, Slots, Serving, Keys).
--   Governed  crates/moaray/src/governed.rs: a call through a slot: admission, retries, and the guards
--             that report to the breaker on every way out; calls that share a slot (Calls).
--   Registry  crates/moaray/src/registry.rs: governed providers for the configured models, reused from
--             the last build when their signature is the same (Signature has what that says of the model).
--   Reload    crates/moaray/src/reload.rs and the start-up in main.rs: slots, then providers, then the
--             published runtime, then the collection of orphans; a process that does these (FromText),
--             the arms of its recipes (Arms), and what its next reload does (Outcome).
--   Moa       crates/moaray-moa: recipes, the aggregation prompt with its sanitizing (Strategy,
--             Sanitize), one arm (Arm), usage sums (Usage), and a whole run (Orchestrator).
--   Store     crates/moaray-store: a usage record as a row (Row), a batch in one transaction
--             (Database), the channel and the writer thread (Writer, one definition for each part of
--             its loop), the shutdown (Shutdown), the sinks (Sinks). Equations, Run, Kept, Ledger, Idle
--             and Open carry the proofs.
--   Providers crates/moaray-providers: statuses, transport errors and token counts (Status), the
--             request and the response of an Anthropic upstream (Request, Completion), event streams
--             (Sse, with the parser, and Sse/Translate), the two adapters (OpenAi, Anthropic).
--   Auth      crates/moaray/src/auth.rs: SHA-256 (Sha256), the comparison of secrets (Compare), bearer
--             tokens and keys (Bearer), and which key a token stands for (First).
--   Gateway   crates/moaray/src/app.rs: the gates before routing (Gates, Admitted), the handlers
--             (Handlers), the usage rows that they book (Accounting, Booked), the metrics of
--             crates/moaray/src/observe.rs (Metrics), `chat_completions` as a whole (Dispatch), the
--             responses (Replies, which also has crates/moaray/src/http_error.rs).
--   Base      shared names, lists, integers, maps, text and results.
--
-- How code becomes a definition. A struct is a record and an enum a data type with the source's
-- constructors. `Result` with `?` is Base.Result with do. A map is an association list that insertion
-- keeps in key order (Base.Dict). `&mut self` and interior mutability are the state passed and
-- returned. An `Arc` is an address with its value, where the code or a property asks which object it
-- is. A Rust `i64` is an integer with its range proved where it matters; an addition that the code
-- leaves unchecked wraps, as in a release build.
--
-- Time and order are inputs. An instant is a number of nanoseconds (breaker) or milliseconds (arms). A
-- provider's call tells how long it takes when nobody cuts it off; a schedule tells when the arms of a
-- fan-out start and in which order they finish, and the theorems hold for each order. A call that runs
-- out of time ends at its very timeout, which stands as its latency where the code measures how much
-- time has passed. The calls of an upstream interleave at every wait, in any order (Governed.Calls). A reload or a
-- collection holds the reload lock and is one step.
--
-- Parameters, for what is not code of the repository: JSON values (Core.Json), floats, the URL parser
-- and the environment (Config.Rules.Host), the bucket behind a rate limit (Limit.Governor), the SQLite
-- library (Store.Database.Sqlite), the bytes of a text (Auth.Bearer.Text), UTF-8, the derived codecs and
-- the HTTP client (Providers.Wire). Their laws are fields of these records, and the examples instantiate
-- them.
--
-- Loops are structural recursion on the list they run over; the retry loop runs on the number of
-- further attempts that are left. The line loop of the event parser has one round for each byte of the
-- buffer and one more, since every round takes at least a byte off. The padding of SHA-256 has at most 64
-- zeros. The writer thread runs for a given number of steps; a message takes at most three (receive or
-- drain, end of the drain, write), and between two steps senders may do anything (Store.Run).
--
-- Not modelled: the settings of the HTTP client, the recorder of the metrics and the process's signals,
-- which are input and output; the YAML parser, but its defaults are modelled (Config.Defaults).
pub mod Base
pub mod Config
pub mod Core
pub mod Breaker
pub mod Moa
pub mod State
pub mod Governed
pub mod Registry
pub mod Reload
pub mod Gateway
pub mod Limit
pub mod Store
pub mod Providers
pub mod Auth
