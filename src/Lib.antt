-- ===== src/Lib.antt =====
-- Wyrtloom: the kernel's trust and task-board core and the plugins that stand on it.
--
-- The program's parts and how they interact. Agents and people work on tasks that move over a
-- Kanban board. The board's contract (crates/core/src/kanban.rs) fixes the states and the legal
-- moves; the SQLite board (crates/plugin-kanban-sqlite) keeps the tasks and their history in two
-- tables. The security module (crates/core/src/security.rs) is the root of trust: it verifies the
-- manifests of plugins against the operator's policy, issues and revokes stamps, and keeps a
-- chained audit log. The gate engine (crates/plugin-gate-engine) issues approval tokens, which are
-- stamps over a canonical encoding (crates/core/src/canon.rs), and redeems them for transitions of
-- the board, with every decision logged. The withdrawal scheduler
-- (crates/plugin-withdrawal-scheduler) plans the sessions in which a person works without the
-- agent; the rotation scheduler (crates/plugin-rotation-scheduler) gives the roles of a work item
-- to actors, and emits the hand-offs as agent messages (crates/core/src/agent.rs). The interest
-- router (crates/plugin-interest-router) derives from those messages what a person should look at.
-- The probe ladder (crates/plugin-probe-ladder) chooses and grades probes of concepts that the
-- coverage map (crates/plugin-coverage-map) says nobody holds; the calibration ledger
-- (crates/plugin-calibration-ledger) keeps the outcomes, and the rationale ledger
-- (crates/plugin-rationale-ledger) the decisions; these three plugins each have a SQLite store of
-- their own, as have the insight artifacts (crates/plugin-insight-artifact) and the call logger
-- (crates/plugin-logger-sqlite). The start-up sequence (crates/core/src/bootstrap.rs) makes the
-- security module, checks and verifies the registered plugins (crates/core/src/plugin.rs), and
-- publishes to the first bus (crates/core/src/bus.rs). The workflow profile
-- (crates/plugin-workflow-profile) is the document that declares the board's columns and gates,
-- and the digest generator (crates/plugin-digest-generator) makes the lesson of a gate, with a
-- provider (crates/core/src/provider.rs) for its text, such as Ollama
-- (crates/plugin-provider-ollama). The hunt harness (crates/plugin-hunt-harness) runs people's
-- breaking tests of agents' work in the sandbox (crates/core/src/sandbox.rs), and the mastery
-- policy (crates/plugin-mastery-policy) is the document that sets how people practise. The
-- binary's pipeline (src/pipeline.rs) takes one task through the board, the provider, the call log
-- and a person (crates/core/src/escalation.rs).
--
-- Where each part is modelled:
--   Base        names that all share, Boolean tests, lists measured by native numbers, UTF-8
--   Kanban      the contract's data and `is_legal_transition`
--   Sqlite      the board: `Store` has the tables, the transactions and the monad of fallible
--               statements, `Read` and `Write` the operations in the source's words; `Sample` is a
--               small board, and the other children are proofs, named for what they prove
--   Canon       `CanonicalEncoder`, and `canonical_request` of crates/core/src/client_auth.rs
--   Security    `Policy` has manifests and the policy's checks, `Audit` the module's state and its
--               methods, `Detail` the texts of its entries, `Reload` the opening of an audit
--               file; `Interleaved` has the steps of callers at once and a proof, and `Chain`, `Tamper`,
--               `Stamps`, `Compare`, `Decisions` and `Restart` are proofs
--   Plugins     the registry and the contract versions
--   Bootstrap   `run`; `Admission` is a proof
--   Gate        tokens, their messages, `issue_token`, `validate`, `guarded_transition`; `Board` puts
--               the SQLite board under the engine
--   Withdrawal  policies, intervals, plans, solo flights
--   Agent       messages between agents and `validate`
--   Rotation    `RotationPolicy`, `assign`, `handoffs`; `Filling` and `Handoffs` are proofs
--   Interest    `derive_signals`, `route`, `resolve`; `Maps` and `Signals` are proofs
--   Probe       `grade_probe`, `select_probes`, and the ladder's `run_probe`; `Selection` and `Staircase`
--               are proofs
--   Hunt        `run`, `credit_coverage`, `escalate`; `Fair` is a proof
--   Mastery     `MasteryPolicy`, `validate`, `from_json`; `Valid` is a proof
--   Profile     `TaskProfile` of crates/core/src/profile.rs
--   Workflow    `WorkflowProfile`, `validate`, `from_json`; `Valid` and `Gates` are proofs
--   Provider    `GenerationRequest`, `GenerationResponse`, and the trait `LlmProvider` as a record
--   Ollama      `OllamaProvider`; `Answers` and `Addresses` are proofs
--   Digest      `DigestGenerator::generate`; `Admitted` and `Fading` are proofs
--   Terminal    `strip_control` of crates/core/src/util.rs
--   Pipeline    `run` of src/pipeline.rs; `Sessions` is a proof
--   F64         the operations on doubles that the code uses, as a parameter
--   Db          one connection of the five stores, the laws of computations that read it or write to
--               it once, and of the errors that they answer with
--   Coverage    `CoverageMap`; `Links`, `Dark`, `Histories` and `Orphans` are proofs
--   Rationale   `SqliteRationaleLedger`; `Rows`, `Appending` and `Reading` are proofs
--   Insight     `SqliteInsightStore`; `Rows` and `Superseding` are proofs
--   Logger      `SqliteCallLogger`; `Recall` is a proof
--   Calibration `BktParams` and `CalibrationLedger`; `Events` and `Replay` are proofs
--
-- How state is modelled. A method of a locked object is a function on the object's state, since
-- the lock admits one caller at a time; an interleaving is a list of calls. The exception is
-- `SecurityModule::audit`, which takes three locks one after the other: it is three functions, of
-- which `audit` is the composition for a caller that no other interrupts, and
-- `Security.Interleaved` has the step relation of callers that run at once. Its writes to the file
-- may stop short, by a script. The SQLite connection holds the tables, the tables as they stood
-- when the open transaction began, and a script of the refusals that SQLite is going to answer, so
-- that every statement, `BEGIN` and `COMMIT` included, may fail. The five stores of `Db` run
-- single statements, each committed at once, and the script says for each whether it is refused;
-- their query is the function from the tables to the rows that it selects. The time that
-- `Timestamp::now` reads and the ids that `Uuid::new_v4` draws are arguments.
--
-- What stands for other code. `Sqlite.Store.Codec` is the text form of ids, lists, block reasons
-- and times (uuid, serde_json, chrono); `Security.Audit.Crypto` is HMAC, SHA-256 and the JSON form
-- of a decision, with core's formatting of numbers and quoted texts; `Withdrawal.Calendar` is
-- chrono's arithmetic of days; `Db.Rfc3339`, `Rationale.IdText` and `Calibration.Calendar` are the
-- texts of times and ids in the stores of `Db`, `Db.Json` is serde_json on one type, and
-- `Security.Reload.Reader` the reading of the lines of an audit file. Their laws are named fields.
-- `Hunt.Sandbox` is the sandbox's contract, and serde_json's parser of a policy or of a workflow
-- profile is an argument of its `from_json`. `Bootstrap.Channel` is tokio's broadcast channel.
-- `F64` is the type of doubles, of whose rounding nothing is assumed. The traits `KanbanBoard` and
-- `CallLogger` are records that the gate engine takes as arguments, and `LlmProvider` one that the
-- digest generator takes. `Pipeline.World` is what the parts that the pipeline calls answer, each
-- as a function of the calls made so far, and `Pipeline.Texts` serde_json's reading of the model's
-- object and the texts of errors. `Ollama.Client`, `Ollama.Urls` and `Ollama.Serde` are reqwest,
-- url and serde_json.
--
-- Numbers. A `u32` or `u64` is a number below its bound, with saturation written out where the source
-- saturates; a length that is written as eight bytes is below 2 ^ 64, as a hypothesis. No definition
-- takes fuel: every loop is structural in a list or a count.
--
-- Not modelled: the sandbox behind its contract, the message bus after the start,
-- the document store's contract, users, the command line, and the binary's wiring.
pub mod Base
pub mod Kanban
pub mod Canon
pub mod Security
pub mod Sqlite
pub mod Withdrawal
pub mod Gate
pub mod F64
pub mod Probe
pub mod Agent
pub mod Rotation
pub mod Interest
pub mod Db
pub mod Coverage
pub mod Rationale
pub mod Calibration
pub mod Hunt
pub mod Mastery
pub mod Profile
pub mod Workflow
pub mod Provider
pub mod Digest
pub mod Insight
pub mod Plugins
pub mod Bootstrap
pub mod Logger
pub mod Pipeline
pub mod Ollama
pub mod Terminal
