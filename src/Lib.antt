-- ===== src/Lib.antt =====
-- A model of the test-case generator of this repository, apps/tg-testcase-generator, and of its
-- theorems. Paths below are relative to apps/tg-testcase-generator/src/tg_testcase.
--
-- A user's task goes from collecting sources to a review, in which requirements, questions, answers,
-- rules, paths and test cases are tied together, and on to generated test cases. The engine changes a
-- task only through the store, which runs an action under the version that the caller saw. Apart from
-- that, a registry keeps the jobs that fetch sources for a task: a job is claimed, fetches, pins a
-- package, submits it, and is committed when a receipt for this package comes. The sources of a
-- finalized batch are leased to workers, their packages are committed, and when none is missing the
-- batch is sealed; then it is leased to a processor, which parses its sources and publishes the results
-- into the task. Messages come with a signed context, and a ledger lets each update through once.
--
--   Prelude    Python's tests, `in`, `any`, dictionaries built from lists, and calls that may raise:
--              `Result E A` is a value or an exception.
--   Task       models.py: the record `Task` with its parts, the table of transitions, `transition`.
--   Review     review.py: `validate` and `unresolved_p0`. Trace, Rounds and Answers have the
--              theorems on accepted tasks.
--   Coverage   coverage.py: `check_coverage`. Total and Complete have its theorems, on
--              lookups and on complete reports.
--   Gate       gates.py: `gate`; its theorem is in Gate.Laws.
--   Storage    storage.py: `safe_name`.
--   Store      store.py: the tables, `change`, `create`, `recover`. Rows, Save, Changes, Create and Created
--              have the theorems on the tables and their versions.
--   Engine     engine.py: each action, the commands, and requests. Actions, Edits, Steps, Life,
--              Confirmed and Traces have the theorems on the life of a task.
--   Contract   contract_types.py and internal_errors.py: checks of single values, error codes.
--   Policy     scope_policy.py: `resolve`.
--   Job        job_contract.py: the record of an acquisition job and `validate_job`; the edges of
--              job_registry.py.
--   Registry   job_registry.py: the table of jobs. Authority has authorization.py, Calls the calls that
--              are one transaction, with those that keep or put off a lease in Leases; Moves, Steps,
--              Renewals, Life, Commits, Valid and Stopped have the theorems on jobs.
--   Acquisition  acquisition.py: leases on sources. Seal has the sealing of a batch and the commit of a
--              package, Calls the sequences of calls; Tokens, Committed and Stale have the theorems on leases,
--              Entries and Sealed those on seals.
--   Content    content.py: the envelope of a parsed source; Lines and Ends have the theorems.
--   Processor  processor.py: leases on batches; Parse has `parse`, Publish has `publish`, Calls their
--              sequences. Tokens, Growth, Stale and Open have the theorems on leases, Checked, First,
--              Replay and Sound those on publications.
--   Identity   telegram_identity.py: the ledger of reservations; Gateway has the envelopes of the
--              gateway; Same, Shares, Once, Replay, Authentic and Traces have the theorems on
--              reservations.
--   Streaming  streaming.py: `read_exact`; Exact has its theorems.
--   Reference  notion_reference.py: `parse_notion_reference`; Canonical has its theorems.
--   Tests      small inputs, runs, and the theorems at inputs.
--
-- Every function is total. All loops run over lists but that of `read_exact`, which has `size` as
-- fuel: each of its steps reads a byte at least. Texts are native strings; `str.strip` is modelled
-- by the list of whitespace characters. Parameters of the model are the tables of Python's
-- `unicodedata` and `re` (`Unicode`), the identifiers that `uuid4` gives, and the writing of the
-- workbook with its check (`Export`), which is openpyxl's and the file system's work. JSON texts in
-- the database are the records themselves. In the registry the digests are parameters too
-- (`Digests`), what `authority` answers is a field of the state, and what the acquisition port
-- answers is an argument of the call (`AcquisitionPort`). For batches the parameters are the digest
-- of a manifest (`Hashing`), the reading of files (`Files`), the decoding of UTF-8 and the parsers
-- of binary formats (`Parsers`), and the JSON texts of results with their digest (`Encoder`). The
-- ledgers of messages have their digests and the check of a request as parameters (`Requests`). A
-- percentage of coverage is kept as a fraction. Clocks are natural numbers.
--
-- Not modelled: the registry's calls with several transactions (`register`, `start_claim`,
-- `recover_claim`, `recovery_plan`); the staging of streams and the reading of packages of Notion;
-- the thread that renews the lease of a processor; the check of a request (protocol.py); files,
-- locks, directories and snapshots of the store, the parsing of uploads, the network, the workbook;
-- the other programs of the repository (apps/public-vpn-node and apps/tg-codex-agent), which share
-- no code with this one.
pub mod Job
pub mod Policy
pub mod Prelude
pub mod Processor
pub mod Identity
pub mod Reference
pub mod Registry
pub mod Task
pub mod Review
pub mod Acquisition
pub mod Content
pub mod Contract
pub mod Coverage
pub mod Gate
pub mod Storage
pub mod Store
pub mod Streaming
pub mod Engine
mod Tests
