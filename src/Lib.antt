-- ===== src/Lib.antt =====
-- runscope: a platform that queues training runs, assigns them to workers with leases, executes
-- trusted templates and records what happened. These files model its services and prove what makes
-- them correct.
--
-- The parts and how they interact. The API (services/api/runscope_api) writes runs and, in the same
-- transaction, messages in an outbox. The dispatcher of the outbox sends them to a broker. The
-- scheduler (services/scheduler) recovers expired leases and assigns queued runs to workers, with
-- one lease for each assignment. A worker (services/worker) consumes the assignments and executes
-- each run to its end; its heartbeats extend its leases. All share one database, and every change
-- of a run's status goes through one state machine.
--
-- Which file models what:
--   Models.antt          models.py, config.py, errors.py and packages/contracts: the rows, the
--                        statuses, the event envelope
--   Models/Store.antt    the session: a transaction takes a database to a result with a new
--                        database, or raises; Models/Store/Done.antt has the rules to reason by
--   Models/Integers.antt the arithmetic of priorities and of differences of times
--   StateMachine.antt    state_machine.py: VALID_TRANSITIONS, validate_transition, transition_run
--   Registry.antt        worker_registry.py: registration, heartbeats, release of leases
--   Platform.antt        the invariant of the whole: one active lease for each run in SCHEDULING,
--                        RUNNING or CANCELLING and none for others; what a worker offers is what it
--                        has less its active leases; identifiers are unique
--   Scheduler.antt       scheduler/service.py: recover_expired_allocations and schedule_once
--   Templates.antt       templates/: the registry and the validation of parameters
--   Execution.antt       run_execution.py: the start, the end and the classification path of
--                        execute_existing_run; Execution/Slow.antt is execute_slow_run, and
--                        Execution/Session.antt the whole
--   Worker.antt          worker/main.py: process_event, process_assignment, the consumer's loop
--   Tags.antt            the normalisation of tags
--   Security.antt        require_roles and ensure_run_control
--   Commands.antt        api/runs.py and create_queued_run: create, cancel, retry, annotate
--   Catalog.antt         api/projects.py and api/experiments.py: creation and deletion;
--                        Catalog/Updates.antt has the updates and the validators of their bodies
--   Workers.antt         api/workers.py: register and heartbeat
--   Listings.antt        the paginated listings and the plain lists of the API
--   Comparison.antt      api/runs.py: compare_runs
--   Health.antt          api/health.py and metrics.py: the probes, the summary and the gauges
--   Outbox.antt          outbox.py: dispatch_batch
--   Storage.antt         storage.py: the bounded retries, and the path check of the local store;
--                        Storage/Local.antt is the local store over a file system of files and
--                        directories
--   Downloads.antt       api/runs.py: download_artifact
--   Auth.antt            api/auth.py and the tokens of security.py
--   Seed.antt            seed.py: the demonstration users and the templates of the registry
--   System.antt          all of them together: an action is one transaction of one of the services,
--                        and a history is a list of actions in any order
-- Platform/History.antt says how the run rows of two databases are related when one comes after the
-- other; Commands/History, Scheduler/History, Execution/History and Execution/SlowHistory show it of
-- each operation.
-- Each has child modules for its proofs. Tests holds sample data and the theorems at that data.
--
-- How the code is represented. A table is a list of rows: an INSERT puts a row in front, a SELECT
-- is a filter, a stable sort and a prefix, an UPDATE replaces the first row of the key. Identifiers
-- and times are natural numbers; uuid4 gives the next number that was not used. CPU shares are whole
-- multiples of a unit, so that sums have no rounding; metric values are exact fractions. Rows locked
-- by other transactions (SKIP LOCKED) are a parameter, as is the order in which the database sorts
-- names. One reading of the clock serves a loop. A transaction is one step, and what other
-- transactions commit between two steps of an execution is the parameter `others`; a run that was
-- read in an earlier transaction is written only if its version has not changed, which is what the
-- mapper's version_id_col does. A session that is rolled back expires the rows it holds, and a read
-- of an expired row outside of an awaited call raises. Pydantic's validation, the executors of templates, the artifact
-- store behind the retries, the hashes, the tokens, the broker, the methods of Python strings, and
-- the database's lower, LIKE and text form of JSON are parameters too. math.ceil of a quotient is
-- exact; a status is ordered as the type of the database lists it. In System.antt the parts of an
-- execution are actions of their own, and the runs that workers hold between them are the field
-- `held`, so that anything may happen in between and an old copy may be used again.
--
-- Loops. Every loop of the code is over a list or counts to a bound, and is structural recursion
-- over the same list or count; no fuel is used. Where the dispatcher is run again and again, a
-- theorem bounds the rounds after which nothing is left to send.
--
-- Not modelled: the lists of a run's metrics, events and artifacts and the
-- endpoints that return one row, live notifications (their errors are
-- dropped and they write nothing durable), the probes themselves and their latencies, the messages
-- and details of errors, numbers formatted into log messages, delays of polling loops, migrations,
-- scripts, the web application and deployment.
pub mod Prelude
pub mod Models
pub mod StateMachine
pub mod Registry
pub mod Platform
pub mod Scheduler
pub mod Templates
pub mod Execution
pub mod Worker
pub mod Workers
pub mod System
pub mod Tags
pub mod Security
pub mod Commands
pub mod Auth
pub mod Seed
pub mod Catalog
pub mod Listings
pub mod Comparison
pub mod Health
pub mod Outbox
pub mod Storage
pub mod Downloads
mod Tests
