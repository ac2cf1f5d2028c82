-- ===== src/Lib.antt =====
-- Verification of the ingestion core of the market information service (market-info-service/internal, Go).
--
-- The service collects price bars from providers into a PostgreSQL database. A scheduler computes which
-- windows of bars should exist and creates tasks for those that are missing. Workers claim tasks from
-- the queue under a lease, fetch and check the bars, and commit them, or record the failure with the time
-- of the next attempt; expired leases are recovered. A run is summarised from the states of its tasks.
--
-- Parts, files and sources (paths from market-info-service/internal):
--   Base                shared names; Boolean tests, lists and integers over native numbers
--   Domain              domain/*.go: texts, errors, instants, intervals, tasks, bars and issues
--   MarketTime          markettime/calendar.go: Date has the civil dates, Calendar the NYSE calendar, its
--                       overrides and its loops over the days (Calendar.Walk), and Nyse the laws of a calendar
--                       that the scheduler takes as a hypothesis
--   Scheduler.Sessions, Scheduler.Freshness
--                       scheduler/freshness.go: the bars of the US sessions, the latest window that is due, and
--                       the freshness of a subscription, over any calendar with those laws
--   Scheduler.Targets, Scheduler.Batches, Scheduler.UsCatchUp, Scheduler.Incremental
--                       scheduler/incremental.go and the rest of catchup.go: RunOnce and what it calls; the key,
--                       the run and the task of a window; the catch-up of a US market
--   Scheduler.Window    scheduler/window.go: delays and collection windows; proofs in Window.Bounds
--   Scheduler.CatchUp   scheduler/catchup.go: the windows that should exist (expectedContinuousWindows)
--                       and the grouping of the missing ones (missingWindowGroups); CatchUp.Runs is the
--                       specification by runs, CatchUp.Expected and CatchUp.Groups the proofs
--   Ingestion.ProviderErrors, Ingestion.Retry
--                       ingestion/ports/provider_error.go, ingestion/retry.go, and NewService and
--                       validateExecutableClaim of ingestion/service.go
--   Ingestion.Adapter, Ingestion.Capabilities
--                       ingestion/ports/validation.go and market_data_adapter.go
--   Domain.Quotes, Ingestion.Quotes
--                       the quotes of domain/market_data.go and of ingestion/ports/validation.go
--   Domain.Classification, Domain.Catalog
--                       the catalog of domain/*.go: assets, instruments, providers, mappings, subscriptions
--   Ingestion.Execution ExecutionContext of ingestion/contracts.go and the reference that it makes
--   Ingestion.Action, Ingestion.Execute
--                       ExecuteTask and executeClaim of ingestion/service.go, which chain the parts below
--   Ingestion.Fetch     fetchAllBars of ingestion/service.go
--   Ingestion.Quality   ingestion/quality.go, validateQualityResult and successfulCheckpoint
--   Ingestion.Backfill  ingestion/backfill.go: a request for a range and the run and task it becomes
--   Ingestion.ManualTasks
--                       ingestion/manual_tasks.go: the retry of a failed task and the cancellation
--   Ingestion.Worker    ingestion/worker/worker.go: the claim loop of one slot
--   Ingestion.Run       ingestion/run.go: SummarizeRun and RunService.Refresh
--   Store               repository/postgres/ingestion.go, with parts of market_data.go and quality.go:
--                       Database has the tables and the statements, Queue has ClaimNextTask, CancelTask and
--                       RecoverExpiredTasks, Commits has CommitFailure and CommitSuccess, Checkpoints,
--                       Bars and Issues the writes behind them, FailureRequest validateFailureCommit,
--                       Runs has LoadRunTaskSnapshot and SaveRunSummary, Schedules CreateScheduledBatch and
--                       Backfills CreateBackfillRunWithTask;
--                       Lifecycle, Fencing, Claims, Accepted and Recovery hold the properties of the queue
--   */Samples           each theorem at a concrete input
--
-- State is passed explicitly: an operation of the store maps the database to its result and the new
-- database, and interleavings of workers are lists of the calls on stored tasks (Store.Lifecycle). A statement of SQL is a
-- function on the rows of a table; the rows that SKIP LOCKED passes over are an argument. An operation that
-- returns an error leaves the database as it was, as its transaction rolls back.
--
-- Numbers: an instant is a number of nanoseconds since 106752 days before Go's zero time, so that any int64
-- Duration can be subtracted; a Duration is an integer, and the tests against its bounds are the code's.
-- The columns of the database hold microseconds (stored_time): ClaimNextTask and CreateScheduledBatch are modelled
-- with times that are cut to them; the other writes take times that are whole microseconds already.
-- Overflow of the 64-bit nanosecond count is not modelled. IDs are 128-bit numbers, decimals integers
-- of one common scale.
--
-- Fuel: expectedContinuousWindows gets two rounds more than there are bars between its first open time and
-- the latest one, and missingWindowGroups one round per candidate; expectedUSWindows gets more rounds than there are days up to the latest
-- window, and RunOnce takes the number of pages as an argument; the theorems about them hold with
-- that fuel. fetchAllBars and Refresh are bounded loops in the code, and the bound is the fuel.
--
-- NextSession and PreviousSession get one round per day of the calendar that is left, latestEligibleUSBar one per
-- nanosecond of the session's open time and regularTradingDuration one per nanosecond of its span, since each
-- round moves by at least that much; a loop that has not ended by then would be `none`, which the theorems exclude.
--
-- Parameters: the time zone database (Zone, is_timezone), the clock, the provider adapter with its registry and the context (BarSource), the store of a run
-- (RunStore), the hash of a bar, and what the catalog tables hold for a subscription.
--
-- The lists of calls hold neither the calls that insert tasks nor CancelTaskWithAudit. The counts of a run's tasks are
-- naturals, so a snapshot with a negative count, which SummarizeRun refuses, is outside the model.
--
-- Not modelled: the goroutines of the worker; the statements behind manual tasks; failures of the database itself; providers, HTTP and configuration; and the programs of the
-- repository in other languages.
pub mod Base
pub mod Domain
pub mod MarketTime
pub mod Scheduler
pub mod Ingestion
pub mod Store
