-- ===== src/Lib.antt =====
-- A verification library for glide-mq, a message queue over Valkey.
--
-- Dag models src/dag-utils.ts: Dag.Build is buildGraph, Dag itself topoSort, Dag.Check validateDAG with
-- its own copy of the loop, and Dag.Search findCyclePath. A JavaScript Map with text keys is an association list in the order
-- of insertion (Common.Maps), and an exception is the error case of a Result (Common.Results).
-- Both copies of Kahn's loop run on fuel equal to the number of nodes, which is enough since each round takes one
-- name off the queue for good; the depth-first search runs on one more than the number of names
-- that remain, which is enough since its path never holds a name twice.
--
-- Cron models the cron part of src/utils.ts. Cron.Calendar is the arithmetic of UTC dates
-- (daysInMonth, utcToWall, wallToNaiveUtc, wallPlusOneSecond), for instants from 1970 on, in whole
-- milliseconds and without an upper limit, where a Date is invalid past 8.64e15 milliseconds. Cron.Text has the string operations that the parser uses, on lists of code points;
-- Cron.Field is parseCronField; Cron.Pattern is parseDomModifier, parseDowModifier,
-- parseCronPattern and nextCronOccurrenceUtc; Cron.Search is the day rule (cronDomMatches,
-- cronDowMatches, cronDayMatches), cronWallMatches and searchCronWall. A Set of numbers is a list
-- without repetition in the order of insertion. The loop of searchCronWall keeps the two bounds
-- of the source, ten years and 200000 steps; one round of it is `walk`, which skips ahead or stops at
-- a match. A measure on wall times falls with every skip and starts below the number of steps
-- (Cron.Enough). The error that the loop throws at its end is the result `none`. Capitals of
-- letters outside ASCII are modelled only where they fall into ASCII, and numbers in a pattern
-- are exact.
--
-- Schedule models the functions of src/utils.ts that plan the runs of a repeating job
-- (computeInitialSchedulerNextRun, computeFollowingSchedulerNextRun, holdSchedulerModeSwitch), on
-- top of Cron for patterns, for schedules without a time zone. Quotients of intervals are exact.
--
-- Subjects models the subject filters of a broadcast, matchSubject and compileSubjectMatcher of
-- src/utils.ts; Subjects.Tokens says when a pattern fits a subject.
--
-- Scores models encodeScore, decodeScore and nextReconnectDelay of src/utils.ts on exact whole
-- numbers, which the doubles of the source agree with up to 2 ^ 53 - 1.
--
-- Options models the options of a job (src/types.ts) and their checks in src/utils.ts, for numbers that
-- are whole and not negative.
--
-- InMemory models the in-memory queue of src/testing.ts, which stands in for the real one in
-- tests: TestQueue, TestJob and TestWorker, for jobs that belong to no flow. A TestJobRecord is an
-- object that the queue, its timers and the worker share, so the records live in a store and are
-- named by references; a TestJob is the reference of its record. InMemory.Jobs has the records,
-- InMemory.Store the state of the queue and the moves of one record (dequeueRecord,
-- enqueueWaiting, parkDelayed, releaseDelayed, schedulePromotion and its callback,
-- promotePrioritized), InMemory.Add the add with its deduplication and generated ids,
-- InMemory.Change the methods on single jobs, InMemory.Bulk those on the whole queue,
-- InMemory.Dispatch the order of dispatch, InMemory.Pages getJobs, InMemory.Worker the rate window
-- and the claim of a job, InMemory.Retention applyRetention and InMemory.Ends how a processor's
-- run ends; a running job may expire at any time. A processor is outside code, so the way it ends is an argument. The clock is an
-- argument of every step. InMemory.System puts the calls of clients, the timers, the claims and
-- the ends of jobs and the pauses, limits and close of the worker together as the steps of one
-- queue with one worker. generateJobId gives up after 1000 collisions as the source does, and the
-- digits of a number are made on fuel one above the number. Events and wake-ups are left out,
-- since a worker may take a step at any time; so are return values, metrics and the serializer,
-- which nothing here reads. Each job has an options object of its own.
--
-- Not modelled: TestQueue.close, after which delayed jobs stay in the queue without their promotion
-- timers, so what is said of reached states holds as long as the queue is not closed;
-- the search in a time zone, which asks Intl.DateTimeFormat for offsets; of src/testing.ts
-- the schedulers, suspension and signals, budgets and usage, flows, batches, token limits, custom backoff
-- strategies and jitter, the dead-letter copy and the search of jobs; the commands and functions
-- that run inside Valkey; connections, telemetry and the HTTP proxy.
mod Common
pub mod Dag
pub mod Cron
pub mod Schedule
pub mod Subjects
pub mod Scores
pub mod Options
pub mod InMemory
mod Tests
