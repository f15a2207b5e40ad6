-- ===== src/Tests.antt =====
-- Tests: the code run at concrete inputs, and its theorems there.
mod DagRuns
mod CronRuns
mod ScheduleRuns
mod SubjectRuns
mod ScoreRuns
mod InMemoryRuns
