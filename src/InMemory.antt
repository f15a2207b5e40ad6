-- ===== src/InMemory.antt =====
-- The in-memory queue and worker of src/testing.ts (TestQueue, TestJob, TestWorker), for jobs that
-- belong to no flow. A record is a shared object: it is kept in a store and named by its reference.
pub mod Jobs
pub mod Store
pub mod States
pub mod Keys
pub mod Well
pub mod Add
pub mod Change
pub mod Bulk
pub mod Dispatch
pub mod Worker
pub mod Retention
pub mod Ends
pub mod Moves
pub mod Kept
pub mod Added
pub mod Numerals
pub mod Changed
pub mod Promoted
pub mod Steady
pub mod System
pub mod Calm
pub mod CalmAdd
pub mod Untaken
pub mod Claimed
pub mod First
pub mod Scanned
pub mod Ordered
pub mod Reachable
pub mod Held
pub mod Emptied
pub mod Window
pub mod Retried
pub mod Pages
pub mod Listed
pub mod Typed
pub mod Revived
pub mod Members
pub mod Retained
pub mod Settled
pub mod Bulked
