-- ===== src/Cron.antt =====
-- The cron part of src/utils.ts.
pub mod Calendar
pub mod Search
pub mod Text
pub mod Field
pub mod Pattern
pub mod Values
pub mod Parsed
pub mod RoundTrip
pub mod Next
pub mod Order
pub mod Rounds
pub mod Steps
pub mod Dates
pub mod Instants
pub mod Found
pub mod Enough
