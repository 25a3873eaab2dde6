-- ===== src/Tally.antt =====
-- frontend/src/components/Tally.tsx.
pub mod Defs
pub mod Batch
pub mod Counts
pub mod Laws
pub mod Invariant
pub mod Step
pub mod Next
pub mod Handlers
pub mod Runs
pub mod Rebuild
pub mod Begin
pub mod Outcome
pub mod Votes
pub mod Clicks
pub mod Rounds
pub mod Counting
pub mod Bar
pub mod Resume
pub mod Tests
