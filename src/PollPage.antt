-- ===== src/PollPage.antt =====
-- The page of a poll (frontend/src/pages/PollDetailPage.tsx) and its line in the list of polls
-- (frontend/src/components/PollStatus.tsx): the clock, the tabs and the results.
pub mod Clock
pub mod Tabs
pub mod TallierKey
pub mod Loads
pub mod Double
pub mod Bars
mod Tests
