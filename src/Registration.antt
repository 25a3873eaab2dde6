-- ===== src/Registration.antt =====
-- The pages that create a census and that join one (frontend/src/pages/CensusCreatePage.tsx and
-- CensusJoinPage.tsx).
pub mod Create
pub mod Join
pub mod Sent
mod Tests
