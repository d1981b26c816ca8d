-- ===== src/System.antt =====
-- The parts together: a vote from the form to the results, and what closing a Poll does to them.
pub mod Voting
pub mod Closing
pub mod Settling
pub mod Publishing
pub mod Bounds
pub mod Cluster
