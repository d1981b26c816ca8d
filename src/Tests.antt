-- ===== src/Tests.antt =====
-- Concrete polls, responses and a store in memory, and what the theorems say of them.
mod Data
mod Memory
mod Votes
mod Runs
mod Verdicts
mod Admission
mod Judging
mod Forms
mod Pages
mod Starting
mod Clusters
mod Together
mod Machinery
mod Copies
