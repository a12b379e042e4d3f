-- ===== src/Tests.antt =====
-- Concrete tables and dates, and what the theorems say about them.
mod Data
mod Findings
mod Exceptions
mod Routes
mod Dates
mod Users
mod Scan
mod Risk
mod Batches
mod Policy
mod LeastPrivilege
mod Checks
mod Runs
mod Diff
mod Query
mod Graph
