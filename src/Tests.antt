-- ===== src/Tests.antt =====
-- The theorems at concrete data, and runs of the definitions.
mod Snapshots
mod Processes
mod Runs
mod Checks
mod Machine
mod Restores
mod Working
mod Desk
mod Children
mod Reports
mod Sorting
mod Documented
mod Promised
