-- ===== src/RoundTrip.antt =====
-- What Ksnap-engine/src/dumper.c writes, Ksnap-engine/src/restorer.c reads back; and what
-- Ksnap-engine/src/checker.c promises, the dumper keeps.
mod Places
mod Checks
pub mod Whole
pub mod Dumped
pub mod Restored
pub mod Documented
pub mod Promised
