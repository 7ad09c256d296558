-- ===== src/Journal.antt =====
-- src/txd_journal.c over the in-memory journal of include/txdriver.h (`struct txd_journal_s`).
--
-- `Journal.Defs` has the structures, `Journal.Create` builds a journal from a superblock, and
-- `Journal.Load` resets it and starts the journal thread. The others prove what these do.
pub mod Defs
pub mod Create
pub mod Load
pub mod Ready
pub mod Grows
pub mod Geometry
pub mod Flags
pub mod Total
pub mod Structs
pub mod Layout
