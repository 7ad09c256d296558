-- ===== src/Early.antt =====
-- The earlier variant of the driver, src/txdriver_*.c: the same program with libc's allocator, no
-- journal thread and a format that writes. What the two share is used from the current driver's
-- modules.
pub mod Access
pub mod Revoke
pub mod Create
pub mod Load
pub mod Api
pub mod Tables
pub mod Lifecycle
pub mod Ready
pub mod Creation
pub mod Agree
pub mod Never
pub mod Format
pub mod Closing
pub mod Program
