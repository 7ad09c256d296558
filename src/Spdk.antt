-- ===== src/Spdk.antt =====
-- src/txd_spdk.c: NVMe controllers and namespaces found through SPDK, and synchronous I/O on the
-- first namespace of the list.
--
-- `Spdk.Library` is what SPDK and the device do, a parameter of everything here; `Spdk.State` the
-- module's globals; `Spdk.Probe` finds and releases the controllers, and `Spdk.Transfer` reads and
-- writes. The others prove what these do.
pub mod Library
pub mod State
pub mod Probe
pub mod Transfer
pub mod Polling
pub mod Roundtrip
pub mod Waiting
pub mod Blocks
pub mod Refine
pub mod Registry
pub mod Held
pub mod Cleanup
pub mod Dangling
pub mod Sound
pub mod Stable
pub mod Busy
pub mod Session
pub mod Doomed
pub mod Kept
pub mod Startup
pub mod Failing
