-- ===== src/Cbus.antt =====
-- tarantool/src/cbus: channels from threads to the fibers of another thread.
pub mod Unbounded
pub mod Oneshot
pub mod Sync
mod Tests
