-- ===== src/Util.antt =====
-- include/HyCAN/Util: the error codes and values, and the spin lock.
pub mod Error
pub mod SpinLock
