-- ===== src/Daemon.antt =====
-- The daemon: its sessions, its loops and their interleaving.
pub mod Sessions
pub mod Worker
pub mod Life
pub mod Shutdown
pub mod Process
pub mod Exchange
