-- ===== src/Tests.antt =====
-- Concrete machines and runs at which the theorems of the library are used.
mod Table
mod Requests
mod Channels
mod Life
mod Bytes
mod Wire
mod Clients
mod Buses
mod Locks
mod Shutdown
mod Process
mod Races
mod Objects
mod Reaper
mod Linked
mod Wakeups
mod Exchanges
mod Expiry
