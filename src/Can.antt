-- ===== src/Can.antt =====
-- src/Interface/Socket.cpp, Sender.cpp and Dispatcher.cpp with their headers: frames to and from a
-- CAN interface.
pub mod Network
pub mod Socket
pub mod Sender
pub mod Dispatcher
pub mod Loopback
