-- ===== src/Netlink.antt =====
-- src/Daemon/NetlinkManager.cpp and src/Daemon/VCAN.cpp: the daemon's requests to the kernel.
pub mod Libnl
pub mod Balance
pub mod Rules
pub mod Kernel
pub mod Vcan
pub mod Manager
pub mod LinkState
pub mod Bitrate
pub mod Requests
