-- ===== src/Lib.antt =====
-- HyCAN: CAN interfaces for user programs, and the daemon that manages them. The library models
-- the daemon, the client and the CAN sockets, and proves what each promises.
--
-- A program uses an Interface (src/Interface/Interface.cpp). To bring it up or down it asks the
-- daemon, through NetlinkClient (src/Interface/NetlinkClient.cpp): it registers once over the
-- daemon's main socket, is given a channel of its own, and sends each request over a new
-- connection to that channel. The daemon (src/Daemon/Daemon.cpp) keeps a session per process
-- with a worker, and the worker passes each request to NetlinkManager
-- (src/Daemon/NetlinkManager.cpp), which changes the kernel's interfaces through libnl. Frames
-- do not pass through the daemon: Sender and Dispatcher have CAN sockets of their own.
--
-- Files and code:
--   Util/Error: include/HyCAN/Util/Error.hpp. Util/SpinLock: include/HyCAN/Util/SpinLock.hpp,
--     as a step function over the atomic operations of any number of threads.
--   Message: include/HyCAN/Daemon/Message.hpp, with its fixed buffers as lists of bytes.
--   Netlink/Libnl, Netlink/Kernel: the calls of libnl as a record of functions, and what libnl
--     documents of them as a record of laws. Netlink/Vcan: create_vcan_interface_if_not_exists
--     of src/Daemon/VCAN.cpp. Netlink/Manager, LinkState, Bitrate, Requests: the methods of
--     NetlinkManager, the last with process_request. Each method is a function of the
--     environment, which counts how often the object of each address is taken and given back.
--     Requests/Contract: the promise of each kind of request on the table of interfaces.
--   UnixSocket: src/Daemon/UnixSocket/UnixSocket.cpp, over the system calls of
--     UnixSocket/Syscalls, with a count for each descriptor of how often it was opened and
--     closed.
--   Daemon/Sessions: handle_client_registration, session_cleanup_worker and cleanup_sessions of
--     src/Daemon/Daemon.cpp. Daemon/Worker: a round of client_session_worker and a round of
--     run. Daemon/Life: the interleaving of these rounds, as a step relation.
--     Daemon/Sessions/Table: the sessions as a table, the view that the refinement is about.
--     Daemon/Process: the constructor, the destructor and run, and main of src/Daemon/main.cpp.
--     Daemon/Shutdown: stop and the signal handler, as moves of the main thread, the cleanup
--     thread and the workers. Daemon/Exchange: the threads of clients in send_request and the
--     workers in client_session_worker, a system call at a time over the connections of the
--     channels. Exchange/Contract: their runs against the promises. Life/Isolation: whose path
--     and channel a session has.
--   Client: ensure_registered and send_request of src/Interface/NetlinkClient.cpp.
--     Client/Shell: its other operations. Client/Expired: a client whose session the daemon has
--     dropped. Client/EndToEnd: an operation from the client through the daemon and back.
--   IpcManager: src/Interface/IPCManager.cpp; IpcManager/Race: its accesses to the client, by
--     several threads. Interface: up and down of src/Interface/Interface.cpp, and
--     Interface/Object: the object with its members and all its operations.
--     Interface/Object/Life: a sequence of them between the constructor and the destructor.
--     Interface/EndToEnd: from an interface through the daemon to the kernel.
--   Can/Network: the system calls on CAN sockets. Can/Socket: src/Interface/Socket.cpp.
--     Can/Sender: include/HyCAN/Interface/Sender.hpp. Can/Dispatcher: register_func of
--     include/HyCAN/Interface/Dispatcher.hpp and reap_process of src/Interface/Dispatcher.cpp;
--     Can/Dispatcher/Lifecycle: its start and stop, where a stop that waits for a reaper that
--     does not end does not return, its constructor and its destructor; Can/Dispatcher/Restart:
--     the counter of its eventfd over a stop and a start; RealTime: what the reaper asks the
--     system for, and the choice of a core; Latency: its statistics; Subscriptions:
--     registrations and the frames behind them; Concurrent: registrations and frames of several
--     threads, interleaved step by step; Wakeup: the caller of start and stop and the reaper,
--     interleaved in the same way. Can/Loopback:
--     include/HyCAN/Interface/CanFrameConvertible.hpp, and a value from a sender to a callback.
--   Base: numbers, integers, bytes and decimal notation. Tests: concrete machines and runs.
--
-- A method that holds a mutex from its first line to its last is one step. A call into libnl or
-- the system is a function of a world that nothing else is known of, so a theorem holds
-- whatever the call answers, unless a law is named. The one loop whose length depends on the
-- kernel, in Socket::flush, runs on fuel; a bound on the pending frames is enough, and with it
-- the programs end. The loops of the daemon and the reaper are given round by round, and the
-- loop of an example by the number of its rounds. The threads at a stop are places and moves;
-- how many moves there can be is counted. The reaper takes at most two steps for each of the
-- 2048 events of a batch, twice, and one for a batch, so 8193 of them end it once a first stop
-- is written. Integers are natural numbers and their negatives; the counters of 64 and of 8
-- bits wrap around where the code has them, in Latency and RealTime.
--
-- Not modelled: log output and pauses, exceptions of allocations but that of the manager's
-- client, registrations among the steps of start and stop, the limit of the queue of a channel,
-- the division of the average latency, the example programs, the tests, and the build.
mod Base
mod Tests
pub mod Util
pub mod Message
pub mod Netlink
pub mod UnixSocket
pub mod Can
pub mod Client
pub mod IpcManager
pub mod Interface
pub mod Daemon
