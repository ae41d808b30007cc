-- ===== src/Daemon/Process.antt =====
-- The life of the daemon's process: the constructor and the destructor of Daemon and `run` of
-- src/Daemon/Daemon.cpp, and `main` of src/Daemon/main.cpp. Daemon/Life.antt is about the rounds in
-- between, and Daemon/Shutdown.antt about the threads at the stop.
pub mod Clean
use hy_can.Netlink.Libnl.{Libnl, LibnlEnv}
use hy_can.Daemon.Worker.{Layout}
use hy_can.Daemon.Life.{DaemonState, first_state, Reach, shut_down}
use hy_can.Base.{
  text, is_negative, if◌then◌else◌, ℕ, ◌≡◌, Bool, true, false, ◌&&◌, Option, none, some,
}
use hy_can.Netlink.Manager.{NetlinkManager, cleanup, initialize as manager_initialize}
use hy_can.UnixSocket.{server, UnixSocket, unix_socket, close, initialize}
use hy_can.UnixSocket.Syscalls.{Env, Posix}

module _ (P : Posix) (L : Libnl) where
  -- What the constructor has made: the members that hold something outside the process.
  pub record Daemon : Type 0 where
    pub main_socket : UnixSocket
    pub manager : NetlinkManager L

  -- The environment of the sockets, and that of libnl.
  pub record Outside : Type 0 where
    pub env : Env P
    pub netlink : LibnlEnv L

  -- An exception in the constructor with both members there destroys them.
  throw_with : UnixSocket → NetlinkManager L → Outside → Option Daemon × Outside
  throw_with socket manager o =
      let s = close P socket o.env in
      let m = cleanup L manager o.netlink in (none, record { env = s.1; netlink = m.1 })

  -- With the NetlinkManager initialized.
  with_manager : Bool → NetlinkManager L → Outside → Option Daemon × Outside
  unfolding throw_with
  with_manager can_spawn manager o =
      let i = initialize P (unix_socket (text "daemon") server) o.env in
      let o' : Outside = record o { env = i.1 } in
      if i.0.0 && can_spawn
      then (some (record { main_socket = i.0.1; manager = manager }), o')
      else throw_with i.0.1 manager o'

  -- The constructor; `none` is an exception. The last step starts the cleanup thread.
  unfoldable pub construct_daemon : Bool → Outside → Option Daemon × Outside
  unfolding with_manager
  construct_daemon can_spawn o =
      let i = manager_initialize L o.netlink in
      if is_negative i.0.0
      then (let m = cleanup L i.0.1 i.1 in (none, record o { netlink = m.1 }))
      else with_manager can_spawn i.0.1 (record o { netlink = i.1 })

  -- The destructor, after `stop` has joined the cleanup thread, with no session left.
  unfoldable pub destruct_daemon : Daemon → Outside → Outside
  destruct_daemon d o =
      let m = cleanup L d.manager o.netlink in
      let s = close P d.main_socket o.env in record { env = s.1; netlink = m.1 }

  -- The state before the first round.
  abbrev pub before_rounds :
      (layout : Layout) (d : Daemon) → Outside → DaemonState P layout L d.manager
  before_rounds layout d o = first_state P layout L d.manager o.env o.netlink

  -- `run`: another user than root is refused; otherwise rounds follow, and when `running_` is false
  -- the final cleanup.
  pub data Run (layout : Layout) (d : Daemon) (o : Outside) : Bool → ℕ → Outside → Type 0 where
    refused : Run layout d o false 1 o
    served :
        (s : DaemonState P layout L d.manager)
        → Reach P layout L d.manager (before_rounds layout d o) s
        → Run layout d o true 0 (record {
          env = (shut_down P layout L d.manager s).env;
          netlink = (shut_down P layout L d.manager s).netlink;
        })

  -- `main`: the exit code, and what is left outside.
  pub data Program (layout : Layout) (is_root can_spawn : Bool) (o : Outside)
      : ℕ → Outside → Type 0 where
    no_daemon :
        (construct_daemon can_spawn o).0 ≡ none
        → Program layout is_root can_spawn o 1 (construct_daemon can_spawn o).1
    ran :
        (d : Daemon) (code : ℕ) (o' : Outside)
        → (construct_daemon can_spawn o).0 ≡ some d
        → Run layout d (construct_daemon can_spawn o).1 is_root code o'
        → Program layout is_root can_spawn o code (destruct_daemon d o')
