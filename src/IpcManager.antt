-- ===== src/IpcManager.antt =====
-- src/Interface/IPCManager.cpp and include/HyCAN/Interface/IPCManager.hpp: the singleton of a process
-- between its interfaces and the daemon, called by one thread: that `initialized_` is set is then that
-- `client_` is there.
pub mod OneClient
pub mod Race
use hy_can.Util.Error.{netlink_bring_up_error, error, Expected, ok, unexpected}
use hy_can.Netlink.Manager.{initialize}
use hy_can.Client.Shell.{client_set_state, client_exists, client_is_up, client_create_vcan}
use hy_can.Client.{NetlinkClient, new_client, ClientLayout}
use hy_can.Base.{Text, text, ℤ, ℕ, Bool, Option, none, some, [], ◌++◌}
use hy_can.UnixSocket.Syscalls.{Env, Posix}

pub record IpcManager : Type 0 where
  pub main_channel_name : Text
  -- Empty, and never used.
  pub client_channel_name : Text
  pub client : Option NetlinkClient

-- The constructor.
unfoldable pub new_manager : IpcManager
new_manager = record {
  main_channel_name = text "HyCAN_Daemon";
  client_channel_name = [];
  client = none;
}

-- The manager, and the environments of the channels and of the shell.
abbrev pub Ipc : Posix → Type 0 → Type 0
Ipc P W = IpcManager × (Env P × W)

-- `uint32_t bitrate = 1000000`
abbrev pub default_bitrate : ℕ
default_bitrate = 1_000_000

-- `make_throws` says what exception the allocation of a client ends in, if it ends in one.
module _ (P : Posix) (layout : ClientLayout) (pid : ℤ) {W : Type 0} (system : Text → W → ℤ × W)
    (make_throws : W → Option Text) where
  make_client : Option Text → Ipc P W → Expected NetlinkClient × Ipc P W
  make_client none (m, s) = (ok new_client, (record m { client = some new_client }, s))
  make_client (some what) s =
      (unexpected (error netlink_bring_up_error (text "Failed to initialize Netlink: " ++ what)), s)

  -- With the client that `client_` points to.
  unfoldable pub ensure_initialized : Ipc P W → Expected NetlinkClient × Ipc P W
  unfolding make_client
  ensure_initialized s = elim s.0.client [
    | some client ↦ (ok client, s)
    | none ↦ make_client (make_throws s.1.1) s
  ]

  -- `client_->…`: an operation of the client, which stays in the manager.
  forward :
      {A : Type 0}
      → (NetlinkClient → Env P × W → (Expected A × NetlinkClient) × (Env P × W))
      → Expected NetlinkClient × Ipc P W
      → Expected A × Ipc P W
  forward f (unexpected e, s) = (unexpected e, s)
  forward f (ok client, (m, s)) =
      let r = f client s in (r.0.0, (record m { client = some r.0.1 }, r.1))

  -- The operations of the client on both environments: the queries do not touch that of the shell.
  abbrev pub on_client_set :
      Text
      → Bool
      → ℕ
      → NetlinkClient
      → Env P × W
      → (Expected (Unit {0}) × NetlinkClient) × (Env P × W)
  on_client_set name wants_up bitrate client s =
      client_set_state P layout pid system name wants_up bitrate client s.0 s.1

  abbrev pub on_client :
      {A : Type 0}
      → (NetlinkClient → Env P → (Expected A × NetlinkClient) × Env P)
      → NetlinkClient
      → Env P × W
      → (Expected A × NetlinkClient) × (Env P × W)
  on_client f client s = let r = f client s.0 in (r.0, (r.1, s.1))

  -- `IPCManager::set`
  unfoldable pub ipc_set : Text → Bool → ℕ → Ipc P W → Expected (Unit {0}) × Ipc P W
  unfolding forward
  ipc_set name wants_up bitrate s =
      forward (on_client_set name wants_up bitrate) (ensure_initialized s)

  -- `IPCManager::exists`
  unfoldable pub ipc_exists : Text → Ipc P W → Expected Bool × Ipc P W
  unfolding forward
  ipc_exists name s = forward (on_client (client_exists P layout pid name)) (ensure_initialized s)

  -- `IPCManager::is_up`
  unfoldable pub ipc_is_up : Text → Ipc P W → Expected Bool × Ipc P W
  unfolding forward
  ipc_is_up name s = forward (on_client (client_is_up P layout pid name)) (ensure_initialized s)

  -- `IPCManager::create_vcan`
  unfoldable pub ipc_create_vcan : Text → Ipc P W → Expected (Unit {0}) × Ipc P W
  unfolding forward
  ipc_create_vcan name s =
      forward (on_client (client_create_vcan P layout pid name)) (ensure_initialized s)
