-- ===== src/Interface.antt =====
-- src/Interface/Interface.cpp: the operations that bring an interface up and down, through the manager
-- of IpcManager.antt. The environments of the channels, of the shell and of the CAN sockets are three
-- parts of the state.
pub mod Order
pub mod Object
pub mod EndToEnd
use hy_can.Util.Error.{netlink_bring_up_error, error, Expected, ok, unexpected}
use hy_can.IpcManager.{Ipc, default_bitrate, ipc_set, ipc_exists, ipc_create_vcan}
use hy_can.Client.{ClientLayout}
use hy_can.Can.Network.{Network, CanEnv}
use hy_can.Can.Dispatcher.Lifecycle.{Poll, Line, start, stop}
use hy_can.Base.{Text, text, ℤ, ℕ, Bool, true, false, not, Option, some, ◌++◌}
use hy_can.UnixSocket.Syscalls.{Posix}

pub data InterfaceType : Type 0 where
  vcan can : InterfaceType

module _ (P : Posix) (layout : ClientLayout) (pid : ℤ) {W : Type 0} (system : Text → W → ℤ × W)
    (make_throws : W → Option Text) where
  not_found : Text → Expected (Unit {0})
  not_found name =
      unexpected
        (error netlink_bring_up_error (text "CAN interface '" ++ name ++ text "' not found"))

  -- What follows the query: a missing virtual interface is created, a missing CAN one is an error.
  make_present : InterfaceType → Text → Expected Bool × Ipc P W → Expected (Unit {0}) × Ipc P W
  unfolding not_found
  make_present kind name (unexpected e, s) = (unexpected e, s)
  make_present kind name (ok true, s) = (ok tt, s)
  make_present vcan name (ok false, s) = ipc_create_vcan P layout pid system make_throws name s
  make_present can name (ok false, s) = (not_found name, s)

  -- `Interface::up` up to the manager's `set`.
  unfoldable pub ensure_present : InterfaceType → Text → Ipc P W → Expected (Unit {0}) × Ipc P W
  unfolding make_present
  ensure_present kind name s =
      make_present kind name (ipc_exists P layout pid system make_throws name s)

  set_if_present : Text → ℕ → Expected (Unit {0}) × Ipc P W → Expected (Unit {0}) × Ipc P W
  set_if_present name bitrate (unexpected e, s) = (unexpected e, s)
  set_if_present name bitrate (ok _, s) =
      ipc_set P layout pid system make_throws name true bitrate s

  -- The part of `up` in front of `and_then`.
  unfoldable pub bring_up : InterfaceType → Text → ℕ → Ipc P W → Expected (Unit {0}) × Ipc P W
  unfolding set_if_present
  bring_up kind name bitrate s = set_if_present name bitrate (ensure_present kind name s)

  module _ (N : Network) (poll : Poll N) where
    -- `and_then` with `dispatcher.start()`.
    start_if_up :
        ℕ
        → Line
        → CanEnv N
        → Expected (Unit {0}) × Ipc P W
        → (Option (Expected (Unit {0})) × Line) × (CanEnv N × Ipc P W)
    start_if_up fuel d n (unexpected e, s) = ((some (unexpected e), d), (n, s))
    start_if_up fuel d n (ok _, s) = let r = start N poll fuel d n in (r.0, (r.1, s))

    -- `Interface::up`
    unfoldable pub up :
        InterfaceType
        → Text
        → ℕ
        → ℕ
        → Line
        → CanEnv N
        → Ipc P W
        → (Option (Expected (Unit {0})) × Line) × (CanEnv N × Ipc P W)
    unfolding start_if_up
    up kind name bitrate fuel d n s = start_if_up fuel d n (bring_up kind name bitrate s)

    stop_if_down :
        Line
        → CanEnv N
        → Expected (Unit {0}) × Ipc P W
        → (Option (Expected (Unit {0})) × Line) × (CanEnv N × Ipc P W)
    stop_if_down d n (unexpected e, s) = ((some (unexpected e), d), (n, s))
    stop_if_down d n (ok _, s) = let r = stop N poll d n in (r.0, (r.1, s))

    -- `Interface::down`; `none` is a stop that does not return.
    unfoldable pub down :
        Text
        → Line
        → CanEnv N
        → Ipc P W
        → (Option (Expected (Unit {0})) × Line) × (CanEnv N × Ipc P W)
    unfolding stop_if_down
    down name d n s =
        stop_if_down d n (ipc_set P layout pid system make_throws name false default_bitrate s)
