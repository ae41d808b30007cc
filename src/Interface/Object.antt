-- ===== src/Interface/Object.antt =====
-- The object of include/HyCAN/Interface/Interface.hpp with its members: its constructor and its
-- destructor, and the operations that it passes on to the dispatcher, the sender and the manager. The
-- members of Dispatcher stand in two records, one for the callbacks and one for the thread.
pub mod Returns
pub mod Life
use hy_can.Util.Error.{Expected}
use hy_can.IpcManager.{Ipc, ipc_exists, ipc_is_up}
use hy_can.Client.{ClientLayout}
use hy_can.Can.Socket.{destroy}
use hy_can.Can.Network.{CanFrame, Network, M, pure, ◌>>=◌, ◌>>◌, CanEnv}
use hy_can.Can.Dispatcher.Lifecycle.Construction.{construct, destruct}
use hy_can.Can.Dispatcher.Lifecycle.{Poll, Line}
use hy_can.Can.Dispatcher.{Dispatcher, new_dispatcher, register_func}
use hy_can.Base.{Text, ℤ, ℕ, Bool, Option, none, some, List}
use hy_can.UnixSocket.Syscalls.{Posix}
use hy_can.Interface.{InterfaceType, up, down}
use hy_can.Can.Sender.{Sender, new_sender, send}

-- The environments of the CAN sockets, and of the manager.
abbrev pub Systems : Network → Posix → Type 0 → Type 0
Systems N P W = CanEnv N × Ipc P W

-- `F` stands for the callbacks.
pub record Interface (F : Type 0) : Type 0 where
  pub interface_name : Text
  pub dispatcher : Dispatcher F
  pub line : Line
  pub sender : Sender

-- A call for `register_callback`; `none` is a call that spins for ever.
unfoldable pub register_callback :
    {F : Type 0} → List ℕ → F → Interface F → Option (Expected (Unit {0}) × Interface F)
register_callback can_ids func i = elim (register_func can_ids func i.dispatcher) [
  | none ↦ none
  | some (r, d) ↦ some (r, record i { dispatcher = d })
]

module _ {F : Type 0} (N : Network) (poll : Poll N) where
  made : Text → Line → Interface F
  made interface_name line = record {
    interface_name = interface_name;
    dispatcher = new_dispatcher;
    line = line;
    sender = new_sender interface_name;
  }

  -- The constructor; `none` is the exception of that of Dispatcher.
  unfoldable pub construct_object : Text → M N (Option (Interface F))
  unfolding made
  construct_object interface_name = do
    line ← construct N poll interface_name
    pure (elim line [ none ↦ none | some l ↦ some (made interface_name l) ])

  with_line : Interface F → Option Line → Option (Interface F)
  with_line i none = none
  with_line i (some line) = some (record i { line = line })

  -- The destructor: the sender goes before the dispatcher.
  unfoldable pub destruct_object : Interface F → M N (Option (Interface F))
  unfolding with_line
  destruct_object i = do
    destroy N i.sender.socket
    line ← destruct N poll i.line
    pure (with_line i line)

  -- `Interface::send`
  unfoldable pub object_send :
      {T : Type 0} → (T → CanFrame) → T → Interface F → M N (Expected (Unit {0}) × Interface F)
  object_send to_frame frame i = do
    r ← send N to_frame frame i.sender
    pure (r.0, record i { sender = r.1 })

  module _ (P : Posix) (layout : ClientLayout) (pid : ℤ) {W : Type 0} (system : Text → W → ℤ × W)
      (make_throws : W → Option Text) where
    -- `Interface::up`, with the fuel of the flush.
    unfoldable pub object_up :
        InterfaceType
        → ℕ
        → ℕ
        → Interface F
        → Systems N P W
        → (Option (Expected (Unit {0})) × Interface F) × Systems N P W
    object_up kind bitrate fuel i s =
        let r =
          up P layout pid system make_throws N poll kind i.interface_name bitrate fuel i.line s.0
            s.1 in
        ((r.0.0, record i { line = r.0.1 }), r.1)

    -- `Interface::down`
    unfoldable pub object_down :
        Interface F → Systems N P W → (Option (Expected (Unit {0})) × Interface F) × Systems N P W
    object_down i s =
        let r = down P layout pid system make_throws N poll i.interface_name i.line s.0 s.1 in
        ((r.0.0, record i { line = r.0.1 }), r.1)

    -- `Interface::exists`
    unfoldable pub object_exists : Interface F → Systems N P W → Expected Bool × Systems N P W
    object_exists i s =
        let r = ipc_exists P layout pid system make_throws i.interface_name s.1 in (r.0, (s.0, r.1))

    -- `Interface::is_up`
    unfoldable pub object_is_up : Interface F → Systems N P W → Expected Bool × Systems N P W
    object_is_up i s =
        let r = ipc_is_up P layout pid system make_throws i.interface_name s.1 in (r.0, (s.0, r.1))
