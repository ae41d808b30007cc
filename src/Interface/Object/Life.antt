-- ===== src/Interface/Object/Life.antt =====
-- An interface from its constructor to its destructor, under any sequence of its operations.
pub mod InOrder
use hy_can.Util.Error.{Expected}
use hy_can.Client.{ClientLayout}
use hy_can.Can.Dispatcher.Subscriptions.{Registrations}
use hy_can.Base.{Text, ℤ, ℕ, Option, none, some, List, [], ◌∷◌}
use hy_can.UnixSocket.Syscalls.{Posix}
use hy_can.Interface.{InterfaceType, up, down}
use hy_can.Interface.Object.{
  register_callback, object_send, object_up, object_down, object_exists, object_is_up, Interface,
  Systems,
}
use hy_can.Can.Network.{Network, CanEnv, CanFrame}
use hy_can.Can.Dispatcher.{Dispatcher}
use hy_can.Can.Socket.{destroy}
use hy_can.Can.Dispatcher.Lifecycle.{Poll, Line, start, stop, IsOneThread, start_lem, stop_lem}

-- A call of the program, with its arguments.
pub data Operation (F : Type 0) : Type 0 where
  op_up : InterfaceType → ℕ → Operation F
  op_down op_exists op_is_up : Operation F
  op_send : CanFrame → Operation F
  op_register : List ℕ → F → Operation F

-- The registrations among the calls.
abbrev pub registrations_of : {F : Type 0} → List (Operation F) → Registrations F
registrations_of [] = []
registrations_of (op_register ids f ∷ ops) = (ids, f) ∷ registrations_of ops
registrations_of (_ ∷ ops) = registrations_of ops

module _ {F : Type 0} (N : Network) (poll : Poll N) (P : Posix) (layout : ClientLayout) (pid : ℤ)
    {W : Type 0} (system : Text → W → ℤ × W) (make_throws : W → Option Text) where
  after_register :
      Option (Expected (Unit {0}) × Interface F)
      → Systems N P W
      → Option (Interface F × Systems N P W)
  after_register none s = none
  after_register (some r) s = some (r.1, s)

  after_change :
      (Option (Expected (Unit {0})) × Interface F) × Systems N P W
      → Option (Interface F × Systems N P W)
  after_change ((none, i), s) = none
  after_change ((some r, i), s) = some (i, s)

  -- A call, whose result the program may look at or not; `none` is one that does not return.
  unfoldable pub perform :
      ℕ → Operation F → Interface F → Systems N P W → Option (Interface F × Systems N P W)
  unfolding after_register after_change
  perform fuel (op_up kind bitrate) i s =
      after_change (object_up N poll P layout pid system make_throws kind bitrate fuel i s)
  perform fuel op_down i s = after_change (object_down N poll P layout pid system make_throws i s)
  perform fuel op_exists i s =
      some (i, (object_exists N poll P layout pid system make_throws i s).1)
  perform fuel op_is_up i s = some (i, (object_is_up N poll P layout pid system make_throws i s).1)
  perform fuel (op_send frame) i s =
      let r = object_send N poll (λ (f : CanFrame). f) frame i s.0 in some (r.0.1, (r.1, s.1))
  perform fuel (op_register ids f) i s = after_register (register_callback ids f i) s

  unfoldable pub performs :
      ℕ → List (Operation F) → Interface F → Systems N P W → Option (Interface F × Systems N P W)
  performs fuel [] i s = some (i, s)
  performs fuel (op ∷ ops) i s = elim (perform fuel op i s) [
    | none ↦ none
    | some r ↦ performs fuel ops r.0 r.1
  ]
