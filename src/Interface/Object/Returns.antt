-- ===== src/Interface/Object/Returns.antt =====
-- When the operations of an interface return, and what its destructor comes to.
use hy_can.Can.Socket.Connected.{IsEnoughFuel}
use hy_can.Interface.Object.{destroy, with_line, destruct_object, Systems, Interface, object_up}
use hy_can.Client.{ClientLayout}
use hy_can.Can.Dispatcher.Lifecycle.{IsOneThread, start-is_some, Poll}
use hy_can.Can.Dispatcher.Lifecycle.Construction.{destruct-joins}
use hy_can.Base.{
  inr, inl, none, some, is_minus_one, some, false, is_some, true, Text, ℤ, ℕ, ◌≡◌, Option, arith,
}
use hy_can.UnixSocket.Syscalls.{Posix}
use hy_can.Can.Network.{CanEnv, Network}
use hy_can.Interface.{start_if_up, InterfaceType, up}

module _ {F : Type 0} (N : Network) (poll : Poll N) where
  -- What the destructor comes to: no reaper is left, or it waits for a reaper that does not end.
  abbrev pub IsDestroyed : Option (Interface F) → Type 0
  IsDestroyed none = (w : N.World) × (poll.reaper_ends w ≡ false)
  IsDestroyed (some i) = (i.line.joinable ≡ false) × (i.line.started ≡ i.line.joined)

  pub destruct_object-IsDestroyed :
      (i : Interface F) (e : CanEnv N)
      → IsOneThread N poll i.line
      → ((fd : ℤ) (w : N.World) → is_minus_one (poll.event_write fd w).0 ≡ false)
      → IsDestroyed (destruct_object N poll i e).0
  unfolding destruct_object with_line
  destruct_object-IsDestroyed i e one writes =
      elim (destruct-joins N poll i.line (destroy N i.sender.socket e).1 one writes) [
        | inl (q, there, gone, counted) ↦ rw there (gone, counted)
        | inr (waits, w, stays) ↦ rw waits (w, stays)
      ]

module _ {F : Type 0} (N : Network) (poll : Poll N) (P : Posix) (layout : ClientLayout) (pid : ℤ)
    {W : Type 0} (system : Text → W → ℤ × W) (make_throws : W → Option Text) where
  pub object_up-is_some :
      (kind : InterfaceType) (bitrate fuel : ℕ) (i : Interface F) (s : Systems N P W)
      → IsEnoughFuel N fuel
      → is_some (object_up N poll P layout pid system make_throws kind bitrate fuel i s).0.0 ≡ true
  unfolding object_up up start_if_up
  object_up-is_some kind bitrate fuel i s enough =
      ground (arith, start-is_some N poll fuel i.line s.0 enough)
