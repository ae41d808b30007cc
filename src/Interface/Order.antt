-- ===== src/Interface/Order.antt =====
-- What happens in which order when an interface is brought up or down, and what does not happen
-- after a failure.
use hy_can.IpcManager.OneClient.{ipc_exists-keeps_shell, ipc_create_vcan-keeps_shell}
use hy_can.Util.Error.{ok, is_ok}
use hy_can.UnixSocket.Syscalls.{Posix}
use hy_can.IpcManager.{Ipc, default_bitrate, ipc_set, ipc_exists}
use hy_can.Interface.{
  InterfaceType, can, ensure_present, bring_up, up, down, not_found, make_present, set_if_present,
  start_if_up, stop_if_down,
}
use hy_can.Client.{ClientLayout}
use hy_can.Can.Network.{Network, CanEnv}
use hy_can.Can.Dispatcher.Lifecycle.{
  start, Poll, Line, IsOneThread, is_success, start_lem, stop_lem, stop-returns,
}
use hy_can.Base.{
  Text, ℤ, ℕ, ◌≡◌, ◌⊎◌, inl, inr, Bool-cases, is_some, none, true, false, not, ◌||◌, Option, arith,
}

module _ (P : Posix) (layout : ClientLayout) (pid : ℤ) {W : Type 0} (system : Text → W → ℤ × W)
    (make_throws : W → Option Text) where
  -- A missing CAN interface is reported and nothing more is done: no request follows the query, and
  -- the fallback's commands are not run.
  pub missing_can_interface :
      (name : Text) (bitrate : ℕ) (s : Ipc P W)
      → (ipc_exists P layout pid system make_throws name s).0 ≡ ok false
      → let r = bring_up P layout pid system make_throws can name bitrate s in
        (is_ok r.0 ≡ false) × (r.1 ≡ (ipc_exists P layout pid system make_throws name s).1)
  unfolding bring_up ensure_present not_found
  missing_can_interface name bitrate s h = ground arith

  -- An interface is brought up only after it was found or, if it is virtual, created; otherwise the
  -- machine is left alone.
  pub bring_up_lem :
      (kind : InterfaceType) (name : Text) (bitrate : ℕ) (s : Ipc P W)
      → let p = ensure_present P layout pid system make_throws kind name s in
        let r = bring_up P layout pid system make_throws kind name bitrate s in
        (p.1.1.1 ≡ s.1.1)
        × (((is_ok p.0 ≡ false) × (is_ok r.0 ≡ false) × (r.1 ≡ p.1))
            ⊎ ((is_ok p.0 ≡ true)
                × (r ≡ ipc_set P layout pid system make_throws name true bitrate p.1)))
  unfolding bring_up ensure_present set_if_present make_present not_found
  bring_up_lem kind name bitrate s =
      let e = ipc_exists P layout pid system make_throws name s in
      ground (
        arith,
        ipc_exists-keeps_shell P layout pid system make_throws name s,
        ipc_create_vcan-keeps_shell P layout pid system make_throws name e.1,
      )

  module _ (N : Network) (poll : Poll N) where
    -- When `up` succeeds the interface was brought up first and a reaper runs; when the interface was
    -- not brought up, the CAN socket and the reaper are left alone.
    pub up_lem :
        (kind : InterfaceType) (name : Text) (bitrate fuel : ℕ) (d : Line) (n : CanEnv N)
        (s : Ipc P W)
        → IsOneThread N poll d
        → let b = bring_up P layout pid system make_throws kind name bitrate s in
          let r = up P layout pid system make_throws N poll kind name bitrate fuel d n s in
          (r.1.1 ≡ b.1)
          × IsOneThread N poll r.0.1
          × (((is_ok b.0 ≡ false) × (is_success N poll r.0.0 ≡ false) × (r.0.1 ≡ d) × (r.1.0 ≡ n))
              ⊎ ((is_ok b.0 ≡ true) × (r.0.1.joinable ≡ d.joinable || is_success N poll r.0.0)))
    unfolding up start_if_up
    up_lem kind name bitrate fuel d n s one = ground (arith, start_lem N poll fuel d n one)

    -- When `down` succeeds the interface was brought down first and no reaper is left; when the
    -- interface was not brought down, the reaper goes on.
    pub down_lem :
        (name : Text) (d : Line) (n : CanEnv N) (s : Ipc P W)
        → IsOneThread N poll d
        → let b = ipc_set P layout pid system make_throws name false default_bitrate s in
          let r = down P layout pid system make_throws N poll name d n s in
          (r.1.1 ≡ b.1)
          × IsOneThread N poll r.0.1
          × (((is_ok b.0 ≡ false) × (is_success N poll r.0.0 ≡ false) × (r.0.1 ≡ d) × (r.1.0 ≡ n))
              ⊎ ((is_ok b.0 ≡ true) × (r.0.1.joinable ≡ not (is_success N poll r.0.0))))
    unfolding down stop_if_down
    down_lem name d n s one = ground (arith, stop_lem N poll d n one)

    -- A `down` that does not return waits for a reaper that does not end.
    pub down-returns :
        (name : Text) (d : Line) (n : CanEnv N) (s : Ipc P W)
        → let r = down P layout pid system make_throws N poll name d n s in
          (is_some r.0.0 ≡ true) ⊎ (r.0.0 ≡ none) × (w : N.World) × (poll.reaper_ends w ≡ false)
    unfolding down stop_if_down
    down-returns name d n s =
        elim (Bool-cases
          (is_ok (ipc_set P layout pid system make_throws name false default_bitrate s).0)) [
            | inl brought ↦ elim (stop-returns N poll d n) [
              | inl returned ↦ inl (ground (arith, brought, returned))
              | inr (waits, w, stays) ↦ inr (ground (arith, brought, waits), w, stays)
            ]
            | inr failed ↦ inl (ground (arith, failed))
          ]

    -- A start that succeeds behind an interface that came up is a success of `up`.
    pub up_succeeds :
        (kind : InterfaceType) (name : Text) (bitrate fuel : ℕ) (d : Line) (n : CanEnv N)
        (s : Ipc P W)
        → is_ok (bring_up P layout pid system make_throws kind name bitrate s).0 ≡ true
        → is_success N poll (start N poll fuel d n).0.0 ≡ true
        → is_success N poll
            (up P layout pid system make_throws N poll kind name bitrate fuel d n s).0.0
          ≡ true
    unfolding up start_if_up
    up_succeeds kind name bitrate fuel d n s brought started = ground (arith, brought, started)
