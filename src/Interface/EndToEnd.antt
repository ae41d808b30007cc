-- ===== src/Interface/EndToEnd.antt =====
-- `up` of an interface against the daemon and the kernel.

use hy_can.Interface.Order.{bring_up_lem, up_lem}
use hy_can.Util.Error.{is_ok, ok}
use hy_can.Netlink.Requests.{process_request}
use hy_can.Netlink.Manager.{NetlinkManager}
use hy_can.Netlink.Libnl.{Libnl, LibnlEnv}
use hy_can.Netlink.Kernel.{Kernel, IsUpdate, IsLawful}
use hy_can.IpcManager.{Ipc, ensure_initialized, ipc_set}
use hy_can.Interface.Object.{Systems, Interface, object_up}
use hy_can.Interface.{InterfaceType, ensure_present}
use hy_can.Daemon.Worker.{Layout}
use hy_can.Base.{
  sym, ap, ◌∙◌, inl, inr, arith, Text, text, starts_with, ℤ, if◌then◌else◌, is_some, ℕ, ◌≡◌, refl,
  Bool, true, Option, none, some,
}
use hy_can.UnixSocket.Syscalls.{Posix}
use hy_can.Can.Network.{Network}
use hy_can.Can.Dispatcher.Lifecycle.{Poll, IsOneThread, is_success}
use hy_can.Client.EndToEnd.{
  IsShortName, IsFaithful, request_for, daemon_answer, set_state_end_to_end,
}
use hy_can.Client.{NetlinkClient, ClientLayout, send_request}
use hy_can.Client.Shell.{client_set_state}

module _ (P : Posix) (ours : ClientLayout) (pid : ℤ) {W : Type 0} (system : Text → W → ℤ × W)
    (make_throws : W → Option Text) where
  -- With a client at hand, `set` is what it does.
  pub ipc_set_client :
      (name : Text) (wants_up : Bool) (bitrate : ℕ) (s : Ipc P W) (c : NetlinkClient)
      → s.0.client ≡ some c
      → (ipc_set P ours pid system make_throws name wants_up bitrate s).0
        ≡ (client_set_state P ours pid system name wants_up bitrate c s.1.0 s.1.1).0.0
  unfolding ipc_set ensure_initialized
  ipc_set_client name wants_up bitrate s c there = rw there refl

  module _ (theirs : Layout) (L : Libnl) (manager : NetlinkManager L) (K : Kernel L)
      (law : IsLawful L K) (N : Network) (poll : Poll N) where
    -- When `up` of an interface with a short name succeeds and its last request was answered by the
    -- daemon, over a channel that leaves the structures as they were, the kernel has the interface up, with the bitrate if it is a CAN interface, no other interface has changed, and a
    -- reaper runs.
    pub up_end_to_end :
        {F : Type 0} (kind : InterfaceType) (bitrate fuel : ℕ) (i : Interface F) (s : Systems N P W)
        (c : NetlinkClient) (n : LibnlEnv L)
        → IsShortName i.interface_name
        → IsFaithful ours theirs
        → IsOneThread N poll i.line
        → let p = ensure_present P ours pid system make_throws kind i.interface_name s.1 in
          p.1.0.client ≡ some c
          → (send_request P ours pid (request_for i.interface_name true bitrate) c p.1.1.0).0.0
            ≡ ok (
                daemon_answer P ours theirs pid L manager K law
                  (request_for i.interface_name true bitrate)
                  n)
          → let r = object_up N poll P ours pid system make_throws kind bitrate fuel i s in
            is_success N poll r.0.0 ≡ true
            → (is_some (K.find n.world i.interface_name) ≡ true)
              × IsUpdate i.interface_name
                  (some true)
                  (if starts_with i.interface_name (text "can") then some bitrate else none)
                  (K.find n.world)
                  (K.find
                    (process_request L manager
                      (request_for i.interface_name true bitrate)
                      n).1.world)
              × (r.0.1.line.joinable ≡ true)
    unfolding object_up
    up_end_to_end kind bitrate fuel i s c n short faithful one there sent done =
        let name = i.interface_name in
        let p = ensure_present P ours pid system make_throws kind name s.1 in
        let u =
          up_lem P ours pid system make_throws N poll kind name bitrate fuel i.line s.0 s.1 one in
        let b = bring_up_lem P ours pid system make_throws kind name bitrate s.1 in
        elim u.2 [
          | inl wrong ↦ absurd (ground (arith, wrong.1, done))
          | inr (brought, joined) ↦ elim b.1 [
            | inl wrong ↦ absurd (ground (arith, wrong.1, brought))
            | inr (there_is, same) ↦
                let set = ipc_set_client name true bitrate p.1 c there in
                let good = ap is_ok (sym set) ∙ ap (λ r. is_ok r.0) (sym same) ∙ brought in
                let e =
                  set_state_end_to_end P ours theirs pid L manager K law system name true bitrate c
                    p.1.1.0 p.1.1.1 n short faithful sent good in
                (e.0, e.1, ground (arith, joined, done))
          ]
        ]
