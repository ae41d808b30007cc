-- ===== src/Daemon/Exchange/Effects.antt =====
-- What an answer tells a client of the kernel.
use hy_can.Netlink.Requests.Effect.{bitrate_wanted, process_request-effect}
use hy_can.Netlink.Requests.{process_request}
use hy_can.Netlink.Manager.{NetlinkManager}
use hy_can.Netlink.Libnl.{Libnl, LibnlEnv}
use hy_can.Netlink.Kernel.{Kernel, IsUpdate, IsLawful}
use hy_can.Message.{set_interface_state, NetlinkRequest, NetlinkResponse}
use hy_can.Daemon.Exchange.Bookkeeping.{InHistory, processed_as, Replays}
use hy_can.Daemon.Exchange.Answers.{answered_once}
use hy_can.Daemon.Exchange.{client_answered, Processed, ExchangeMove, exchanges, at_first_exchange}
use hy_can.Can.Dispatcher.Lifecycle.{start}
use hy_can.Base.{
  c_str, pos, if◌then◌else◌, is_some, ℕ, subst, ◌≡◌, ap, ◌∙◌, inl, inr, true, ◌&&◌, none, some,
  List, [], ◌∷◌, ◌++◌,
}

split_history :
    (p : Processed) (history : List Processed)
    → InHistory p history
    → (later earlier : List Processed) × (history ≡ later ++ p ∷ earlier)
split_history p [] m = absurd m
split_history p (q ∷ history) (inl same) = ([], history, ap (λ x. x ∷ history) same)
split_history p (q ∷ history) (inr m) =
    let (later, earlier, e) = split_history p history m in (q ∷ later, earlier, ap (◌∷◌ q) e)

Replays-earlier :
    {S : Type 0} (process : NetlinkRequest → S → NetlinkResponse × S) (first : S)
    (later : List Processed) (p : Processed) (earlier : List Processed) (kernel : S)
    → Replays process first (later ++ p ∷ earlier) kernel
    → (before : S) × Replays process first earlier before
      × ((process p.request before).0 ≡ p.response)
Replays-earlier process first [] p earlier kernel (before, run, e) = (before, run, ap (λ r. r.0) e)
Replays-earlier process first (q ∷ later) p earlier kernel (before, run, e) =
    Replays-earlier process first later p earlier before run

module _ (L : Libnl) (manager : NetlinkManager L) (K : Kernel L) (law : IsLawful L K) where
  -- A client whose request for a state is answered by 0, among any others and whatever times out:
  -- at one place in the sequence of the processed requests its own was processed, on the kernel that
  -- the earlier ones had left, and it found the interface there and put it, and no other, into the
  -- state asked for.
  pub answered_state_effect :
      (first : LibnlEnv L) (ms : List ExchangeMove) (t c k : ℕ) (request : NetlinkRequest)
      (response : NetlinkResponse)
      → request.operation ≡ set_interface_state
      → let s =
          exchanges
            (process_request L manager)
            ms
            (at_first_exchange (process_request L manager) first) in
        let name = c_str request.interface_name in
        s.clients t ≡ client_answered c k request response
        → response.result ≡ pos 0
        → (later earlier : List Processed) × (before : LibnlEnv L) × (s.history
            ≡ later ++ processed_as c k request response ∷ earlier)
          × Replays (process_request L manager) first earlier before
          × (is_some (K.find before.world name) ≡ true)
          × IsUpdate name
              (some request.up)
              (if request.up && request.set_bitrate
                then bitrate_wanted name request.bitrate
                else none)
              (K.find before.world)
              (K.find (process_request L manager request before).1.world)
  answered_state_effect first ms t c k request response op answered done =
      let process = process_request L manager in
      let s = exchanges process ms (at_first_exchange process first) in
      let (run, ordered, known) = answered_once L manager first ms in
      let p = processed_as c k request response in
      let (later, earlier, e) = split_history p s.history (known t c k request response answered) in
      let (before, start, same) =
        Replays-earlier process first later p earlier s.kernel
          (subst (λ h. Replays process first h s.kernel) e run) in
      let f =
        process_request-effect L manager K law request before op
          (ap (λ (r : NetlinkResponse). r.result) same ∙ done) in
      (later, earlier, before, e, start, f.0, f.1)
