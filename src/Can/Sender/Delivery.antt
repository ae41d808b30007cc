-- ===== src/Can/Sender/Delivery.antt =====
-- A frame is sent once or not at all.
use hy_can.Base.{is_nonpositive, Bool-cases, inl, inr, ◌+◌, ◌≤◌, ◌≡◌, List, ◌∷◌, arith}
use hy_can.Util.Error.{Expected, ok, unexpected}
use hy_can.Can.Socket.{Socket, ensure_connected}
use hy_can.Can.Sender.{Sender, send, write_error, write_again, write_first}
use hy_can.Can.Network.{write_frame, CanFrame, Network, Env}

-- What one call adds to the frames that were sent.
abbrev pub delivered : Expected (Unit {0}) → CanFrame → List CanFrame → List CanFrame
delivered (ok _) frame sent = frame ∷ sent
delivered (unexpected e) frame sent = sent

module _ (N : Network) where
  pub ensure_connected-sent :
      (s : Socket) (e : Env N)
      → ((ensure_connected N s e).1.sent ≡ e.sent) × ((ensure_connected N s e).1.writes ≡ e.writes)
  unfolding ensure_connected
  ensure_connected-sent s e = ground arith

  write_again-delivers :
      (frame : CanFrame) (c : Expected (Unit {0}) × Socket) (e : Env N)
      → let r = write_again N frame c e in
        (r.1.sent ≡ delivered r.0.0 frame e.sent) × (r.1.writes ≤ e.writes + 1)
  unfolding write_again write_error
  write_again-delivers frame (ok _, s) e = ground arith
  write_again-delivers frame (unexpected err, s) e = ground arith

  write_first-delivers :
      (frame : CanFrame) (c : Expected (Unit {0}) × Socket) (e : Env N)
      → let r = write_first N frame c e in
        (r.1.sent ≡ delivered r.0.0 frame e.sent) × (r.1.writes ≤ e.writes + 2)
  unfolding write_first write_error
  write_first-delivers frame (unexpected err, s) e = ground arith
  write_first-delivers frame (ok _, s) e =
      let e' = (write_frame s.sock_fd frame e).1 in
      let c = ensure_connected N s e' in
      ground (arith, ensure_connected-sent s e', write_again-delivers frame c.0 c.1)

  -- A call of `send` that succeeds has had its frame written exactly once, and one that fails has
  -- not had it written at all; it makes two attempts at most.
  pub send-delivers :
      {T : Type 0} (to_frame : T → CanFrame) (frame : T) (sender : Sender) (e : Env N)
      → let r = send N to_frame frame sender e in
        (r.1.sent ≡ delivered r.0.0 (to_frame frame) e.sent) × (r.1.writes ≤ e.writes + 2)
  unfolding send
  send-delivers to_frame frame sender e =
      let c = ensure_connected N sender.socket e in
      elim (Bool-cases (is_nonpositive sender.socket.sock_fd)) [
        | inl closed ↦ ground (
          arith,
          ensure_connected-sent sender.socket e,
          write_first-delivers (to_frame frame) c.0 c.1,
        )
        | inr connected ↦
            ground (arith, write_first-delivers (to_frame frame) (ok tt, sender.socket) e)
      ]
