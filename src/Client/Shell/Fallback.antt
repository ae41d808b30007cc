-- ===== src/Client/Shell/Fallback.antt =====
-- What `set_interface_state` and the queries of the client come to.
use hy_can.Util.Error.{Expected, ok, unexpected, is_ok}
use hy_can.UnixSocket.Ownership.{Accounts}
use hy_can.Message.{
  interface_exists, interface_is_up, state_request, query_request, NetlinkResponse,
}
use hy_can.Client.Shell.{
  bitrate_command, link_command, fallback_system_call, client_set_state, client_exists,
  client_is_up, system_error, bitrate_error, set_link, set_bitrate_then_up, daemon_error,
  query_error, map_response, conclude, query, read_exists, read_is_up,
}
use hy_can.Client.Requests.{send_request_lem}
use hy_can.Client.{NetlinkClient, ClientLayout, send_request}
use hy_can.UnixSocket.Syscalls.{Env, Posix}
use hy_can.Base.{
  Text, text, c_str, starts_with, ℤ, is_zero, if◌then◌else◌, ℕ, ◌≡◌, refl, ◌↔◌, ◌⊎◌, inl, inr, Bool,
  true, false, ◌&&◌, List, [], ◌∷◌, arith,
}

-- The commands that bring an interface to a state, in their order.
abbrev pub commands_for : Text → Bool → ℕ → List Text
commands_for name up bitrate =
    if up && starts_with name (text "can")
    then c_str (bitrate_command name bitrate) ∷ c_str (link_command name up) ∷ []
    else c_str (link_command name up) ∷ []

module _ {W : Type 0} (system : Text → W → ℤ × W) where
  -- The specification: the commands one after the other, up to the first that fails.
  abbrev pub run_all : List Text → W → Bool × W
  run_all [] w = (true, w)
  run_all (command ∷ commands) w =
      let r = system command w in
      let rest = run_all commands r.1 in if is_zero r.0 then rest else (false, r.1)

  -- The fallback runs the commands in their order, stops at the first that fails, and succeeds when
  -- none fails: the bitrate is set before a CAN interface is brought up, never after, and never for
  -- another interface or to bring one down.
  pub fallback_system_call_lem :
      (name : Text) (up : Bool) (bitrate : ℕ) (w : W)
      → let r = fallback_system_call system name up bitrate w in
        (is_ok r.0, r.1) ≡ run_all (commands_for name up bitrate) w
  unfolding fallback_system_call set_bitrate_then_up set_link system_error bitrate_error
  fallback_system_call_lem name up bitrate w = ground arith

  module _ (d : ℤ) (P : Posix) (layout : ClientLayout) (pid : ℤ) where
    conclude_lem :
        (name : Text) (up : Bool) (bitrate : ℕ) (x : Expected NetlinkResponse) (w : W)
        → let r = conclude P layout pid system name up bitrate x w in
          ((response : NetlinkResponse) × (x ≡ ok response)
            × (is_ok r.0 ≡ is_zero response.result)
            × (r.1 ≡ w))
          ⊎ ((is_ok x ≡ false) × ((is_ok r.0, r.1) ≡ run_all (commands_for name up bitrate) w))
    unfolding conclude daemon_error
    conclude_lem name up bitrate (unexpected e) w =
        inr (refl, fallback_system_call_lem name up bitrate w)
    conclude_lem name up bitrate (ok response) w = inl (response, refl, ground arith, refl)

    -- The state of an interface is set by the daemon alone when it gives a response, and the result
    -- is a success exactly when the response says so; when there is no response, the fallback's
    -- commands are run, and they decide the result.
    pub client_set_state_lem :
        (name : Text) (up : Bool) (bitrate : ℕ) (this : NetlinkClient) (e : Env P) (w : W)
        → let request = state_request name up (starts_with name (text "can") && up) bitrate in
          let sent = send_request P layout pid request this e in
          let r = client_set_state P layout pid system name up bitrate this e w in
          (((response : NetlinkResponse) × (sent.0.0 ≡ ok response)
              × (is_ok r.0.0 ≡ is_zero response.result)
              × (r.1.1 ≡ w))
            ⊎ ((is_ok sent.0.0 ≡ false)
                × ((is_ok r.0.0, r.1.1) ≡ run_all (commands_for name up bitrate) w)))
          × Accounts d e 0 r.1.0 0
    unfolding client_set_state
    client_set_state_lem name up bitrate this e w =
        let request = state_request name up (starts_with name (text "can") && up) bitrate in
        let sent = send_request P layout pid request this e in
        (
          conclude_lem name up bitrate sent.0.0 w,
          (send_request_lem d P layout pid request this e).0,
        )

module _ (P : Posix) (layout : ClientLayout) (pid : ℤ) where
  -- What a query reads from a response, when there is a response and it reports no error.
  abbrev pub IsAnswer : (NetlinkResponse → Bool) → Expected NetlinkResponse → Bool → Type 0
  IsAnswer field (ok response) answer = (is_zero response.result ≡ true) × (field response ≡ answer)
  IsAnswer field (unexpected e) answer = ⊥

  read_exists_lem :
      (name : Text) (answer : Bool) (x : Expected NetlinkResponse)
      → (map_response (read_exists P layout pid name) x ≡ ok answer)
        ↔ IsAnswer (λ r. r.exists) x answer
  unfolding read_exists query_error
  read_exists_lem name answer (unexpected e) = ground arith
  read_exists_lem name answer (ok response) = ground arith

  read_is_up_lem :
      (name : Text) (answer : Bool) (x : Expected NetlinkResponse)
      → (map_response (read_is_up P layout pid name) x ≡ ok answer)
        ↔ IsAnswer (λ r. r.is_up) x answer
  unfolding read_is_up query_error
  read_is_up_lem name answer (unexpected e) = ground arith
  read_is_up_lem name answer (ok response) = ground arith

  -- A query gives exactly what a successful response says, and nothing on any other path: with no
  -- response, or with one that reports an error, the result is an error; it opens nothing for good.
  pub client_queries_lem :
      (d : ℤ) (name : Text) (this : NetlinkClient) (e : Env P) (answer : Bool)
      → let x = client_exists P layout pid name this e in
        let u = client_is_up P layout pid name this e in
        let of_x = send_request P layout pid (query_request interface_exists name) this e in
        let of_u = send_request P layout pid (query_request interface_is_up name) this e in
        ((x.0.0 ≡ ok answer) ↔ IsAnswer (λ r. r.exists) of_x.0.0 answer)
        × ((u.0.0 ≡ ok answer) ↔ IsAnswer (λ r. r.is_up) of_u.0.0 answer)
        × Accounts d e 0 x.1 0
        × Accounts d e 0 u.1 0
  unfolding client_exists client_is_up query
  client_queries_lem d name this e answer =
      let of_x = send_request P layout pid (query_request interface_exists name) this e in
      let of_u = send_request P layout pid (query_request interface_is_up name) this e in
      (
        read_exists_lem name answer of_x.0.0,
        read_is_up_lem name answer of_u.0.0,
        (send_request_lem d P layout pid (query_request interface_exists name) this e).0,
        (send_request_lem d P layout pid (query_request interface_is_up name) this e).0,
      )
