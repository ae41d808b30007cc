-- ===== src/Client/Shell.antt =====
-- The interface operations of src/Interface/NetlinkClient.cpp. `W` is the state of the machine that
-- `std::system` changes; a command is the text of the `std::string` that it is given.
pub mod Fallback
use hy_can.Can.Dispatcher.{returned}
use hy_can.Util.Error.{
  netlink_bring_down_error, netlink_bring_up_error, error, Expected, ok, unexpected,
}
use hy_can.Message.{
  RequestType, create_vcan_interface, interface_exists, interface_is_up, state_request,
  query_request, NetlinkResponse,
}
use hy_can.Client.{NetlinkClient, ClientLayout, send_request}
use hy_can.UnixSocket.Syscalls.{◌>>◌, Env, M, pure, ◌>>=◌, Posix}
use hy_can.Base.{
  Text, text, c_str, starts_with, show_nat, show_int, ℤ, is_zero, if◌then◌else◌, ℕ, Bool, true,
  ◌&&◌, ◌++◌,
}

abbrev up_or_down : Bool → Text
up_or_down up = if up then text "bring up" else text "bring down"

abbrev state_error : Bool → Text → Expected (Unit {0})
state_error up message =
    unexpected (error (if up then netlink_bring_up_error else netlink_bring_down_error) message)

unfoldable pub bitrate_command : Text → ℕ → Text
bitrate_command name bitrate =
    text "sudo ip link set " ++ name ++ text " type can bitrate " ++ show_nat bitrate

unfoldable pub link_command : Text → Bool → Text
link_command name up = text "sudo ip link set " ++ name ++ (if up then text " up" else text " down")

system_error : Bool → Text → ℤ → Expected (Unit {0})
system_error up name result = state_error up (
    text "Failed to "
    ++ up_or_down up
    ++ text " interface "
    ++ name
    ++ text ": system() returned "
    ++ show_int result)

bitrate_error : Text → ℕ → ℤ → Expected (Unit {0})
bitrate_error name bitrate result = unexpected (
    error netlink_bring_up_error (
      text "Failed to set bitrate "
      ++ show_nat bitrate
      ++ text " for interface "
      ++ name
      ++ text ": system() returned "
      ++ show_int result))

module _ {W : Type 0} (system : Text → W → ℤ × W) where
  set_link : Text → Bool → W → Expected (Unit {0}) × W
  unfolding link_command system_error
  set_link name up w =
      let r = system (c_str (link_command name up)) w in
      ((if is_zero r.0 then ok tt else system_error up name r.0), r.1)

  set_bitrate_then_up : Text → ℕ → W → Expected (Unit {0}) × W
  unfolding bitrate_command bitrate_error set_link
  set_bitrate_then_up name bitrate w =
      let r = system (c_str (bitrate_command name bitrate)) w in
      if is_zero r.0 then set_link name true r.1 else (bitrate_error name bitrate r.0, r.1)

  unfoldable pub fallback_system_call : Text → Bool → ℕ → W → Expected (Unit {0}) × W
  unfolding set_bitrate_then_up set_link
  fallback_system_call name state bitrate w =
      if state && starts_with name (text "can")
      then set_bitrate_then_up name bitrate w
      else set_link name state w

-- What an operation makes of the daemon's response.
daemon_error : Bool → Text → NetlinkResponse → Expected (Unit {0})
daemon_error up name response = state_error up (
    text "Daemon failed to "
    ++ up_or_down up
    ++ text " interface "
    ++ name
    ++ text ": "
    ++ c_str response.error_message)

query_error : {A : Type 0} → Text → Text → NetlinkResponse → Expected A
query_error before after response =
    unexpected (error netlink_bring_up_error (before ++ after ++ c_str response.error_message))

abbrev map_response :
    {A : Type 0} → (NetlinkResponse → Expected A) → Expected NetlinkResponse → Expected A
map_response f (ok response) = f response
map_response f (unexpected e) = unexpected e

module _ (P : Posix) (layout : ClientLayout) (pid : ℤ) where
  module _ {W : Type 0} (system : Text → W → ℤ × W) where
    -- The end of `set_interface_state`, with what `send_request` gave.
    conclude : Text → Bool → ℕ → Expected NetlinkResponse → W → Expected (Unit {0}) × W
    unfolding daemon_error
    conclude name up bitrate (unexpected e) w = fallback_system_call system name up bitrate w
    conclude name up bitrate (ok response) w =
        ((if is_zero response.result then ok tt else daemon_error up name response), w)

    -- `NetlinkClient::set_interface_state`: the result and the client, and the machine.
    unfoldable pub client_set_state :
        Text
        → Bool
        → ℕ
        → NetlinkClient
        → Env P
        → W
        → (Expected (Unit {0}) × NetlinkClient) × (Env P × W)
    unfolding conclude
    client_set_state name up bitrate this e w =
        let request = state_request name up (starts_with name (text "can") && up) bitrate in
        let r = send_request P layout pid request this e in
        let done = conclude name up bitrate r.0.0 w in ((done.0, r.0.1), (r.1, done.1))

  -- A query or a creation: the request, and what the response is read as.
  query :
      {A : Type 0}
      → RequestType
      → (NetlinkResponse → Expected A)
      → Text
      → NetlinkClient
      → M P (Expected A × NetlinkClient)
  query op read name this = do
    r ← send_request P layout pid (query_request op name) this
    pure (map_response read r.0, r.1)

  read_exists : Text → NetlinkResponse → Expected Bool
  unfolding query_error
  read_exists name response =
      if is_zero response.result
      then ok response.exists
      else query_error (text "Failed to check if interface " ++ name) (text " exists: ") response

  read_is_up : Text → NetlinkResponse → Expected Bool
  unfolding query_error
  read_is_up name response =
      if is_zero response.result
      then ok response.is_up
      else query_error (text "Failed to check if interface " ++ name) (text " is up: ") response

  read_created : Text → NetlinkResponse → Expected (Unit {0})
  unfolding query_error
  read_created name response =
      if is_zero response.result
      then ok tt
      else query_error (text "Failed to create VCAN interface " ++ name) (text ": ") response

  -- `NetlinkClient::interface_exists`
  unfoldable pub client_exists : Text → NetlinkClient → M P (Expected Bool × NetlinkClient)
  unfolding query read_exists
  client_exists name = query interface_exists (read_exists name) name

  -- `NetlinkClient::interface_is_up`
  unfoldable pub client_is_up : Text → NetlinkClient → M P (Expected Bool × NetlinkClient)
  unfolding query read_is_up
  client_is_up name = query interface_is_up (read_is_up name) name

  -- `NetlinkClient::create_vcan_interface`
  unfoldable pub client_create_vcan :
      Text → NetlinkClient → M P (Expected (Unit {0}) × NetlinkClient)
  unfolding query read_created
  client_create_vcan name = query create_vcan_interface (read_created name) name
