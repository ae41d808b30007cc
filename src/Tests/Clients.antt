-- ===== src/Tests/Clients.antt =====
-- The client's runs on the machine of Tests/Channels.antt, with a shell that keeps its commands and
-- with CAN sockets that all open.

use hy_can.Util.Error.{ok, is_ok}
use hy_can.UnixSocket.Ownership.{Accounts}
use hy_can.Tests.Channels.{posix, quiet}
use hy_can.Message.{register_response, state_request, NetlinkResponse, query_response}
use hy_can.Client.Shell.Fallback.{commands_for, run_all, client_set_state_lem}
use hy_can.Client.Shell.{client_set_state}
use hy_can.Client.{new_client, ClientLayout, send_request}
use hy_can.Base.{
  Option, none, Text, text, starts_with, ℤ, pos, is_zero, ◌≡◌, ◌⊎◌, true, false, ◌&&◌, List, [],
  ◌∷◌,
}

abbrev pub client_layout : ClientLayout
client_layout = record {
  register_response_size = 68;
  response_size = 264;
  encode_register_request = λ r. 7 ∷ [];
  encode_request = λ r. r.interface_name;
  decode_register_response = λ bytes. register_response (pos 0) (text "HyCAN_Client_77");
  decode_response = λ bytes. query_response (pos 0) true false;
}

-- `std::system` with the commands so far.
abbrev pub shell : Text → List Text → ℤ × List Text
shell command log = (pos 0, command ∷ log)

abbrev pub always_made : List Text → Option Text
always_made w = none

client_set_state_lem_example :
    let name = text "can0" in
    let request = state_request name true (starts_with name (text "can") && true) 500_000 in
    let sent = send_request posix client_layout (pos 77) request new_client quiet in
    let r =
      client_set_state posix client_layout (pos 77) shell name true 500_000 new_client quiet [] in
    (((response : NetlinkResponse) × (sent.0.0 ≡ ok response)
        × (is_ok r.0.0 ≡ is_zero response.result)
        × (r.1.1 ≡ []))
      ⊎ ((is_ok sent.0.0 ≡ false)
          × ((is_ok r.0.0, r.1.1) ≡ run_all shell (commands_for name true 500_000) [])))
    × Accounts (pos 4) quiet 0 r.1.0 0
client_set_state_lem_example =
    client_set_state_lem shell (pos 4) posix client_layout (pos 77) (text "can0") true 500_000
      new_client quiet []
