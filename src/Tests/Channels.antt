-- ===== src/Tests/Channels.antt =====
-- A machine whose system calls all succeed, and the daemon's and the client's runs on it. Its state is
-- the next descriptor.

use hy_can.Message.{
  interface_exists, ClientRegisterRequest, register_response, NetlinkRequest, query_request,
  NetlinkResponse, query_response,
}
use hy_can.Daemon.Worker.Rounds.{IsRound, worker_round_lem}
use hy_can.Daemon.Worker.{Layout, worker_round}
use hy_can.Daemon.Sessions.Registration.Workerless.{registration_without_worker}
use hy_can.Daemon.Sessions.Registration.{IsValid, init_of, handle_client_registration-IsValid}
use hy_can.Daemon.Sessions.Cleanup.{owned_all, fresh_sessions, cleanup_pass_lem}
use hy_can.Daemon.Sessions.Channels.{channel_reaches_client}
use hy_can.Daemon.Sessions.{
  ClientSession, Sessions, find_session, generate_client_channel_name, new_session,
  handle_client_registration, cleanup_pass,
}
use hy_can.UnixSocket.Ownership.{
  owned, IsClosed, IsOpen, Accounts, unix_socket-IsClosed, initialize_lem,
}
use hy_can.UnixSocket.{accept, initialize, server, client, UnixSocket, unix_socket, setup_address}
use hy_can.UnixSocket.Syscalls.{Env, Posix}
use hy_can.Base.{
  ◌+◌, is_some, text, c_str, show_int, ℤ, pos, length, replicate, if◌then◌else◌, ℕ, suc, ◌≡◌, refl,
  ◌⊎◌, Bool, true, false, none, some, [], ◌∷◌, ◌++◌, arith,
}

abbrev pub posix : Posix
posix = record {
  World = ℕ;
  socket = λ w. (pos w, suc w);
  bind = λ fd path w. (pos 0, w);
  listen = λ fd n w. (pos 0, w);
  chmod = λ path mode w. (pos 0, w);
  connect = λ fd path w. (pos 0, w);
  unlink = λ path w. w;
  close = λ fd w. w;
  select = λ fd t w. (pos 1, w);
  accept = λ fd w. (pos w, suc w);
  send = λ fd bytes w. (pos (length bytes), w);
  recv = λ fd n w. ((pos n, replicate n 7), w);
}

abbrev pub quiet : Env posix
quiet = record { world = 3; opened = λ fd. 0; closed = λ fd. 0; unlinked = [] }

abbrev request : ClientRegisterRequest
request = record { client_pid = pos 77 }

abbrev pub layout : Layout
layout = record {
  register_request_size = 4;
  request_size = 28;
  decode_register_request = λ bytes. request;
  decode_request = λ bytes. query_request interface_exists (text "can0");
  encode_register_response = λ r. r.client_channel_name;
  encode_response = λ r. r.error_message;
}

abbrev pub listening : UnixSocket
listening = record {
  socket_fd = pos 3;
  socket_path = text "/run/hycan_daemon";
  mode = server;
  connected = true;
}

abbrev fresh_socket : UnixSocket
fresh_socket = unix_socket (text "daemon") server

-- One client, with process 5, that registered at time 10.
abbrev session : ClientSession
session = record {
  client_pid = pos 5;
  channel_name = generate_client_channel_name (pos 5);
  socket = record listening {
    socket_path = text "/run/hycan_" ++ generate_client_channel_name (pos 5);
  };
  has_worker = true;
  last_activity = 10;
  running = true;
}

abbrev sessions : Sessions
sessions = (pos 5, session) ∷ []

sessions-IsValid : IsValid sessions
unfolding find_session
sessions-IsValid = record {
  sessions = (
    record {
      own_pid = refl;
      own_channel = refl;
      listening = ((refl, refl), refl, refl);
      is_running = refl;
    },
    tt,
  );
  distinct = (refl, tt);
}

set_up : (init_of posix layout.encode_register_response (pos 77) 20 quiet).0.0 ≡ true
unfolding initialize new_session unix_socket setup_address generate_client_channel_name text
    show_int
set_up = refl

not_there : find_session (pos 77) sessions ≡ none
unfolding find_session
not_there = refl

handle_client_registration-IsValid_example :
    IsValid
      (handle_client_registration posix layout.encode_register_response request listening 20 true
        sessions quiet).0.1
handle_client_registration-IsValid_example =
    handle_client_registration-IsValid posix layout.encode_register_response request listening 20
      true sessions quiet sessions-IsValid

registration_without_worker_example :
    let first =
      handle_client_registration posix layout.encode_register_response request listening 20 false
        sessions quiet in
    let second =
      handle_client_registration posix layout.encode_register_response request listening 30 true
        first.0.1 quiet in
    let name = generate_client_channel_name (pos 77) in
    (first.0.0 ≡ none)
    × (second.0.0 ≡ some (register_response (pos 0) name))
    × ((s : ClientSession) × (find_session (pos 77) second.0.1 ≡ some s) × (s.has_worker ≡ false))
registration_without_worker_example =
    registration_without_worker posix layout.encode_register_response request listening listening 20
      30 true sessions quiet quiet not_there set_up

-- A `process` that counts the requests.
abbrev counted : NetlinkRequest → ℕ → NetlinkResponse × ℕ
counted r n = (query_response (pos 0) true false, suc n)

worker_round_lem_example :
    let r = worker_round posix layout counted 20 session 0 quiet in
    IsRound posix layout counted 0 (accept posix session.socket 1000 quiet) (r.0.1, r.0.2)
    × (r.0.0 ≡ (if is_some r.0.1 then record session { last_activity = 20 } else session))
    × Accounts (pos 4) quiet 0 r.1 0
worker_round_lem_example = worker_round_lem (pos 4) posix layout counted 20 session 0 quiet

cleanup_pass_lem_example :
    let alive : ℤ → Bool = λ pid. false in
    let r = cleanup_pass posix alive 20 sessions quiet in
    (r.0 ≡ fresh_sessions alive 20 sessions)
    × (r.1.opened (pos 4) ≡ quiet.opened (pos 4))
    × (owned_all (pos 4) sessions + quiet.closed (pos 4)
        ≡ owned_all (pos 4) r.0 + r.1.closed (pos 4))
cleanup_pass_lem_example = cleanup_pass_lem (pos 4) posix (λ pid. false) 20 sessions quiet

initialize_lem_example :
    let r = initialize posix fresh_socket quiet in
    (((r.0.0 ≡ true) × IsOpen r.0.1) ⊎ ((r.0.0 ≡ false) × IsClosed r.0.1))
    × Accounts (pos 4) quiet 0 r.1 (owned (pos 4) r.0.1)
initialize_lem_example =
    initialize_lem (pos 4) posix fresh_socket quiet (unix_socket-IsClosed (text "daemon") server)

channel_reaches_client_example :
    let name = generate_client_channel_name (pos 77) in
    let told = c_str (register_response (pos 0) name).client_channel_name in
    (told ≡ name)
    × (setup_address (unix_socket told client) ≡ setup_address (unix_socket name server))
    × (setup_address (unix_socket name server) ≡ some (text "/run/hycan_" ++ name))
channel_reaches_client_example = channel_reaches_client (pos 77) (omega arith)
