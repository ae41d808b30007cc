-- ===== src/Tests/Expiry.antt =====
-- A machine that knows which paths are bound, and the client of a session that its cleanup drops.

use hy_can.Util.Error.{is_ok}
use hy_can.UnixSocket.{server}
use hy_can.Tests.Clients.{client_layout}
use hy_can.Message.{interface_exists, NetlinkRequest, state_request, query_request}
use hy_can.Daemon.Sessions.Registration.{IsValid}
use hy_can.Daemon.Sessions.{
  ClientSession, Sessions, find_session, generate_client_channel_name, cleanup_pass,
}
use hy_can.Client.Expired.{PathLaws, registered_client, ask_all, expired_client_fails}
use hy_can.UnixSocket.Syscalls.{Env, Posix}
use hy_can.Base.{
  Text, text, text_eq, text_eq_refl, pos, minus_one, All, length, replicate, if◌then◌else◌, ℕ, suc,
  ◌≡◌, refl, Bool, true, false, ◌||◌, some, List, [], ◌∷◌, ◌++◌, arith,
}

record PathWorld : Type 0 where
  next : ℕ
  bound : Text → Bool

abbrev path_machine : Posix
path_machine = record {
  World = PathWorld;
  socket = λ w. (pos w.next, record w { next = suc w.next });
  bind = λ fd path w. (pos 0, record w { bound = λ q. text_eq q path || w.bound q });
  listen = λ fd n w. (pos 0, w);
  chmod = λ path mode w. (pos 0, w);
  connect = λ fd path w. (if w.bound path then pos 0 else minus_one, w);
  unlink = λ path w. record w { bound = λ q. if text_eq q path then false else w.bound q };
  close = λ fd w. w;
  select = λ fd t w. (pos 1, w);
  accept = λ fd w. (pos w.next, record w { next = suc w.next });
  send = λ fd bytes w. (pos (length bytes), w);
  recv = λ fd n w. ((pos n, replicate n 7), w);
}

path_machine-laws : PathLaws path_machine
path_machine-laws = record {
  listens = λ w q. w.bound q;
  unlink-listens = λ p w. rw (text_eq_refl p) refl;
  unlink_keeps = λ p q w h. ground (arith, h);
  close_keeps = λ fd q w h. h;
  socket_keeps = λ q w h. h;
  connect_keeps = λ fd p q w h. h;
  connect-refused = λ fd p w h. rw h refl;
}

abbrev idle_session : ClientSession
idle_session = record {
  client_pid = pos 5;
  channel_name = generate_client_channel_name (pos 5);
  socket = record {
    socket_fd = pos 8;
    socket_path = text "/run/hycan_" ++ generate_client_channel_name (pos 5);
    mode = server;
    connected = true;
  };
  has_worker = true;
  last_activity = 10;
  running = true;
}

abbrev idle_sessions : Sessions
idle_sessions = (pos 5, idle_session) ∷ []

idle_sessions-IsValid : IsValid idle_sessions
unfolding find_session
idle_sessions-IsValid = record {
  sessions = (
    record {
      own_pid = refl;
      own_channel = refl;
      listening = ((refl, refl), refl, refl);
      is_running = refl;
    },
    tt,
  );
  distinct = (refl, tt);
}

abbrev all_bound : Env path_machine
all_bound = record {
  world = record { next = 9; bound = λ q. true };
  opened = λ fd. 6;
  closed = λ fd. 0;
  unlinked = [];
}

abbrev five_and_more_minutes : ℕ
five_and_more_minutes = 300_000_000_011

is_found : find_session (pos 5) idle_sessions ≡ some idle_session
unfolding find_session
is_found = refl

abbrev two_requests : List NetlinkRequest
two_requests =
    query_request interface_exists (text "can0") ∷ state_request (text "vcan7") true false 0 ∷ []

expired_client_fails_example :
    let dropped =
      cleanup_pass path_machine (λ pid. true) five_and_more_minutes idle_sessions all_bound in
    let r =
      ask_all path_machine path_machine-laws client_layout
        (pos 5)
        two_requests
        (registered_client (pos 5))
        dropped.1 in
    All (λ response. is_ok response ≡ false) r.0 × (r.1 ≡ registered_client (pos 5))
expired_client_fails_example =
    expired_client_fails path_machine path_machine-laws client_layout (λ pid. true)
      five_and_more_minutes (pos 5) idle_session idle_sessions all_bound two_requests
      idle_sessions-IsValid is_found refl
