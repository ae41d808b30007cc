-- ===== src/Tests/Objects.antt =====
-- Programs on CAN sockets that hold one frame at most, and on the daemon of
-- Tests/Clients.antt; and calls of the manager of a process.

use hy_can.Interface.Object.Life.{Operation, op_up, op_down, op_is_up, op_send, op_register}
use hy_can.Can.Loopback.{
  CanFrameConvertible, IsFaithful, hand_over, delivered_values, arrival, send_all, loopback,
}
use hy_can.Can.Dispatcher.{Dispatcher, running, reap_process}
use hy_can.Can.Sender.{new_sender}
use hy_can.Tests.Clients.{client_layout, shell, always_made}
use hy_can.Tests.Channels.{posix, quiet}
use hy_can.IpcManager.OneClient.{
  Call, exists_call, set_call, is_up_call, client_of, manager_calls, client_calls,
  manager_is_one_client,
}
use hy_can.IpcManager.{new_manager}
use hy_can.Client.{new_client}
use hy_can.Can.Dispatcher.Lifecycle.{Poll}
use hy_can.Base.{
  ◌==◌, none, some, reverse, map, Text, text, pos, minus_one, if◌then◌else◌, ℕ, suc, ◌≡◌, refl,
  Bool, true, false, List, [], ◌∷◌, arith,
}
use hy_can.Can.Network.{Network, eagain}
use hy_can.Interface.Object.{Interface, Systems}
use hy_can.Interface.{vcan}

-- The state is the last descriptor, and whether a frame waits.
abbrev pub small_buses : Network
small_buses = record {
  World = ℕ × Bool;
  socket = λ w. (pos (suc w.0), (suc w.0, w.1));
  interface_index = λ fd name w. ((pos 0, 2), w);
  bind = λ fd index w. (pos 0, w);
  set_nonblocking = λ fd w. w;
  read = λ fd w. elim w.1 [ false ↦ (minus_one, w) | true ↦ (pos 16, (w.0, false)) ];
  write = λ fd frame w. (pos 16, w);
  close = λ fd w. w;
  errno = λ w. eagain;
  strerror = λ code. text "error";
}

abbrev pub small_poll : Poll small_buses
small_poll = record {
  epoll_create = λ w. (pos (suc w.0), (suc w.0, w.1));
  eventfd = λ w. (pos (suc w.0), (suc w.0, w.1));
  epoll_add = λ epoll fd w. (pos 0, w);
  event_write = λ fd w. (pos 8, w);
  reaper_ends = λ w. true;
}

abbrev waiting : ℕ × Bool → ℕ
waiting w = if w.1 then 1 else 0

abbrev systems : Systems small_buses posix (List Text)
systems = (
  record { world = (3, true); opened = λ fd. 0; closed = λ fd. 0; sent = []; writes = 0 },
  (new_manager, (quiet, [])),
)

abbrev calls : List Call
calls =
    exists_call (text "can0") ∷ set_call (text "can0") true 500_000 ∷ is_up_call (text "can0") ∷ []

manager_is_one_client_example :
    let r =
      manager_calls posix client_layout
        (pos 77)
        shell
        always_made
        calls
        (new_manager, (quiet, [])) in
    let c =
      client_calls posix client_layout (pos 77) shell always_made calls new_client (quiet, []) in
    (r.0 ≡ c.0.0) × (r.1.1 ≡ c.1) × (client_of r.1.0 ≡ c.0.1)
manager_is_one_client_example =
    manager_is_one_client posix client_layout (pos 77) shell always_made calls (quiet, []) refl

-- A value of one byte.
abbrev byte_values : CanFrameConvertible ℕ
byte_values = record {
  to_frame = λ v. record { can_id = 0x123; len = 1; bytes = v ∷ [] };
  from_frame = λ frame. elim frame.bytes [ [] ↦ 0 | b ∷ bytes ↦ b ];
}

byte_values-IsFaithful : IsFaithful byte_values
byte_values-IsFaithful = record { back = λ v. refl }

abbrev listener : Dispatcher ℕ
listener = record { funcs = λ id. if id == 0x123 then some 9 else none; lock = false; calls = [] }

loopback_example :
    let r = send_all byte_values small_buses (5 ∷ 6 ∷ []) (new_sender (text "can0")) systems.0 in
    (d' : Dispatcher ℕ) × (reap_process (pos 4) (map (arrival (pos 8)) (reverse r.1.sent)) listener
      ≡ running d')
    × (map (hand_over byte_values) (reverse d'.calls)
        ≡ map (λ v. (9, v)) (delivered_values (5 ∷ 6 ∷ []) r.0.0))
loopback_example =
    loopback byte_values small_buses (pos 8) (pos 4) 9 listener (5 ∷ 6 ∷ [])
      (new_sender (text "can0")) systems.0 byte_values-IsFaithful refl refl refl
      (omega arith, (omega arith, tt)) (refl, (refl, tt))

-- The object that the constructor makes on these sockets.
abbrev new_object : Interface ℕ
new_object = record {
  interface_name = text "vcan0";
  dispatcher = record { funcs = λ id. none; lock = false; calls = [] };
  line = record {
    socket = record { sock_fd = pos 0; interface_name = text "vcan0" };
    thread_event_fd = pos 5;
    epoll_fd = pos 4;
    joinable = false;
    started = 0;
    joined = 0;
  };
  sender = new_sender (text "vcan0");
}

abbrev operations : List (Operation ℕ)
operations =
    op_register (0x123 ∷ []) 3
    ∷ op_up vcan 500_000
    ∷ op_send (record { can_id = 0x123; len = 0; bytes = [] })
    ∷ op_is_up
    ∷ op_down
    ∷ []
