-- ===== src/Daemon/Exchange.antt =====
-- The clients and the workers of the daemon as one system: `send_request` of
-- src/Interface/NetlinkClient.cpp and `client_session_worker` of src/Daemon/Daemon.cpp, a system call at
-- a time, over the connections of the clients' channels. As unix(7) documents them, a channel hands its
-- connections out in the order in which they came; what is sent is read by the other side, unless
-- that has closed before; and a read from a side that has closed gives 0 bytes. The requests go whole. The
-- sessions last, and a client is registered. The mutex of the NetlinkManager makes the work on a
-- request one step.
pub mod Bookkeeping
pub mod Channels
pub mod Updates
pub mod ClientMoves
pub mod WorkerMoves
pub mod Answers
pub mod Effects
pub mod Contract
pub mod Served
use hy_can.Message.{NetlinkRequest, NetlinkResponse}
use hy_can.Base.{
  leb, ◌==◌, if◌then◌else◌, ℕ, suc, Bool, true, false, Option, none, some, List, [], ◌∷◌,
}

pub record Connection : Type 0 where
  -- The thread that has made it.
  pub owner : ℕ
  pub request : Option NetlinkRequest
  pub response : Option NetlinkResponse
  -- The worker has closed its end.
  pub is_closed : Bool

-- Where the worker of a channel is: in `accept`; in `recv`; at `process_request`; or at `send`.
pub data WorkerPlace : Type 0 where
  worker_waits : WorkerPlace
  worker_accepted : ℕ → WorkerPlace
  worker_received : ℕ → NetlinkRequest → WorkerPlace
  worker_responds : ℕ → NetlinkResponse → WorkerPlace

-- Where a thread of a client is: in no request; before its `send`; in its `recv`; or at the end of a
-- request, on a connection of a channel.
pub data ClientPlace : Type 0 where
  client_rests : ClientPlace
  client_connected client_sent : ℕ → ℕ → NetlinkRequest → ClientPlace
  client_answered : ℕ → ℕ → NetlinkRequest → NetlinkResponse → ClientPlace
  client_gave_up : NetlinkRequest → ClientPlace

-- A channel: how many connections have come, how many were accepted, and the worker.
pub record Channel : Type 0 where
  pub arrived : ℕ
  pub taken : ℕ
  pub connections : ℕ → Connection
  pub worker : WorkerPlace

-- A request that was processed.
pub record Processed : Type 0 where
  pub channel : ℕ
  pub number : ℕ
  pub request : NetlinkRequest
  pub response : NetlinkResponse

pub record Exchange (S : Type 0) : Type 0 where
  pub channels : ℕ → Channel
  pub clients : ℕ → ClientPlace
  pub kernel : S
  -- The latest first.
  pub history : List Processed

pub data ExchangeMove : Type 0 where
  client_connects : ℕ → ℕ → NetlinkRequest → ExchangeMove
  connect_fails : ℕ → NetlinkRequest → ExchangeMove
  client_goes client_times_out worker_goes worker_times_out : ℕ → ExchangeMove

abbrev pub put {ℓ} : {A : Type ℓ} → (ℕ → A) → ℕ → A → ℕ → A
put f i a j = if i == j then a else f j

abbrev pub is_in_request : ClientPlace → Bool
is_in_request (client_connected c k request) = true
is_in_request (client_sent c k request) = true
is_in_request _ = false

abbrev pub new_connection : ℕ → Connection
new_connection t = record { owner = t; request = none; response = none; is_closed = false }

abbrev pub set_connection : Channel → ℕ → Connection → Channel
set_connection ch k connection = record ch { connections = put ch.connections k connection }

module _ {S : Type 0} (process : NetlinkRequest → S → NetlinkResponse × S) where
  abbrev pub place_client : Exchange S → ℕ → ClientPlace → Exchange S
  place_client s t place = record s { clients = put s.clients t place }

  abbrev pub place_channel : Exchange S → ℕ → Channel → Exchange S
  place_channel s c ch = record s { channels = put s.channels c ch }

  -- `connect`, for a thread that is in no request.
  pub connect_channel : ℕ → ℕ → NetlinkRequest → Exchange S → Exchange S
  connect_channel t c request s =
      let ch = s.channels c in
      place_client
        (place_channel s c
          (record (set_connection ch ch.arrived (new_connection t)) { arrived = suc ch.arrived }))
        t (client_connected c ch.arrived request)

  -- `send`: it fails once the worker has closed.
  send_on : Connection → ℕ → ℕ → ℕ → NetlinkRequest → Exchange S → Exchange S
  send_on connection t c k request s =
      if connection.is_closed
      then place_client s t (client_gave_up request)
      else place_client
          (place_channel s c
            (set_connection (s.channels c) k (record connection { request = some request })))
          t (client_sent c k request)

  -- `recv`: the response, or the end of the connection, or it waits.
  read_on : Option NetlinkResponse → Bool → ℕ → ℕ → ℕ → NetlinkRequest → Exchange S → Exchange S
  read_on (some response) is_closed t c k request s =
      place_client s t (client_answered c k request response)
  read_on none is_closed t c k request s =
      if is_closed then place_client s t (client_gave_up request) else s

  pub client_step : ClientPlace → ℕ → Exchange S → Exchange S
  unfolding send_on read_on
  client_step (client_connected c k request) t s =
      send_on ((s.channels c).connections k) t c k request s
  client_step (client_sent c k request) t s =
      let connection = (s.channels c).connections k in
      read_on connection.response connection.is_closed t c k request s
  client_step _ t s = s

  pub give_up_waiting : ClientPlace → ℕ → Exchange S → Exchange S
  give_up_waiting (client_sent c k request) t s = place_client s t (client_gave_up request)
  give_up_waiting _ t s = s

  -- `accept`: the oldest connection, if there is one.
  accept_next : ℕ → Channel → Exchange S → Exchange S
  accept_next c ch s =
      if leb ch.arrived ch.taken
      then s
      else place_channel s c (record ch { taken = suc ch.taken; worker = worker_accepted ch.taken })

  receive_from : Option NetlinkRequest → ℕ → ℕ → Exchange S → Exchange S
  receive_from none c k s = s
  receive_from (some request) c k s =
      place_channel s c (record (s.channels c) { worker = worker_received k request })

  process_next : ℕ → ℕ → NetlinkRequest → Exchange S → Exchange S
  process_next c k request s =
      let r = process request s.kernel in
      record {
        channels = put s.channels c (record (s.channels c) { worker = worker_responds k r.0 });
        clients = s.clients;
        kernel = r.1;
        history = record { channel = c; number = k; request = request; response = r.0 } ∷ s.history;
      }

  -- The connection is closed at the end of a round.
  close_with : Option NetlinkResponse → ℕ → ℕ → Exchange S → Exchange S
  close_with response c k s =
      let ch = s.channels c in
      place_channel s c
        (record (set_connection ch k
          (record (ch.connections k) { response = response; is_closed = true })) {
            worker = worker_waits;
          })

  pub worker_turn : WorkerPlace → ℕ → Exchange S → Exchange S
  unfolding accept_next receive_from process_next close_with
  worker_turn worker_waits c s = accept_next c (s.channels c) s
  worker_turn (worker_accepted k) c s = receive_from ((s.channels c).connections k).request c k s
  worker_turn (worker_received k request) c s = process_next c k request s
  worker_turn (worker_responds k response) c s = close_with (some response) c k s

  -- The `recv` of the worker times out.
  pub drop_connection : WorkerPlace → ℕ → Exchange S → Exchange S
  unfolding close_with
  drop_connection (worker_accepted k) c s = close_with none c k s
  drop_connection _ c s = s

  unfoldable pub exchange : ExchangeMove → Exchange S → Exchange S
  unfolding connect_channel client_step give_up_waiting worker_turn drop_connection
  exchange (client_connects t c request) s =
      if is_in_request (s.clients t) then s else connect_channel t c request s
  exchange (connect_fails t request) s =
      if is_in_request (s.clients t) then s else place_client s t (client_gave_up request)
  exchange (client_goes t) s = client_step (s.clients t) t s
  exchange (client_times_out t) s = give_up_waiting (s.clients t) t s
  exchange (worker_goes c) s = worker_turn (s.channels c).worker c s
  exchange (worker_times_out c) s = drop_connection (s.channels c).worker c s

  unfoldable pub exchanges : List ExchangeMove → Exchange S → Exchange S
  exchanges [] s = s
  exchanges (m ∷ ms) s = exchanges ms (exchange m s)

  abbrev pub empty_channel : Channel
  empty_channel = record {
    arrived = 0;
    taken = 0;
    connections = λ k. new_connection 0;
    worker = worker_waits;
  }

  -- No request was made.
  abbrev pub at_first_exchange : S → Exchange S
  at_first_exchange kernel = record {
    channels = λ c. empty_channel;
    clients = λ t. client_rests;
    kernel = kernel;
    history = [];
  }
