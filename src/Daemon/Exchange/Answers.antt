-- ===== src/Daemon/Exchange/Answers.antt =====
-- Every answered request is one processing of it, and the processings are a sequence.
use hy_can.Netlink.Requests.{process_request}
use hy_can.Netlink.Manager.{NetlinkManager}
use hy_can.Netlink.Libnl.{Libnl, LibnlEnv}
use hy_can.Message.{NetlinkRequest, NetlinkResponse}
use hy_can.Daemon.Exchange.WorkerMoves.{worker_turn-IsExchange, drop_connection-IsExchange}
use hy_can.Daemon.Exchange.Updates.{client_change, thread-IsClient}
use hy_can.Daemon.Exchange.ClientMoves.{
  connects, client_step-IsExchange, give_up_waiting-IsExchange,
}
use hy_can.Daemon.Exchange.Bookkeeping.{InHistory, processed_as, IsInOrder, Replays, IsExchange}
use hy_can.Daemon.Exchange.{
  client_answered, client_gave_up, Exchange, ExchangeMove, client_connects, connect_fails,
  client_goes, client_times_out, worker_goes, worker_times_out, is_in_request, connect_channel,
  exchange, exchanges, at_first_exchange,
}
use hy_can.Base.{if-cases, ℕ, ◌≡◌, refl, List, [], ◌∷◌, arith}

module _ {S : Type 0} (process : NetlinkRequest → S → NetlinkResponse × S) (first : S) where
  pub exchange-IsExchange :
      (m : ExchangeMove) (s : Exchange S)
      → IsExchange process first s
      → IsExchange process first (exchange process m s)
  unfolding exchange connect_channel
  exchange-IsExchange (client_connects t c request) s h =
      if-cases (IsExchange process first) (is_in_request (s.clients t)) s _ (λ busy. h)
        (λ idle. connects process first s t c request h)
  exchange-IsExchange (connect_fails t request) s h =
      if-cases (IsExchange process first) (is_in_request (s.clients t)) s _ (λ busy. h)
        (λ idle. client_change process first s t (client_gave_up request) h tt)
  exchange-IsExchange (client_goes t) s h =
      client_step-IsExchange process first (s.clients t) t s refl h
  exchange-IsExchange (client_times_out t) s h =
      give_up_waiting-IsExchange process first (s.clients t) t s h
  exchange-IsExchange (worker_goes c) s h =
      worker_turn-IsExchange process first (s.channels c).worker c s refl h
  exchange-IsExchange (worker_times_out c) s h =
      drop_connection-IsExchange process first (s.channels c).worker c s refl h

  pub exchanges-IsExchange :
      (ms : List ExchangeMove) (s : Exchange S)
      → IsExchange process first s
      → IsExchange process first (exchanges process ms s)
  unfolding exchanges
  exchanges-IsExchange [] s h = h
  exchanges-IsExchange (m ∷ ms) s h =
      exchanges-IsExchange ms (exchange process m s) (exchange-IsExchange m s h)

  pub at_first-IsExchange : IsExchange process first (at_first_exchange process first)
  at_first-IsExchange = record {
    in_order = tt;
    served_before = tt;
    replayed = refl;
    good_channel = λ c. record {
      bounded = omega arith;
      placed = tt;
      replied = λ k r sent. absurd (ground (arith, sent));
    };
    good_client = λ t. tt;
  }

module _ (L : Libnl) (manager : NetlinkManager L) where
  -- However the system calls of any number of threads of clients and of the workers of their channels
  -- interleave, time-outs included: the daemon's kernel is the one that the processed requests give,
  -- one after the other, each with the response that it had in that sequence; on each channel the
  -- requests were processed in the order in which their connections came, none twice; and a client
  -- that has an answer has the response of its own request on its own connection.
  pub answered_once :
      (first : LibnlEnv L) (ms : List ExchangeMove)
      → let s =
          exchanges
            (process_request L manager)
            ms
            (at_first_exchange (process_request L manager) first) in
        Replays (process_request L manager) first s.history s.kernel
        × IsInOrder s.history
        × ((t c k : ℕ) (request : NetlinkRequest) (response : NetlinkResponse)
            → s.clients t ≡ client_answered c k request response
            → InHistory (processed_as c k request response) s.history)
  answered_once first ms =
      let process = process_request L manager in
      let h =
        exchanges-IsExchange process first ms (at_first_exchange process first)
          (at_first-IsExchange process first) in
      (
        h.replayed,
        h.in_order,
        λ t c k request response e.
            thread-IsClient process first (exchanges process ms (at_first_exchange process first)) t
              (client_answered c k request response) h e,
      )
