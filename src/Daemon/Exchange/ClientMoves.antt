-- ===== src/Daemon/Exchange/ClientMoves.antt =====
-- The moves of a client keep what holds between the history, the channels and the clients.
use hy_can.Message.{NetlinkRequest, NetlinkResponse}
use hy_can.Daemon.Exchange.Updates.{both_change, client_change, thread-IsClient}
use hy_can.Daemon.Exchange.Channels.{
  arrive, ask_on, arrive-IsChannel, arrive-Agrees, ask-IsChannel, ask-Agrees,
}
use hy_can.Daemon.Exchange.Bookkeeping.{InHistory, processed_as, IsExchange, put_same}
use hy_can.Daemon.Exchange.{
  Connection, ClientPlace, client_rests, client_connected, client_sent, client_answered,
  client_gave_up, Channel, Exchange, new_connection, place_client, place_channel, send_on, read_on,
  client_step, give_up_waiting,
}
use hy_can.Base.{if-cases, ℕ, ◌<◌, subst, ◌≡◌, refl, sym, ap, ◌∙◌, Bool, Option, none, some, arith}

module _ {S : Type 0} (process : NetlinkRequest → S → NetlinkResponse × S) (first : S) where
  pub connects :
      (s : Exchange S) (t c : ℕ) (request : NetlinkRequest)
      → IsExchange process first s
      → IsExchange process first (
          place_client process
            (place_channel process s c (arrive t (s.channels c)))
            t
            (client_connected c (s.channels c).arrived request))
  connects s t c request h =
      let ch = s.channels c in
      let good = h.good_channel c in
      both_change process first s c (arrive t ch) t (client_connected c ch.arrived request) h
        (arrive-IsChannel s.history c ch good t) (omega arith)
        (λ u other. arrive-Agrees s.history c ch good t u)
        (subst
          (λ (f : Channel).
            (ch.arrived < f.arrived)
            × ((f.connections ch.arrived).owner ≡ t)
            × ((f.connections ch.arrived).request ≡ none))
          (sym (put_same s.channels c (arrive t ch)))
          (
            omega arith,
            ap (λ (x : Connection). x.owner)
                (put_same ch.connections ch.arrived (new_connection t)),
            ap (λ (x : Connection). x.request)
                (put_same ch.connections ch.arrived (new_connection t)),
          ))

  asks :
      (s : Exchange S) (t c k : ℕ) (request : NetlinkRequest)
      → IsExchange process first s
      → s.clients t ≡ client_connected c k request
      → IsExchange process first (
          place_client process
            (place_channel process s c (ask_on k request (s.channels c)))
            t
            (client_sent c k request))
  asks s t c k request h e =
      let ch = s.channels c in
      let good = h.good_channel c in
      let own = thread-IsClient process first s t (client_connected c k request) h e in
      both_change process first s c (ask_on k request ch) t (client_sent c k request) h
        (ask-IsChannel s.history c ch good k request own.2) (omega arith)
        (λ u other. ask-Agrees s.history c ch good k request own.2 t u own.1 other)
        (subst
          (λ (f : Channel).
            (k < f.arrived)
            × ((f.connections k).owner ≡ t)
            × ((f.connections k).request ≡ some request))
          (sym (put_same s.channels c (ask_on k request ch)))
          (
            own.0,
            ap (λ (x : Connection). x.owner) (put_same ch.connections k _) ∙ own.1,
            ap (λ (x : Connection). x.request) (put_same ch.connections k _),
          ))

  send_on-IsExchange :
      (s : Exchange S) (t c k : ℕ) (request : NetlinkRequest)
      → IsExchange process first s
      → s.clients t ≡ client_connected c k request
      → IsExchange process first (send_on process ((s.channels c).connections k) t c k request s)
  unfolding send_on
  send_on-IsExchange s t c k request h e =
      if-cases (IsExchange process first) ((s.channels c).connections k).is_closed _ _
        (λ closed. client_change process first s t (client_gave_up request) h tt)
        (λ open_yet. asks s t c k request h e)

  read_on-IsExchange :
      (response : Option NetlinkResponse) (is_closed : Bool) (s : Exchange S) (t c k : ℕ)
      (request : NetlinkRequest)
      → IsExchange process first s
      → s.clients t ≡ client_sent c k request
      → ((s.channels c).connections k).response ≡ response
      → IsExchange process first (read_on process response is_closed t c k request s)
  unfolding read_on
  read_on-IsExchange (some response) is_closed s t c k request h e sent =
      let own = thread-IsClient process first s t (client_sent c k request) h e in
      let (r, has, done) = (h.good_channel c).replied k response sent in
      let same : r ≡ request = cc in
      client_change process first s t (client_answered c k request response) h
        (subst (λ q. InHistory (processed_as c k q response) s.history) same done)
  read_on-IsExchange none is_closed s t c k request h e sent =
      if-cases (IsExchange process first) is_closed
        (place_client process s t (client_gave_up request)) s
        (λ closed. client_change process first s t (client_gave_up request) h tt) (λ open_yet. h)

  pub client_step-IsExchange :
      (place : ClientPlace) (t : ℕ) (s : Exchange S)
      → s.clients t ≡ place
      → IsExchange process first s
      → IsExchange process first (client_step process place t s)
  unfolding client_step
  client_step-IsExchange client_rests t s e h = h
  client_step-IsExchange (client_connected c k request) t s e h =
      send_on-IsExchange s t c k request h e
  client_step-IsExchange (client_sent c k request) t s e h =
      read_on-IsExchange _ _ s t c k request h e refl
  client_step-IsExchange (client_answered c k request response) t s e h = h
  client_step-IsExchange (client_gave_up request) t s e h = h

  pub give_up_waiting-IsExchange :
      (place : ClientPlace) (t : ℕ) (s : Exchange S)
      → IsExchange process first s
      → IsExchange process first (give_up_waiting process place t s)
  unfolding give_up_waiting
  give_up_waiting-IsExchange (client_sent c k request) t s h =
      client_change process first s t (client_gave_up request) h tt
  give_up_waiting-IsExchange client_rests t s h = h
  give_up_waiting-IsExchange (client_connected c k request) t s h = h
  give_up_waiting-IsExchange (client_answered c k request response) t s h = h
  give_up_waiting-IsExchange (client_gave_up request) t s h = h
