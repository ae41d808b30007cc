-- ===== src/Tests/Exchanges.antt =====
-- Two clients on one channel of the machine of Tests/Table.antt.

use hy_can.Netlink.Requests.Contract.{Promise, process_request-Promise}
use hy_can.Daemon.Exchange.Contract.{IsTableRun, exchanges_keep_promises}
use hy_can.Tests.Table.{
  machine_calls, machine_table, machine_table-IsLawful, can0, vcan7, books, open_manager,
}
use hy_can.Netlink.Requests.Effect.{bitrate_wanted}
use hy_can.Netlink.Requests.{state_with_bitrate, process_request}
use hy_can.Netlink.Manager.{check_interface_is_up}
use hy_can.Netlink.LinkState.{set_interface_state_libnl}
use hy_can.Netlink.Libnl.{LibnlEnv}
use hy_can.Netlink.Kernel.{IsUpdate}
use hy_can.Netlink.Bitrate.{set_can_bitrate_libnl}
use hy_can.Message.{
  set_interface_state, strncpy, fill, fill_if_any, NetlinkRequest, state_request, NetlinkResponse,
  message_response, query_response,
}
use hy_can.Daemon.Exchange.Served.Turns.{turns_left, IsWaiting}
use hy_can.Daemon.Exchange.Served.{
  Serving, serving_turn, meanwhile, serving_turns, servings, request_is_served,
}
use hy_can.Daemon.Exchange.Effects.{answered_state_effect}
use hy_can.Daemon.Exchange.Bookkeeping.{InHistory, processed_as, IsInOrder, Replays}
use hy_can.Daemon.Exchange.Answers.{answered_once}
use hy_can.Daemon.Exchange.{
  client_sent, client_answered, client_gave_up, Processed, Exchange, ExchangeMove, client_connects,
  client_goes, client_times_out, worker_goes, exchange, exchanges, at_first_exchange,
}
use hy_can.Base.{
  text, c_str, starts_with, text_eq, pos, replicate, if◌then◌else◌, is_some, ℕ, ◌≤◌, ◌≡◌, refl,
  true, false, ◌&&◌, none, some, List, [], ◌∷◌, ◌++◌, map, arith,
}

abbrev raise : NetlinkRequest
raise = state_request can0 true true 250_000

abbrev lower_missing : NetlinkRequest
lower_missing = state_request vcan7 false false 0

-- The other thread times out before its request is processed.
abbrev two_clients : List ExchangeMove
two_clients =
    client_connects 0 3 raise
    ∷ client_connects 1 3 lower_missing
    ∷ client_goes 1
    ∷ worker_goes 3
    ∷ client_goes 0
    ∷ worker_goes 3
    ∷ client_times_out 1
    ∷ worker_goes 3
    ∷ worker_goes 3
    ∷ client_goes 0
    ∷ worker_goes 3
    ∷ worker_goes 3
    ∷ worker_goes 3
    ∷ []

abbrev handles : NetlinkRequest → LibnlEnv machine_calls → NetlinkResponse × LibnlEnv machine_calls
handles = process_request machine_calls open_manager

abbrev raised : NetlinkResponse
raised = (handles raise (books false)).0

abbrev after_both : Exchange (LibnlEnv machine_calls)
after_both = exchanges handles two_clients (at_first_exchange handles (books false))

is_answered : after_both.clients 0 ≡ client_answered 3 0 raise raised
unfolding exchanges exchange
is_answered = refl

-- The request that was given up was processed too.
gave_up_but_done :
    (after_both.clients 1 ≡ client_gave_up lower_missing)
    × (map (λ (p : Processed). p.request) after_both.history ≡ lower_missing ∷ raise ∷ [])
unfolding exchanges exchange
gave_up_but_done = (refl, refl)

answered_once_example :
    Replays handles (books false) after_both.history after_both.kernel
    × IsInOrder after_both.history
    × ((t c k : ℕ) (request : NetlinkRequest) (response : NetlinkResponse)
        → after_both.clients t ≡ client_answered c k request response
        → InHistory (processed_as c k request response) after_both.history)
answered_once_example = answered_once machine_calls open_manager (books false) two_clients

is_for_state : raise.operation ≡ set_interface_state
unfolding state_request
is_for_state = refl

is_raised : raised.result ≡ pos 0
unfolding process_request check_interface_is_up set_interface_state_libnl set_can_bitrate_libnl
    state_request query_response message_response fill fill_if_any strncpy c_str starts_with text_eq
    state_with_bitrate text
is_raised = refl

answered_state_effect_example :
    let name = c_str raise.interface_name in
    (later earlier : List Processed) × (before : LibnlEnv machine_calls) × (after_both.history
      ≡ later ++ processed_as 3 0 raise raised ∷ earlier)
    × Replays handles (books false) earlier before
    × (is_some (machine_table.find before.world name) ≡ true)
    × IsUpdate name
        (some raise.up)
        (if raise.up && raise.set_bitrate then bitrate_wanted name raise.bitrate else none)
        (machine_table.find before.world)
        (machine_table.find (handles raise before).1.world)
answered_state_effect_example =
    answered_state_effect machine_calls open_manager machine_table machine_table-IsLawful
      (books false) two_clients 0 3 0 raise raised is_for_state is_answered is_raised

-- A request behind a connection on which nothing was sent.
abbrev behind_silence : List ExchangeMove
behind_silence = client_connects 1 3 lower_missing ∷ client_connects 0 3 raise ∷ client_goes 0 ∷ []

abbrev in_queue : Exchange (LibnlEnv machine_calls)
in_queue = exchanges handles behind_silence (at_first_exchange handles (books false))

abbrev eight_turns : List Serving
eight_turns = meanwhile (client_goes 1) ∷ replicate 8 serving_turn

is_sent : in_queue.clients 0 ≡ client_sent 3 1 raise
unfolding exchanges exchange
is_sent = refl

is_queued : IsWaiting 1 (in_queue.channels 3)
unfolding exchanges exchange
is_queued = omega arith

are_enough : turns_left 1 (in_queue.channels 3) ≤ serving_turns eight_turns
unfolding exchanges exchange
are_enough = omega arith

request_is_served_example :
    let s' =
      exchange handles
        (client_goes 0)
        (servings handles (books false) 0 3 1 raise eight_turns in_queue) in
    (response : NetlinkResponse) × (s'.clients 0 ≡ client_answered 3 1 raise response)
    × InHistory (processed_as 3 1 raise response) s'.history
request_is_served_example =
    request_is_served handles (books false) 0 3 1 raise behind_silence is_sent is_queued eight_turns
      (refl, (tt, (tt, (tt, (tt, (tt, (tt, (tt, (tt, tt))))))))) are_enough

exchanges_keep_promises_example :
    IsTableRun
      (machine_table.find (books false).world)
      after_both.history
      (machine_table.find after_both.kernel.world)
exchanges_keep_promises_example =
    exchanges_keep_promises machine_calls open_manager machine_table machine_table-IsLawful
      (books false) two_clients

process_request-Promise_example :
    Promise raise.operation
      (c_str raise.interface_name)
      raise
      (handles raise (books false)).0
      (machine_table.find (books false).world)
      (machine_table.find (handles raise (books false)).1.world)
process_request-Promise_example =
    process_request-Promise machine_calls open_manager machine_table machine_table-IsLawful raise
      (books false)
