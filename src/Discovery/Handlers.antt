-- ===== src/Discovery/Handlers.antt =====
-- artillery-core/src/service_discovery/udp_anycast/state.rs: what a node does with datagrams and with
-- its own requests, and a round of the event loop.
use artillery.Base.{
  ℕ, Bool, true, false, ◌&&◌, List, [], ◌∷◌, ◌++◌, Option, none, some, length, drop, map, retain,
  ◌==◌, if◌then◌else◌, take,
}
use artillery.Member.{SocketAddr}
use artillery.Discovery.{
  ServiceDiscoveryReply, ServiceDiscoveryRequest, register_observer, set_broadcast_listen,
  seek_peers, exit, ServiceDiscoveryMessage, request, response, MulticastServiceDiscoveryState, Io,
  Token, on_discovery, seek_nodes, other_token, Interest, readable_interest, writable_interest,
  Handled, fine, failing, panicking, out_of_fuel, utf8_error, register,
}
use artillery.Discovery.Sending.{tried, sent_to, writable}

-- Each observer is told, and stays if its channel takes the reply.
unfoldable pub tell_observers :
    Io → ServiceDiscoveryReply → MulticastServiceDiscoveryState → MulticastServiceDiscoveryState
tell_observers io content s = record s {
  observers = retain (λ o. io.observe o content) s.observers;
  told = s.told ++ map (λ o. (o, content)) (retain (λ o. io.observe o content) s.observers);
}

unfoldable pub handle_message :
    Io → SocketAddr → ServiceDiscoveryMessage → MulticastServiceDiscoveryState → Handled
unfolding tell_observers
handle_message io peer_addr request s =
    if s.listen
    then register io on_discovery writable_interest
        (record s { seeker_replies = s.seeker_replies ++ peer_addr ∷ [] })
    else register io on_discovery readable_interest s
handle_message io peer_addr (response uid content) s =
    register io on_discovery readable_interest
      (if uid == s.uid then s else tell_observers io content s)

abbrev pub parsed :
    Io → SocketAddr → Option ServiceDiscoveryMessage → MulticastServiceDiscoveryState → Handled
parsed io peer_addr none s = fine s
parsed io peer_addr (some msg) s = handle_message io peer_addr msg s

-- A datagram overwrites the front of the buffer, and the whole buffer is read.
abbrev pub receive : List ℕ → MulticastServiceDiscoveryState → MulticastServiceDiscoveryState
receive datagram s = record s { buf = datagram ++ drop (length datagram) s.buf }

abbrev pub decoded : Io → SocketAddr → Option (List ℕ) → MulticastServiceDiscoveryState → Handled
decoded io peer_addr none s = failing utf8_error s
decoded io peer_addr (some serialized) s = parsed io peer_addr (io.parse serialized) s

-- `recv_from` gives a datagram and its sender, or nothing.
unfoldable pub readable :
    Io → Option (List ℕ × SocketAddr) → MulticastServiceDiscoveryState → Handled
unfolding handle_message
readable io none s = fine s
readable io (some received) s =
    decoded io received.1 (io.decode_utf8 (receive received.0 s).buf) (receive received.0 s)

-- `if let Err(..) = reregister(..)`: the node stops.
abbrev register_or_stop :
    Io → Token → Interest → MulticastServiceDiscoveryState → MulticastServiceDiscoveryState
register_or_stop io token interest s =
    if io.reregister token interest
    then record s { registered = (token, interest) }
    else record s { running = false }

abbrev pub seek : Io → Option ℕ → MulticastServiceDiscoveryState → MulticastServiceDiscoveryState
seek io none s = register_or_stop io seek_nodes writable_interest (tried s)
seek io (some n) s =
    register_or_stop io on_discovery readable_interest
      (sent_to s.config.seeking_addr (take n s.seek_request) s)

-- The result holds the channel on which an `Exit` is to be answered.
unfoldable pub process_internal_request :
    Io
    → ServiceDiscoveryRequest
    → MulticastServiceDiscoveryState
    → Option ℕ × MulticastServiceDiscoveryState
process_internal_request io (register_observer sender) s =
    (none, record s { observers = s.observers ++ sender ∷ [] })
process_internal_request io (set_broadcast_listen bcast_listen) s =
    (none, record s { listen = bcast_listen })
process_internal_request io seek_peers s =
    (none, seek io (io.send_to s.attempts s.seek_request s.config.seeking_addr) s)
process_internal_request io (exit tx) s = (some tx, s)

-- The requests that wait, in order.
unfoldable pub process_requests :
    Io
    → List ServiceDiscoveryRequest
    → MulticastServiceDiscoveryState
    → MulticastServiceDiscoveryState
unfolding process_internal_request
process_requests io [] s = s
process_requests io (msg ∷ msgs) s =
    let (exit_tx, s') = process_internal_request io msg s in
    process_requests io msgs (elim exit_tx [
      | none ↦ s'
      | some tx ↦ record s' { running = false; exited = s'.exited ++ tx ∷ [] }
    ])

pub record Event : Type 0 where
  pub token : Token
  pub is_readable : Bool
  pub is_writable : Bool
  pub received : Option (List ℕ × SocketAddr)

abbrev pub is_discovery : Token → Bool
is_discovery on_discovery = true
is_discovery seek_nodes = false
is_discovery (other_token n) = false

unfoldable pub process_event : Io → Event → MulticastServiceDiscoveryState → Handled
unfolding readable writable
process_event io event s =
    let read =
      if event.is_readable && is_discovery event.token
      then readable io event.received s
      else fine s in
    elim read [
      | fine s' ↦ if event.is_writable then writable io event.token s' else fine s'
      | failing e s' ↦ failing e s'
      | panicking s' ↦ panicking s'
      | out_of_fuel s' ↦ out_of_fuel s'
    ]

-- An event that fails ends the loop over the events, and is logged.
unfoldable pub process_events : Io → List Event → MulticastServiceDiscoveryState → Handled
unfolding process_event
process_events io [] s = fine s
process_events io (event ∷ events) s = elim (process_event io event s) [
  | fine s' ↦ process_events io events s'
  | failing e s' ↦ fine s'
  | panicking s' ↦ panicking s'
  | out_of_fuel s' ↦ out_of_fuel s'
]

-- One round of `event_loop`: the requests first, then the events of the poll.
unfoldable pub round :
    Io → List ServiceDiscoveryRequest → List Event → MulticastServiceDiscoveryState → Handled
unfolding process_requests process_events
round io msgs events s = process_events io events (process_requests io msgs s)
