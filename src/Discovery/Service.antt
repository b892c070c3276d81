-- ===== src/Discovery/Service.antt =====
-- artillery-core/src/service_discovery/udp_anycast/state.rs, `event_loop`, and sd.rs, the front of the
-- thread that runs it. Instants and spans are nanoseconds, and the timeout is not negative.
-- What is sent to the thread while it works off its requests waits for its next turn, and a call that
-- waits for an answer returns at the end of the turn in which it is answered.
pub mod Shutdown
use artillery.Base.{
  ℕ, ◌*◌, ◌-◌, ◌/◌, Bool, List, [], ◌∷◌, ◌++◌, Option, none, some, any, leb, ◌==◌, if◌then◌else◌,
}
use artillery.Discovery.{
  MulticastServiceDiscoveryConfig, MulticastServiceDiscoveryState, ServiceDiscoveryRequest,
  register_observer, set_broadcast_listen, seek_peers, exit, Io, Handled, fine, failing, panicking,
  out_of_fuel,
}
use artillery.Discovery.Handlers.{Event, round}

-- What a turn draws from outside: the clock when it begins and after the timer is set again, the
-- events of the poll unless it fails, and the rest of the world.
pub record Turn : Type 0 where
  pub now : ℕ
  pub restarted : ℕ
  pub polled : Option (List Event)
  pub io : Io

-- The variables of the loop. `events` is written by `poll` alone.
pub record EventLoop : Type 0 where
  pub state : MulticastServiceDiscoveryState
  pub start : ℕ
  pub events : List Event

abbrev pub timeout_of : MulticastServiceDiscoveryConfig → ℕ
timeout_of config = config.timeout_delta / 1000000 * 1000000

-- What a turn comes to: another one; the thread has ended, with the state that it had; or it sends
-- for ever.
pub data Turned : Type 0 where
  goes_on : EventLoop → Turned
  ended : MulticastServiceDiscoveryState → Turned
  spins : MulticastServiceDiscoveryState → Turned

abbrev pub after_round : EventLoop → Handled → Turned
after_round l (fine s) = goes_on (record l { state = s })
after_round l (failing e s) = goes_on (record l { state = s })
after_round l (panicking s) = ended s
after_round l (out_of_fuel s) = spins s

-- A turn that is late does not poll, and has the events of an earlier turn.
abbrev pub poll_events : ℕ → ℕ → Turn → List Event → Option (List Event)
poll_events timeout elapsed turn events = if leb elapsed timeout then turn.polled else some events

abbrev pub after_poll :
    Turn → List ServiceDiscoveryRequest → EventLoop → Option (List Event) → Turned
after_poll turn msgs l none = ended l.state
after_poll turn msgs l (some events) =
    after_round (record l { events = events }) (round turn.io msgs events l.state)

abbrev pub restart : ℕ → Turn → EventLoop → EventLoop
restart timeout turn l =
    if leb timeout (turn.now - l.start) then record l { start = turn.restarted } else l

-- One turn of the loop, with the requests that wait.
unfoldable pub turn_once : ℕ → Turn → List ServiceDiscoveryRequest → EventLoop → Turned
unfolding round
turn_once timeout turn msgs l =
    if l.state.running
    then after_poll turn msgs (restart timeout turn l)
        (poll_events timeout (turn.now - l.start) turn l.events)
    else ended l.state

-- The thread and its channel: it runs, with the requests that wait; it has ended, and with it the
-- receiver; or it is caught in a loop of sends.
pub data Thread : Type 0 where
  alive : EventLoop → List ServiceDiscoveryRequest → Thread
  gone : MulticastServiceDiscoveryState → Thread
  caught : MulticastServiceDiscoveryState → Thread

abbrev pub thread_of : Turned → Thread
thread_of (goes_on l) = alive l []
thread_of (ended s) = gone s
thread_of (spins s) = caught s

unfoldable pub advance : ℕ → Turn → Thread → Thread
unfolding turn_once
advance timeout turn (alive l msgs) = thread_of (turn_once timeout turn msgs l)
advance timeout turn (gone s) = gone s
advance timeout turn (caught s) = caught s

-- `comm.send(..)`: an error once the receiver is gone.
unfoldable pub send : ServiceDiscoveryRequest → Thread → Option Thread
send msg (alive l msgs) = some (alive l (msgs ++ msg ∷ []))
send msg (gone s) = none
send msg (caught s) = some (caught s)

abbrev pub register_seeker : ℕ → Thread → Option Thread
register_seeker observer = send (register_observer observer)

abbrev pub set_listen_for_peers : Bool → Thread → Option Thread
set_listen_for_peers listen = send (set_broadcast_listen listen)

abbrev pub seek_for_peers : Thread → Option Thread
seek_for_peers = send seek_peers

-- `rx.recv().unwrap()`: the answer has come, it can come no more and the call panics, or the call
-- still waits when the turns given are over.
pub data Exited : Type 0 where
  returned : Thread → Exited
  panicked : Exited
  waits : Thread → Exited

abbrev pub is_answered : ℕ → Thread → Bool
is_answered tx (alive l msgs) = any (λ x. x == tx) l.state.exited
is_answered tx (gone s) = any (λ x. x == tx) s.exited
is_answered tx (caught s) = any (λ x. x == tx) s.exited

abbrev pub unanswered : Thread → Exited → Exited
unanswered (alive l msgs) later = later
unanswered (gone s) later = panicked
unanswered (caught s) later = later

unfoldable pub receive : ℕ → ℕ → List Turn → Thread → Exited
unfolding advance
receive timeout tx [] t = waits t
receive timeout tx (turn ∷ turns) t =
    let t' = advance timeout turn t in
    let later = receive timeout tx turns t' in
    if is_answered tx t' then returned t' else unanswered t' later

-- `send(Exit(tx)).unwrap()`, and the wait for the answer.
unfoldable pub discovery_exit : ℕ → ℕ → List Turn → Thread → Exited
unfolding send receive
discovery_exit timeout tx turns t = elim (send (exit tx) t) [
  | none ↦ panicked
  | some t' ↦ receive timeout tx turns t'
]

-- `shutdown`, and `drop`, which exits once more.
abbrev pub shutdown : ℕ → ℕ → List Turn → Thread → Exited
shutdown = discovery_exit

abbrev pub drop_service : ℕ → ℕ → List Turn → Thread → Exited
drop_service = discovery_exit
