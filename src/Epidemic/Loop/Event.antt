-- ===== src/Epidemic/Loop/Event.antt =====
-- artillery-core/src/epidemic/state.rs, `event_loop`: the whole loop of a node's thread, turn by turn.
-- Instants and spans are nanoseconds. The ping interval is not negative, so that
-- `u64::try_from` succeeds.
pub mod Turns
pub mod Work
pub mod Ends
use artillery.Base.{
  ℕ, zero, suc, ◌+◌, ◌*◌, ◌-◌, ◌/◌, Bool, List, [], ◌∷◌, ◌++◌, Option, none, some, ◌>>=◌,
  if◌then◌else◌, leb, ◌==◌,
}
use artillery.Member.{SocketAddr}
use artillery.Epidemic.{
  ClusterConfig, ArtilleryMessage, ArtilleryClusterRequest, ArtilleryEpidemic, Env,
}
use artillery.Epidemic.Loop.{
  tick, Drained, emptied, panicked, unfinished, drain, Received, drained, stopped, receive_all,
}
use artillery.Epidemic.Loop.Load.{load}

-- The token that the socket is registered with.
abbrev pub udp_server : ℕ
udp_server = 0

-- What the socket gives in one go: the datagrams that wait, and whether it then fails.
pub record Socket : Type 0 where
  pub datagrams : List (List ℕ × SocketAddr)
  pub broken : Bool

-- What one turn of the loop draws from outside: the clock when the turn begins and after a tick, the
-- tokens of the events that `poll` finds unless it fails, what other threads have sent on the
-- channel by then, the `Env` of each request that is worked off, and the socket at each event.
pub record Turn : Type 0 where
  pub now : ℕ
  pub ticked : ℕ
  pub tick_env : Env
  pub polled : Option (List ℕ)
  pub submitted : List ArtilleryClusterRequest
  pub drain_env : ℕ → Env
  pub socket : ℕ → Socket

-- The variables of the loop. `events` is written by `poll` alone.
pub record EventLoop : Type 0 where
  pub state : ArtilleryEpidemic
  pub start : ℕ
  pub events : List ℕ

-- What a turn comes to: another turn, `Ok(())`, an error, a panic, or, for the model alone, that the
-- loop over the requests has not come to its end.
pub data Turned : Type 0 where
  goes_on : EventLoop → Turned
  finished : ArtilleryEpidemic → Turned
  failed : ArtilleryEpidemic → Turned
  crashed overrun : Turned

-- The interval is rounded down to milliseconds.
abbrev pub timeout_of : ClusterConfig → ℕ
timeout_of config = config.ping_interval / 1000000 * 1000000

unfoldable pub tick_when_due : ℕ → Turn → EventLoop → Option EventLoop
unfolding tick
tick_when_due timeout turn l =
    if leb timeout (turn.now - l.start)
    then (do s ← tick turn.tick_env l.state; some (record l { state = s; start = turn.ticked }))
    else some l

-- `timeout.checked_sub(elapsed)`: a turn that is late does not poll, and has the events of an
-- earlier turn.
unfoldable pub poll_events : ℕ → ℕ → Turn → List ℕ → Option (List ℕ)
poll_events timeout elapsed turn events = if leb elapsed timeout then turn.polled else some events

abbrev pub first_envs : ℕ → (ℕ → Env) → List Env
first_envs zero envs = []
first_envs (suc n) envs = envs 0 ∷ first_envs n (λ i. envs (suc i))

abbrev pub submit : List ArtilleryClusterRequest → ArtilleryEpidemic → ArtilleryEpidemic
submit rs s = record s { requests = s.requests ++ rs }

unfoldable pub receive_event :
    (List ℕ → Option ArtilleryMessage) → Socket → ℕ → ArtilleryEpidemic → Received
unfolding receive_all
receive_event decode socket token s =
    if token == udp_server then receive_all decode socket.datagrams socket.broken s else drained s

unfoldable pub receive_events :
    (List ℕ → Option ArtilleryMessage) → (ℕ → Socket) → List ℕ → ArtilleryEpidemic → Received
unfolding receive_event
receive_events decode socket [] s = drained s
receive_events decode socket (token ∷ events) s = elim (receive_event decode (socket 0) token s) [
  | stopped s' ↦ stopped s'
  | drained s' ↦ receive_events decode (λ i. socket (suc i)) events s'
]

abbrev pub after_inbound : EventLoop → Received → Turned
after_inbound l (drained s) = goes_on (record l { state = s })
after_inbound l (stopped s) = failed s

abbrev pub after_drain : (List ℕ → Option ArtilleryMessage) → Turn → EventLoop → Drained → Turned
after_drain decode turn l (emptied s) =
    after_inbound l (receive_events decode turn.socket l.events s)
after_drain decode turn l panicked = crashed
after_drain decode turn l (unfinished s) = overrun

-- The requests are worked off in as many rounds as the load of the node says.
unfoldable pub work_off :
    (List ℕ → Option ArtilleryMessage) → (ℕ → Bool) → Turn → EventLoop → Turned
unfolding drain receive_events
work_off decode hears turn l =
    let s = submit turn.submitted l.state in
    let envs = first_envs (load s.config.ping_request_host_count s) turn.drain_env in
    after_drain decode turn l (drain hears envs s)

abbrev pub after_poll :
    (List ℕ → Option ArtilleryMessage) → (ℕ → Bool) → Turn → EventLoop → Option (List ℕ) → Turned
after_poll decode hears turn l none = failed (submit turn.submitted l.state)
after_poll decode hears turn l (some events) =
    work_off decode hears turn (record l { events = events })

abbrev pub after_tick :
    (List ℕ → Option ArtilleryMessage) → (ℕ → Bool) → ℕ → ℕ → Turn → Option EventLoop → Turned
after_tick decode hears timeout elapsed turn none = crashed
after_tick decode hears timeout elapsed turn (some l) =
    if l.state.running
    then after_poll decode hears turn l (poll_events timeout elapsed turn l.events)
    else finished l.state

unfoldable pub turn_once :
    (List ℕ → Option ArtilleryMessage) → (ℕ → Bool) → ℕ → Turn → EventLoop → Turned
unfolding tick_when_due poll_events work_off
turn_once decode hears timeout turn l =
    after_tick decode hears timeout (turn.now - l.start) turn (tick_when_due timeout turn l)

-- The turns that are given, or fewer when the loop ends.
unfoldable pub event_loop :
    (List ℕ → Option ArtilleryMessage) → (ℕ → Bool) → ℕ → List Turn → EventLoop → Turned
unfolding turn_once
event_loop decode hears timeout [] l = goes_on l
event_loop decode hears timeout (turn ∷ turns) l = elim (turn_once decode hears timeout turn l) [
  | goes_on l' ↦ event_loop decode hears timeout turns l'
  | finished s ↦ finished s
  | failed s ↦ failed s
  | crashed ↦ crashed
  | overrun ↦ overrun
]

-- The loop as the thread enters it.
abbrev pub enter : ℕ → ArtilleryEpidemic → EventLoop
enter now s = record { state = s; start = now; events = [] }
