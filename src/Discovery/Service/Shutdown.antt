-- ===== src/Discovery/Service/Shutdown.antt =====
-- artillery-core/src/service_discovery/udp_anycast/sd.rs: the end of a service.
use artillery.Base.{
  ℕ, ◌-◌, ◌≡◌, refl, ap, ◌∙◌, inl, inr, Bool, true, false, List, [], ◌∷◌, ◌++◌, some, arith, any,
  leb, ◌==◌, ◌||◌, Bool-cases,
}
use artillery.Discovery.{
  MulticastServiceDiscoveryState, ServiceDiscoveryRequest, register_observer, set_broadcast_listen,
  seek_peers, exit, Io,
}
use artillery.Discovery.Handlers.{Event, seek, process_internal_request, process_requests, round}
use artillery.Discovery.Replies.{TakesSome}
use artillery.Discovery.Steady.{process_events-Same}
use artillery.Discovery.Service.{
  Turn, EventLoop, poll_events, after_round, after_poll, restart, turn_once, goes_on, ended, Thread,
  alive, advance, send, returned, panicked, receive, discovery_exit, shutdown, drop_service,
}

any-append : (p : ℕ → Bool) (xs ys : List ℕ) → any p (xs ++ ys) ≡ any p xs || any p ys
any-append p [] ys = refl
any-append p (x ∷ xs) ys = ground (arith, any-append p xs ys)

-- A list of requests that ends with an `Exit` stops the node, and answers it.
process_requests-exit :
    (io : Io) (msgs : List ServiceDiscoveryRequest) (tx : ℕ) (s : MulticastServiceDiscoveryState)
    → let t = process_requests io (msgs ++ exit tx ∷ []) s in
      (t.running ≡ false) × (any (λ x. x == tx) t.exited ≡ true)
unfolding process_requests process_internal_request
process_requests-exit io [] tx s =
    (refl, ground (arith, any-append (λ x. x == tx) s.exited (tx ∷ [])))
process_requests-exit io (register_observer sender ∷ msgs) tx s =
    process_requests-exit io msgs tx (record s { observers = s.observers ++ sender ∷ [] })
process_requests-exit io (set_broadcast_listen b ∷ msgs) tx s =
    process_requests-exit io msgs tx (record s { listen = b })
process_requests-exit io (seek_peers ∷ msgs) tx s =
    process_requests-exit io msgs tx
      (seek io (io.send_to s.attempts s.seek_request s.config.seeking_addr) s)
process_requests-exit io (exit other ∷ msgs) tx s =
    process_requests-exit io msgs tx (record s { running = false; exited = s.exited ++ other ∷ [] })

-- The poll succeeds, and a send fails or takes at least one byte.
abbrev pub IsFair : Turn → Type 0
IsFair turn = ((events : List Event) × (turn.polled ≡ some events)) × TakesSome turn.io

polls :
    (timeout elapsed : ℕ) (turn : Turn) (events : List Event)
    → IsFair turn
    → (found : List Event) × (poll_events timeout elapsed turn events ≡ some found)
polls timeout elapsed turn events ((tokens, has), _) = elim (Bool-cases (leb elapsed timeout)) [
  | inl early ↦ (tokens, rw early has)
  | inr late ↦ (events, rw late refl)
]

turn_once-running :
    (timeout : ℕ) (turn : Turn) (msgs : List ServiceDiscoveryRequest) (l : EventLoop)
    → l.state.running ≡ true
    → turn_once timeout turn msgs l
      ≡ after_poll turn msgs
          (restart timeout turn l)
          (poll_events timeout (turn.now - l.start) turn l.events)
unfolding turn_once
turn_once-running timeout turn msgs l runs = rw (runs, turn_once) refl

-- A turn whose requests end with an `Exit` answers it and stops.
turn_once-exit :
    (timeout : ℕ) (turn : Turn) (msgs : List ServiceDiscoveryRequest) (tx : ℕ) (l : EventLoop)
    → IsFair turn
    → l.state.running ≡ true
    → (l' : EventLoop) × (turn_once timeout turn (msgs ++ exit tx ∷ []) l ≡ goes_on l')
      × (l'.state.running ≡ false)
      × (any (λ x. x == tx) l'.state.exited ≡ true)
unfolding round
turn_once-exit timeout turn msgs tx l fair runs =
    let (events, has) = polls timeout (turn.now - l.start) turn l.events fair in
    let start = restart timeout turn l in
    let s = process_requests turn.io (msgs ++ exit tx ∷ []) start.state in
    let (stops, answers) = process_requests-exit turn.io msgs tx start.state in
    let (t, handled, (same, told)) = process_events-Same turn.io events s fair.1 in
    (
      record start { state = t; events = events },
      turn_once-running timeout turn (msgs ++ exit tx ∷ []) l runs
          ∙ ap (after_poll turn (msgs ++ exit tx ∷ []) start) has
          ∙ ap (after_round (record start { events = events })) handled,
      same ∙ stops,
      ap (any (λ x. x == tx)) told ∙ answers,
    )

turn_once-stopped :
    (timeout : ℕ) (turn : Turn) (msgs : List ServiceDiscoveryRequest) (l : EventLoop)
    → l.state.running ≡ false
    → turn_once timeout turn msgs l ≡ ended l.state
unfolding turn_once
turn_once-stopped timeout turn msgs l stops = rw (stops, turn_once) refl

-- `shutdown` of a service that runs returns after one turn, given that the poll of the turn succeeds and
-- that a send fails or takes at least one byte; and with the turn after that the thread has ended, so
-- that dropping the service, which is to shut down once more, panics whatever else happens.
pub shutdown-drop :
    (timeout tx tx' : ℕ) (turn next : Turn) (turns turns' : List Turn)
    (msgs : List ServiceDiscoveryRequest) (l : EventLoop)
    → IsFair turn
    → l.state.running ≡ true
    → (t : Thread) × (shutdown timeout tx (turn ∷ turns) (alive l msgs) ≡ returned t)
      × (drop_service timeout tx' turns' (advance timeout next t) ≡ panicked)
unfolding discovery_exit receive advance send
shutdown-drop timeout tx tx' turn next turns turns' msgs l fair runs =
    let (l', goes, stops, answers) = turn_once-exit timeout turn msgs tx l fair runs in
    (
      alive l' [],
      rw (goes, receive) (rw answers refl),
      rw (turn_once-stopped timeout next [] l' stops, advance) refl,
    )
