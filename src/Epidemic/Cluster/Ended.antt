-- ===== src/Epidemic/Cluster/Ended.antt =====
-- artillery-core/src/epidemic/cluster.rs: a node whose thread has ended.
use Prim.Native.String.{String}
use artillery.Base.{
  ℕ, ◌-◌, ◌≤◌, ◌≡◌, refl, ap, ◌∙◌, Bool, true, false, Option, none, some, List, ◌∷◌, ◌++◌, arith,
  All, leb,
}
use artillery.Member.{Uuid, SocketAddr}
use artillery.Membership.WellFormed.{IsPlatform}
use artillery.Epidemic.{ClusterConfig, ArtilleryMessage, ArtilleryClusterRequest, ArtilleryEpidemic}
use artillery.Epidemic.Loop.{receive_all, stopped}
use artillery.Epidemic.Loop.Rounds.{receive_all-stray}
use artillery.Epidemic.Loop.Through.{IsTakeable, Carries}
use artillery.Epidemic.Loop.Event.{
  Socket, udp_server, Turn, EventLoop, failed, poll_events, submit, receive_event, receive_events,
  work_off, turn_once,
}
use artillery.Epidemic.Loop.Event.Turns.{asks_exit}
use artillery.Epidemic.Loop.Event.Work.{
  IsSound, tick_when_due-IsSound, Held-submit, drain-DrainsAll,
}
use artillery.Epidemic.Cluster.{
  ClusterThread, runs, gone, comm_send, add_seed_node, send_payload_to, leave_the_cluster,
  with_submitted, turn_of_thread, panics, drop_cluster,
}

-- A datagram that is no message is among those that the socket gives at the first event.
receive_events-stray :
    (decode : List ℕ → Option ArtilleryMessage) (socket : ℕ → Socket) (more : List ℕ)
    (before after : List (List ℕ × SocketAddr)) (bytes : List ℕ) (from : SocketAddr)
    (s : ArtilleryEpidemic)
    → (socket 0).datagrams ≡ before ++ (bytes, from) ∷ after
    → decode bytes ≡ none
    → (t : ArtilleryEpidemic) × (receive_events decode socket (udp_server ∷ more) s ≡ stopped t)
unfolding receive_events receive_event
receive_events-stray decode socket more before after bytes from s comes stray =
    let (t, stops) = receive_all-stray decode before after bytes from (socket 0).broken s stray in
    let all : receive_all decode (socket 0).datagrams (socket 0).broken s ≡ stopped t =
      ap (λ ds. receive_all decode ds (socket 0).broken s) comes ∙ stops in
    (t, rw (all, receive_events) refl)

-- A turn in which the poll finds such a datagram, and in which the requests can be worked off.
abbrev pub IsStray :
    (List ℕ → Option ArtilleryMessage) → ClusterConfig → ℕ → Turn → EventLoop → Type 0
IsStray decode config timeout turn l =
    IsPlatform turn.tick_env.platform
    × ((n : ℕ) → Carries config (turn.drain_env n))
    × (turn.now - l.start ≤ timeout)
    × ((more : List ℕ) × (turn.polled ≡ some (udp_server ∷ more)))
    × ((before after : List (List ℕ × SocketAddr)) × (bytes : List ℕ) × (from : SocketAddr)
        × ((turn.socket 0).datagrams ≡ before ++ (bytes, from) ∷ after)
        × (decode bytes ≡ none))

turn_once-stray :
    (decode : List ℕ → Option ArtilleryMessage) (my : Uuid) (config : ClusterConfig)
    (hears : ℕ → Bool) (timeout : ℕ) (turn : Turn) (l : EventLoop)
    → IsStray decode config timeout turn l
    → All (IsTakeable my) turn.submitted
    → ((tx : ℕ) → hears tx ≡ true)
    → IsSound my config false l.state
    → l.state.running ≡ true
    → (t : ArtilleryEpidemic) × (turn_once decode hears timeout turn l ≡ failed t)
unfolding turn_once poll_events work_off
turn_once-stray decode my config hears timeout turn l (p, carries, early, (more, polls), strays)
      fine heard sound going =
    let (before, after, bytes, from, comes, stray) = strays in
    let (l', ticks, same, (safe, held)) =
      tick_when_due-IsSound my config false timeout turn l p sound in
    let has : poll_events timeout (turn.now - l.start) turn l'.events ≡ some (udp_server ∷ more) =
      rw (leb_of early) polls in
    let held' = Held-submit my config turn l'.state fine held in
    let (t, ends, _, _) =
      drain-DrainsAll my config (asks_exit turn.submitted) hears turn.drain_env
        (submit turn.submitted l'.state) carries heard (safe, held') in
    let (u, stops) =
      receive_events-stray decode turn.socket more before after bytes from t comes stray in
    (u, rw ticks (rw (same ∙ going) (rw has (rw ends (rw stops refl)))))
  where
    leb_of : {m n : ℕ} → m ≤ n → leb m n ≡ true
    leb_of le = ground (arith, le)

-- One stray datagram ends a node for its user: on a node that runs with a well-formed member list,
-- when the poll of a turn that is not late finds a datagram that is no message among those that wait,
-- the thread ends with the turn, provided that nothing else outside fails (the network takes what the
-- node sends, every message that it builds encodes to less than `network_mtu`, the receiver of its
-- events lives, chrono has the date three seconds after any date, whoever sends an `Exit` waits for
-- the answer, and the requests that wait are no messages under the node's own key and no `AckHost`
-- without a host). From then on `add_seed_node` and `leave_cluster` have no effect, and `send_payload`
-- and dropping the `Cluster` panic.
pub stray_ends :
    (decode : List ℕ → Option ArtilleryMessage) (my : Uuid) (config : ClusterConfig)
    (hears : ℕ → Bool) (timeout : ℕ) (turn : Turn) (l : EventLoop)
    (waiting : List ArtilleryClusterRequest)
    → IsStray decode config timeout turn l
    → All (IsTakeable my) waiting
    → ((tx : ℕ) → hears tx ≡ true)
    → IsSound my config false l.state
    → l.state.running ≡ true
    → (c : ClusterThread) × (turn_of_thread decode hears timeout turn (runs l waiting) ≡ c)
      × ((addr : SocketAddr) → add_seed_node addr c ≡ c)
      × (leave_the_cluster c ≡ c)
      × ((id : Uuid) (msg : String) → send_payload_to id msg c ≡ none)
      × ((next : Turn) (tx : ℕ) → drop_cluster decode hears timeout next tx c ≡ panics)
unfolding turn_of_thread add_seed_node leave_the_cluster send_payload_to drop_cluster comm_send
stray_ends decode my config hears timeout turn l waiting strays fine heard sound going =
    let (t, ends) =
      turn_once-stray decode my config hears timeout (with_submitted waiting turn) l strays fine
        heard sound going in
    (gone, rw ends refl, (λ addr. refl), refl, (λ id msg. refl), (λ next tx. refl))
