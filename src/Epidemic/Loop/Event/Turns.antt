-- ===== src/Epidemic/Loop/Event/Turns.antt =====
-- artillery-core/src/epidemic/state.rs, `event_loop`: what a turn of the loop keeps, and how a request
-- to exit is passed from turn to turn.
use artillery.Base.{
  ℕ, suc, ◌≡◌, refl, sym, ap, ◌∙◌, ◌⊎◌, inl, inr, Bool, true, false, Option, none, some, List, [],
  ◌∷◌, ◌++◌, arith, Bool-cases, Option-cases, List-cases, subst, All, All-append, ◌||◌, ◌==◌,
}
use artillery.Member.{Uuid, SocketAddr}
use artillery.Epidemic.{
  ClusterConfig, ArtilleryMessage, ArtilleryClusterRequest, add_seed, respond, react, leave_cluster,
  exit, send_payload, ArtilleryEpidemic, Env,
}
use artillery.Epidemic.Inbound.{process_internal_request}
use artillery.Epidemic.Loop.{
  tick, handle_one, Drained, emptied, panicked, unfinished, drain, Received, drained, respond_to,
  receive_all,
}
use artillery.Epidemic.Loop.Steps.{After}
use artillery.Epidemic.Loop.Kept.{tick-Keeps, handle_one-Keeps}
use artillery.Epidemic.Loop.Drain.{drain_one}
use artillery.Epidemic.Loop.Through.{IsTakeable, IsTakeable-IsAsked}
use artillery.Epidemic.Loop.Event.{Socket, udp_server, receive_event, receive_events}

abbrev is_exit : ArtilleryClusterRequest → Bool
is_exit (exit tx) = true
is_exit _ = false

-- An `Exit` waits on the channel.
abbrev pub asks_exit : List ArtilleryClusterRequest → Bool
asks_exit [] = false
asks_exit (r ∷ rs) = is_exit r || asks_exit rs

-- The loop is about to end: it has taken an `Exit`, or one waits.
abbrev pub Leaving : Bool → List ArtilleryClusterRequest → Type 0
Leaving run rs = (run ≡ false) ⊎ (asks_exit rs ≡ true)

pub asks_exit-append :
    (rs qs : List ArtilleryClusterRequest) → asks_exit (rs ++ qs) ≡ asks_exit rs || asks_exit qs
asks_exit-append [] qs = refl
asks_exit-append (r ∷ rs) qs = ground (arith, asks_exit-append rs qs)

pub Leaving-append :
    (run : Bool) (rs qs : List ArtilleryClusterRequest) → Leaving run rs → Leaving run (rs ++ qs)
Leaving-append run rs qs (inl over) = inl over
Leaving-append run rs qs (inr waits) = inr (ground (arith, asks_exit-append rs qs))

-- What holds between two steps: the configuration is that of the start, the requests are takeable,
-- and the loop is about to end if that has been `asked`.
abbrev pub Held :
    Uuid → ClusterConfig → Bool → Bool → ClusterConfig → List ArtilleryClusterRequest → Type 0
Held my config asked run cfg rs =
    (cfg ≡ config) × All (IsTakeable my) rs × (asked ≡ true → Leaving run rs)

abbrev pub IsHeld : Uuid → ClusterConfig → Bool → ArtilleryEpidemic → Type 0
IsHeld my config asked s = Held my config asked s.running s.config s.requests

pub Held-append :
    (my : Uuid) (config : ClusterConfig) (asked run : Bool) (cfg : ClusterConfig)
    (rs qs : List ArtilleryClusterRequest)
    → All (IsTakeable my) qs
    → Held my config asked run cfg rs
    → Held my config asked run cfg (rs ++ qs)
Held-append my config asked run cfg rs qs fine (same, takes, leaves) =
    (same, All-append (IsTakeable my) rs qs takes fine, λ a. Leaving-append run rs qs (leaves a))

pub tick-IsHeld :
    (my : Uuid) (config : ClusterConfig) (asked : Bool) (env : Env) (s : ArtilleryEpidemic)
    → IsHeld my config asked s
    → After (IsHeld my config asked) (tick env s)
tick-IsHeld my config asked env s h =
    tick-Keeps (λ k run cfg rs ds. Held my config asked run cfg rs)
      (λ k run cfg rs ds r fine. Held-append my config asked run cfg rs (react r ∷ []) (fine, tt))
      (λ k run cfg rs ds a m own fine had. had) env s h

-- A tick does not touch `running`.
pub tick-running :
    (env : Env) (s : ArtilleryEpidemic) → After (λ t. t.running ≡ s.running) (tick env s)
tick-running env s =
    tick-Keeps (λ k run cfg rs ds. run ≡ s.running) (λ k run cfg rs ds r fine h. h)
      (λ k run cfg rs ds a m own fine h. h) env s refl

handle_exit-stops :
    (env : Env) (hears : ℕ → Bool) (msg : ArtilleryClusterRequest) (s : ArtilleryEpidemic)
    → is_exit msg ≡ true
    → After (λ t. t.running ≡ false) (handle_one env hears msg s)
unfolding handle_one process_internal_request
handle_exit-stops env hears (exit tx) s e = elim (Bool-cases (hears tx)) [
  | inl lives ↦ rw lives refl
  | inr dead ↦ rw dead tt
]
handle_exit-stops env hears (add_seed a) s e = cc
handle_exit-stops env hears (respond a m) s e = cc
handle_exit-stops env hears (react r) s e = cc
handle_exit-stops env hears leave_cluster s e = cc
handle_exit-stops env hears (send_payload k m) s e = cc

After-both :
    (P Q R : ArtilleryEpidemic → Type 0)
    → ((t : ArtilleryEpidemic) → P t → Q t → R t)
    → (r : Option ArtilleryEpidemic) → After P r
    → After Q r
    → After R r
After-both P Q R both none p q = tt
After-both P Q R both (some t) p q = both t p q

-- One request: an `Exit` clears `running`, and any other leaves the `Exit` where it waits.
round-IsHeld :
    (my : Uuid) (config : ClusterConfig) (asked : Bool) (env : Env) (hears : ℕ → Bool)
    (msg : ArtilleryClusterRequest) (rest : List ArtilleryClusterRequest) (s : ArtilleryEpidemic)
    → s.requests ≡ msg ∷ rest
    → IsHeld my config asked s
    → After (IsHeld my config asked) (handle_one env hears msg (record s { requests = rest }))
round-IsHeld my config asked env hears msg rest s waits (same, takes, leaves) =
    let s' : ArtilleryEpidemic = record s { requests = rest } in
    let takeable : All (IsTakeable my) (msg ∷ rest) = subst (All (IsTakeable my)) waits takes in
    let kept : (b : Bool)
        → IsHeld my config b s'
        → After (IsHeld my config b) (handle_one env hears msg s') =
      λ b.
        handle_one-Keeps (λ k run cfg rs ds. Held my config b run cfg rs)
          (λ k run cfg rs ds r fine. Held-append my config b run cfg rs (react r ∷ []) (fine, tt))
          (λ k run cfg rs ds a m own fine had. had)
          (λ k run cfg rs ds had. (had.0, had.1, λ a. inl refl)) env hears msg
          (IsTakeable-IsAsked my msg takeable.0) s' in
    elim (Bool-cases (is_exit msg)) [
      | inl quits ↦
          After-both (IsHeld my config false) (λ t. t.running ≡ false) (IsHeld my config asked)
            (λ t held over. (held.0, held.1, λ a. inl over)) (handle_one env hears msg s')
            (kept false (same, takeable.1, λ a. absurd (cc)))
            (handle_exit-stops env hears msg s' quits)
      | inr stays ↦ kept asked (
        same,
        takeable.1,
        λ a. elim (leaves a) [
          | inl over ↦ inl over
          | inr found ↦ inr (ground (arith, stays, found, ap asks_exit waits))
        ],
      )
    ]

-- What holds at the end of the loop over the requests, when it is reached.
abbrev pub WhenEmpty : (ArtilleryEpidemic → Type 0) → Drained → Type 0
WhenEmpty P (emptied t) = P t
WhenEmpty P panicked = Unit
WhenEmpty P (unfinished t) = Unit

pub drain-IsHeld :
    (my : Uuid) (config : ClusterConfig) (asked : Bool) (hears : ℕ → Bool) (envs : List Env)
    (s : ArtilleryEpidemic)
    → IsHeld my config asked s
    → WhenEmpty (IsHeld my config asked) (drain hears envs s)
unfolding drain
drain-IsHeld my config asked hears [] s h = elim (List-cases s.requests) [
  | inl empty ↦
      let ends : drain hears [] s ≡ emptied s = rw empty refl in
      subst (WhenEmpty (IsHeld my config asked)) (sym ends) h
  | inr (msg, rest, waits) ↦ rw waits tt
]
drain-IsHeld my config asked hears (env ∷ envs) s h = elim (List-cases s.requests) [
  | inl empty ↦
      let ends : drain hears (env ∷ envs) s ≡ emptied s = rw empty refl in
      subst (WhenEmpty (IsHeld my config asked)) (sym ends) h
  | inr (msg, rest, waits) ↦
      let s' : ArtilleryEpidemic = record s { requests = rest } in
      let round = round-IsHeld my config asked env hears msg rest s waits h in
      elim (Option-cases (handle_one env hears msg s')) [
        | inl panics ↦
            let ends : drain hears (env ∷ envs) s ≡ panicked = rw waits (rw (panics, drain) refl) in
            subst (WhenEmpty (IsHeld my config asked)) (sym ends) tt
        | inr (t, goes) ↦
            subst (WhenEmpty (IsHeld my config asked))
              (sym (drain_one env hears envs msg rest s t waits goes))
              (drain-IsHeld my config asked hears envs t
                (subst (After (IsHeld my config asked)) goes round))
      ]
]

-- A datagram that is a message of another node, and none an `AckHost` without a host.
abbrev pub IsReadable : (List ℕ → Option ArtilleryMessage) → Uuid → List ℕ × SocketAddr → Type 0
IsReadable decode my d =
    (m : ArtilleryMessage) × (decode d.0 ≡ some m) × IsTakeable my (respond d.1 m)

-- A step of the node that leaves the member list as it is.
abbrev Receives : Uuid → ClusterConfig → Bool → ArtilleryEpidemic → Received → Type 0
Receives my config asked s r =
    (t : ArtilleryEpidemic) × (r ≡ drained t)
    × (t.members ≡ s.members)
    × (t.running ≡ s.running)
    × IsHeld my config asked t

receive_all-Receives :
    (decode : List ℕ → Option ArtilleryMessage) (my : Uuid) (config : ClusterConfig) (asked : Bool)
    (datagrams : List (List ℕ × SocketAddr)) (s : ArtilleryEpidemic)
    → All (IsReadable decode my) datagrams
    → IsHeld my config asked s
    → Receives my config asked s (receive_all decode datagrams false s)
unfolding receive_all
receive_all-Receives decode my config asked [] s reads h = (s, refl, refl, refl, h)
receive_all-Receives decode my config asked ((bytes, from) ∷ datagrams) s (reads, more) h =
    let (m, means, fine) = reads in
    rw (means, receive_all)
      (receive_all-Receives decode my config asked datagrams (respond_to from m s) more (
        Held-append my config asked s.running s.config s.requests (respond from m ∷ []) (fine, tt)
          h))

-- The socket works, and nothing but messages of other nodes arrives.
abbrev pub IsClean : (List ℕ → Option ArtilleryMessage) → Uuid → Socket → Type 0
IsClean decode my socket = (socket.broken ≡ false) × All (IsReadable decode my) socket.datagrams

pub receive_events-Receives :
    (decode : List ℕ → Option ArtilleryMessage) (my : Uuid) (config : ClusterConfig) (asked : Bool)
    (socket : ℕ → Socket) (events : List ℕ) (s : ArtilleryEpidemic)
    → ((i : ℕ) → IsClean decode my (socket i))
    → IsHeld my config asked s
    → Receives my config asked s (receive_events decode socket events s)
unfolding receive_events receive_event
receive_events-Receives decode my config asked socket [] s clean h = (s, refl, refl, refl, h)
receive_events-Receives decode my config asked socket (token ∷ events) s clean h =
    elim (Bool-cases (token == udp_server)) [
      | inr other ↦
          rw (other, receive_events)
            (receive_events-Receives decode my config asked (λ i. socket (suc i)) events s
              (λ i. clean (suc i)) h)
      | inl ours ↦
          let (t, all, members, running, held) =
            receive_all-Receives decode my config asked (socket 0).datagrams s (clean 0).1 h in
          let (u, rest, members', running', held') =
            receive_events-Receives decode my config asked (λ i. socket (suc i)) events t
              (λ i. clean (suc i)) held in
          rw (ours, receive_events)
            (rw ((clean 0).0, receive_all)
              (rw (all, receive_events) (u, rest, members' ∙ members, running' ∙ running, held')))
    ]
