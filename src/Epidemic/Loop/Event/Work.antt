-- ===== src/Epidemic/Loop/Event/Work.antt =====
-- artillery-core/src/epidemic/state.rs, `event_loop`: one turn of a node to which nothing outside fails.
use artillery.Base.{
  ℕ, zero, suc, ◌-◌, ◌≡◌, refl, sym, ap, ◌∙◌, inl, inr, Bool, true, false, Option, some, List, [],
  arith, Bool-cases, subst, All, length, leb,
}
use artillery.Member.{Uuid}
use artillery.Membership.WellFormed.{IsPlatform, IsWellFormed}
use artillery.Epidemic.{ClusterConfig, ArtilleryMessage, ArtilleryEpidemic, Env}
use artillery.Epidemic.Safety.{IsSafe}
use artillery.Epidemic.Loop.{drain, Drained, emptied}
use artillery.Epidemic.Loop.Load.{load}
use artillery.Epidemic.Loop.Rounds.{tick_through}
use artillery.Epidemic.Loop.Steps.{After}
use artillery.Epidemic.Loop.Through.{IsTakeable, Carries, drain_through}
use artillery.Epidemic.Loop.Event.{
  Turn, EventLoop, Turned, goes_on, finished, tick_when_due, poll_events, first_envs, submit,
  work_off, turn_once,
}
use artillery.Epidemic.Loop.Event.Turns.{
  asks_exit, asks_exit-append, Leaving, Held-append, IsHeld, IsClean, tick-IsHeld, tick-running,
  WhenEmpty, drain-IsHeld, receive_events-Receives,
}

-- A turn in which nothing outside fails: `poll` succeeds, the network takes what the node sends,
-- what other threads submit is takeable, and the socket works and brings messages of other nodes.
abbrev pub IsFair : (List ℕ → Option ArtilleryMessage) → Uuid → ClusterConfig → Turn → Type 0
IsFair decode my config turn =
    IsPlatform turn.tick_env.platform
    × ((n : ℕ) → Carries config (turn.drain_env n))
    × ((tokens : List ℕ) × (turn.polled ≡ some tokens))
    × All (IsTakeable my) turn.submitted
    × ((i : ℕ) → IsClean decode my (turn.socket i))

-- A node between two turns.
abbrev pub IsSound : Uuid → ClusterConfig → Bool → ArtilleryEpidemic → Type 0
IsSound my config asked s = IsSafe my s × IsHeld my config asked s

-- A tick that is due goes through.
pub tick_when_due-IsSound :
    (my : Uuid) (config : ClusterConfig) (asked : Bool) (timeout : ℕ) (turn : Turn) (l : EventLoop)
    → IsPlatform turn.tick_env.platform
    → IsSound my config asked l.state
    → (l' : EventLoop) × (tick_when_due timeout turn l ≡ some l')
      × (l'.state.running ≡ l.state.running)
      × IsSound my config asked l'.state
unfolding tick_when_due
tick_when_due-IsSound my config asked timeout turn l p (safe, held) =
    elim (Bool-cases (leb timeout (turn.now - l.start))) [
      | inr early ↦ (l, rw early refl, refl, (safe, held))
      | inl due ↦
          let (s, goes, safe') = tick_through my turn.tick_env l.state p safe in
          (
            record l { state = s; start = turn.ticked },
            rw (due, goes) refl,
            subst (After (λ t. t.running ≡ l.state.running)) goes
                (tick-running turn.tick_env l.state),
            (
              safe',
              subst (After (IsHeld my config asked)) goes
                  (tick-IsHeld my config asked turn.tick_env l.state held),
            ),
          )
    ]

poll_events-some :
    (timeout elapsed : ℕ) (turn : Turn) (events tokens : List ℕ)
    → turn.polled ≡ some tokens
    → (found : List ℕ) × (poll_events timeout elapsed turn events ≡ some found)
unfolding poll_events
poll_events-some timeout elapsed turn events tokens polls =
    elim (Bool-cases (leb elapsed timeout)) [
      | inl early ↦ (tokens, rw early polls)
      | inr late ↦ (events, rw late refl)
    ]

pub All-first_envs :
    (P : Env → Type 0) (n : ℕ) (envs : ℕ → Env) → ((i : ℕ) → P (envs i)) → All P (first_envs n envs)
All-first_envs P zero envs all = tt
All-first_envs P (suc n) envs all =
    (all 0, All-first_envs P n (λ i. envs (suc i)) (λ i. all (suc i)))

pub length-first_envs : (n : ℕ) (envs : ℕ → Env) → length (first_envs n envs) ≡ n
length-first_envs zero envs = refl
length-first_envs (suc n) envs = ap suc (length-first_envs n (λ i. envs (suc i)))

-- The node is sound after the requests and the datagrams, and stops if an `Exit` was among the requests.
abbrev WorksOff : Uuid → ClusterConfig → Bool → Turned → Type 0
WorksOff my config asked r =
    (l : EventLoop) × (r ≡ goes_on l)
    × IsSound my config asked l.state
    × (asked ≡ true → l.state.running ≡ false)

over : (s : ArtilleryEpidemic) → s.requests ≡ [] → Leaving s.running s.requests → s.running ≡ false
over s empty (inl stops) = stops
over s empty (inr waits) = absurd (ground (arith, waits, ap asks_exit empty))

-- All requests that have been submitted are worked off.
abbrev DrainsAll : Uuid → ClusterConfig → Bool → Drained → Type 0
DrainsAll my config asked d =
    (t : ArtilleryEpidemic) × (d ≡ emptied t) × (t.requests ≡ []) × IsSound my config asked t

pub drain-DrainsAll :
    (my : Uuid) (config : ClusterConfig) (asked : Bool) (hears : ℕ → Bool) (envs : ℕ → Env)
    (s : ArtilleryEpidemic)
    → ((n : ℕ) → Carries config (envs n))
    → ((tx : ℕ) → hears tx ≡ true)
    → IsSound my config asked s
    → DrainsAll my config asked
        (drain hears (first_envs (load s.config.ping_request_host_count s) envs) s)
drain-DrainsAll my config asked hears envs s carries heard (safe, held) =
    let n = load s.config.ping_request_host_count s in
    let (t, ends, empty, safe') =
      drain_through my hears (first_envs n envs) s
        (subst (λ c. All (Carries c) (first_envs n envs)) (sym held.0)
          (All-first_envs (Carries config) n envs carries))
        heard held.1 safe (rw (length-first_envs n envs) (omega arith)) in
    (
      t,
      ends,
      empty,
      (
        safe',
        subst (WhenEmpty (IsHeld my config asked)) ends
            (drain-IsHeld my config asked hears (first_envs n envs) s held),
      ),
    )

work_off-WorksOff :
    (decode : List ℕ → Option ArtilleryMessage) (my : Uuid) (config : ClusterConfig) (asked : Bool)
    (hears : ℕ → Bool) (turn : Turn) (l : EventLoop)
    → IsFair decode my config turn
    → ((tx : ℕ) → hears tx ≡ true)
    → IsSafe my l.state
    → IsHeld my config asked (submit turn.submitted l.state)
    → WorksOff my config asked (work_off decode hears turn l)
unfolding work_off
work_off-WorksOff decode my config asked hears turn l (p, carries, polls, fine, clean) heard safe
      held =
    let (t, ends, empty, (safe', held')) =
      drain-DrainsAll my config asked hears turn.drain_env (submit turn.submitted l.state) carries
        heard (safe, held) in
    let (u, receives, members, running, held'') =
      receive_events-Receives decode my config asked turn.socket l.events t clean held' in
    (
      record l { state = u },
      rw ends (rw receives refl),
      (subst (λ l. IsWellFormed my l.members) (sym members) safe', held''),
      λ a. running ∙ over t empty (held'.2 a),
    )

-- A loop that is to stop does so once the tick is over.
pub turn_once-finishes :
    (decode : List ℕ → Option ArtilleryMessage) (my : Uuid) (config : ClusterConfig)
    (hears : ℕ → Bool) (timeout : ℕ) (turn : Turn) (l : EventLoop)
    → IsFair decode my config turn
    → IsSound my config false l.state
    → l.state.running ≡ false
    → (s : ArtilleryEpidemic) × (turn_once decode hears timeout turn l ≡ finished s)
      × (s.running ≡ false)
      × IsSafe my s
unfolding turn_once
turn_once-finishes decode my config hears timeout turn l fair sound stops =
    let (l', ticks, same, (safe, held)) =
      tick_when_due-IsSound my config false timeout turn l fair.0 sound in
    (l'.state, rw ticks (rw (same ∙ stops) refl), same ∙ stops, safe)

pub Held-submit :
    (my : Uuid) (config : ClusterConfig) (turn : Turn) (s : ArtilleryEpidemic)
    → All (IsTakeable my) turn.submitted
    → IsHeld my config false s
    → IsHeld my config (asks_exit turn.submitted) (submit turn.submitted s)
Held-submit my config turn s fine held =
    let (same, takes, _) =
      Held-append my config false s.running s.config s.requests turn.submitted fine held in
    (same, takes, λ a. inr (ground (arith, a, asks_exit-append s.requests turn.submitted)))

-- A loop that runs works off its requests, and takes note when it is asked to exit.
pub turn_once-WorksOff :
    (decode : List ℕ → Option ArtilleryMessage) (my : Uuid) (config : ClusterConfig)
    (hears : ℕ → Bool) (timeout : ℕ) (turn : Turn) (l : EventLoop)
    → IsFair decode my config turn
    → ((tx : ℕ) → hears tx ≡ true)
    → IsSound my config false l.state
    → l.state.running ≡ true
    → WorksOff my config (asks_exit turn.submitted) (turn_once decode hears timeout turn l)
unfolding turn_once
turn_once-WorksOff decode my config hears timeout turn l fair heard sound runs =
    let (p, carries, (tokens, polls), fine, clean) = fair in
    let (l', ticks, same, (safe, held)) =
      tick_when_due-IsSound my config false timeout turn l p sound in
    let (found, has) = poll_events-some timeout (turn.now - l.start) turn l'.events tokens polls in
    rw ticks (
      rw (same ∙ runs) (
        rw has (
          work_off-WorksOff decode my config (asks_exit turn.submitted) hears turn
            (record l' { events = found }) fair heard safe
            (Held-submit my config turn l'.state fine held))))
