-- ===== src/Epidemic/Loop/Event/Ends.antt =====
-- artillery-core/src/epidemic/state.rs, `event_loop`: the loop goes on until it is asked to exit, and
-- then ends.
use artillery.Base.{ℕ, ◌≡◌, ◌≢◌, ◌⊎◌, Bool, false, Option, List, arith}
use artillery.Member.{Uuid}
use artillery.Membership.WellFormed.{IsPlatform}
use artillery.Epidemic.{ClusterConfig, ArtilleryMessage, ArtilleryEpidemic}
use artillery.Epidemic.Safety.{IsSafe}
use artillery.Epidemic.Loop.{
  drain, Drained, emptied, panicked, unfinished, Received, drained, stopped,
}
use artillery.Epidemic.Loop.Drain.{IsOver, drain_ends}
use artillery.Epidemic.Loop.Load.{load}
use artillery.Epidemic.Loop.Event.{
  Turn, EventLoop, Turned, goes_on, finished, overrun, after_inbound, first_envs, submit,
  receive_events, after_drain, work_off,
}
use artillery.Epidemic.Loop.Event.Work.{IsSound, All-first_envs, length-first_envs}

-- The loop is asked for more turns, or has ended with `Ok(())`.
abbrev Lives : Uuid → ClusterConfig → Turned → Type 0
Lives my config r =
    ((l : EventLoop) × (r ≡ goes_on l) × IsSound my config false l.state)
    ⊎ ((s : ArtilleryEpidemic) × (r ≡ finished s) × (s.running ≡ false) × IsSafe my s)

after_inbound_ends : (l : EventLoop) (r : Received) → after_inbound l r ≢ overrun
after_inbound_ends l (drained s) e = cc
after_inbound_ends l (stopped s) e = cc

after_drain_ends :
    (decode : List ℕ → Option ArtilleryMessage) (turn : Turn) (l : EventLoop) (d : Drained)
    → IsOver d
    → after_drain decode turn l d ≢ overrun
after_drain_ends decode turn l (emptied s) h e =
    after_inbound_ends l (receive_events decode turn.socket l.events s) e
after_drain_ends decode turn l panicked h e = cc
after_drain_ends decode turn l (unfinished s) h e = elim h [ ]

-- The rounds that `work_off` has are enough, whatever fails.
pub work_off_ends :
    (decode : List ℕ → Option ArtilleryMessage) (hears : ℕ → Bool) (turn : Turn) (l : EventLoop)
    → ((n : ℕ) → IsPlatform (turn.drain_env n).platform)
    → work_off decode hears turn l ≢ overrun
unfolding work_off
work_off_ends decode hears turn l platform =
    let s = submit turn.submitted l.state in
    let n = load s.config.ping_request_host_count s in
    after_drain_ends decode turn l (drain hears (first_envs n turn.drain_env) s) (
      drain_ends hears (first_envs n turn.drain_env) s
        (All-first_envs (λ env. IsPlatform env.platform) n turn.drain_env platform)
        (rw (length-first_envs n turn.drain_env) (omega arith)))
