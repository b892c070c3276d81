-- ===== src/Epidemic/Pruning.antt =====
-- artillery-core/src/epidemic/state.rs, `prune_timed_out_responses`: what becomes of the answers
-- that a node waits for.
use artillery.Base.{◌≡◌, refl, ap, ◌<◌, true, List, [], ◌∷◌, Option, none, some, arith, All, ltb}
use artillery.Member.{Uuid, SocketAddr, DateTime, ArtilleryMember, suspect, down}
use artillery.Membership.{time_out_nodes}
use artillery.Membership.Timeouts.{time_out_nodes-Ages, time_out_nobody, IsDatable}
use artillery.Membership.Revival.{Ages-IsWellFormed}
use artillery.Epidemic.{ArtilleryEpidemic, Pending, Env, ping, suspected_down, went_down}
use artillery.Epidemic.Messages.{enqueue_state_change}
use artillery.Epidemic.Handlers.{
  send_request, send_member_event, for_each, send_pings, send_ping_requests, notify_suspect,
  remaining, expired, expired_hosts, prune_timed_out_responses,
}
use artillery.Epidemic.Safety.{
  IsSafe, IsHeard, GoesThrough, then_through, for_each_through, send_member_event_through, All-true,
}

send_pings_through :
    (my : Uuid) (env : Env) (host : Option SocketAddr) (s : ArtilleryEpidemic)
    → IsSafe my s
    → GoesThrough my (send_pings env host s)
send_pings_through my env none s w = (s, refl, w)
send_pings_through my env (some host) s w =
    for_each_through (λ _. Unit {0}) my (λ relay t. some (send_request (ping host) relay t)) _ s
      (λ relay t _ v. (send_request (ping host) relay t, refl, v)) (All-true _) w

notify_suspect_through :
    (my : Uuid) (env : Env) (m : ArtilleryMember) (s : ArtilleryEpidemic)
    → IsHeard env
    → m.member_state ≡ suspect
    → IsSafe my s
    → GoesThrough my (notify_suspect env m s)
unfolding send_ping_requests
notify_suspect_through my env m s heard e w =
    then_through my _ _ (send_pings_through my env m.remote_host s w)
      (λ t v. send_member_event_through my env (suspected_down m) t heard (ground arith) v)

-- Pruning does not panic where the user listens and no date overflows, and it keeps the member list
-- well formed: every event that it sends agrees with the state of the member that it is about.
pub prune_timed_out_responses_through :
    (my : Uuid) (env : Env) (s : ArtilleryEpidemic)
    → IsHeard env
    → All (IsDatable env.add_date) s.members.members
    → IsSafe my s
    → GoesThrough my (prune_timed_out_responses env s)
unfolding prune_timed_out_responses
prune_timed_out_responses_through my env s heard dates w =
    let hosts = expired_hosts env.now s.pending_responses in
    let (suspects, downs, l, goes, aged, all_suspect, all_down) =
      time_out_nodes-Ages env.add_date env.now hosts s.members dates in
    let w' = Ages-IsWellFormed env.now hosts my s.members.members l.members aged w in
    rw goes (
      then_through my _ _
        (for_each_through (λ m. m.member_state ≡ suspect) my (notify_suspect env) suspects _
          (λ m t e v. notify_suspect_through my env m t heard e v) all_suspect w')
        (λ t v.
          for_each_through (λ m. m.member_state ≡ down) my
            (λ m. send_member_event env (went_down m)) downs t
            (λ m u e x. send_member_event_through my env (went_down m) u heard (ground arith) x)
            all_down v))

-- The deadline has passed.
abbrev pub IsOverdue : DateTime → Pending → Type 0
IsOverdue now p = p.deadline < now

overdue_remain :
    (now : DateTime) (ps : List Pending)
    → All (IsOverdue now) ps
    → (remaining now ps ≡ ps) × (expired now ps ≡ [])
overdue_remain now [] h = (refl, refl)
overdue_remain now (p ∷ ps) h =
    let (rest, none_left) = overdue_remain now ps h.1 in
    let over : ltb p.deadline now ≡ true = ground (arith, h.0) in
    (rw over (ap (λ t. p ∷ t) rest), rw over none_left)

-- A node that waits in vain does nothing: where every answer it waits for is overdue, pruning
-- leaves the whole state as it is, suspects no member and stops waiting for none.
pub prune-overdue :
    (env : Env) (s : ArtilleryEpidemic)
    → All (IsOverdue env.now) s.pending_responses
    → prune_timed_out_responses env s ≡ some s
unfolding prune_timed_out_responses time_out_nodes enqueue_state_change for_each
prune-overdue env s h =
    let (kept, nobody) = overdue_remain env.now s.pending_responses h in
    rw (nobody, kept) (rw (time_out_nobody env.add_date env.now s.members.members) refl)
