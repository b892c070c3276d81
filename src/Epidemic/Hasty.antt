-- ===== src/Epidemic/Hasty.antt =====
-- artillery-core/src/epidemic/state.rs, `prune_timed_out_responses`: the members whose answers are
-- not due yet.
use mathlib.Core.Option.{some-injective}
use artillery.Base.{
  ◌≤◌, ◌≡◌, refl, sym, ap, ◌∙◌, inl, inr, true, false, List, [], ◌∷◌, ◌++◌, Option, none, some,
  arith, any, length, get_elem?, ltb, ◌==◌, ==-refl, Bool-cases, ◌>>=◌, >>=-eq-some, All,
}
use artillery.Member.{
  Uuid, SocketAddr, DateTime, AddDate, ArtilleryMember, alive, suspect, set_state,
}
use artillery.Membership.{judge, suspected, time_out_loop, time_out_nodes, timed_out}
use artillery.Membership.Timeouts.{time_out_loop-at, IsDatable}
use artillery.Epidemic.{
  ArtilleryEpidemic, ArtilleryMemberEvent, Pending, Env, ping, suspected_down, went_down,
}
use artillery.Epidemic.Handlers.{
  Step, send_request, send_member_event, for_each, send_pings, send_ping_requests, notify_suspect,
  expired_hosts, prune_timed_out_responses,
}
use artillery.Epidemic.Safety.{IsSafe}
use artillery.Epidemic.Pruning.{prune_timed_out_responses_through}

-- A step that leaves the members as they are.
abbrev Spares : Step → Type 0
Spares f = (s t : ArtilleryEpidemic) → f s ≡ some t → t.members ≡ s.members

Spares-then : (f g : Step) → Spares f → Spares g → Spares (λ s. f s >>= g)
Spares-then f g spares after s u e =
    let (t, first, second) = >>=-eq-some (f s) g e in after t u second ∙ spares s t first

for_each-Spares {ℓ} :
    {A : Type ℓ} (f : A → Step) (items : List A)
    → ((a : A) → Spares (f a))
    → Spares (for_each f items)
unfolding for_each
for_each-Spares f [] spares s t e = let q : s ≡ t = ground arith in rw (← q) refl
for_each-Spares f (a ∷ items) spares s t e =
    Spares-then (f a) (for_each f items) (spares a) (for_each-Spares f items spares) s t e

send_member_event-Spares :
    (env : Env) (event : ArtilleryMemberEvent) → Spares (send_member_event env event)
unfolding send_member_event
send_member_event-Spares env event s t e = ground (arith, e)

send_pings-Spares : (env : Env) (host : Option SocketAddr) → Spares (send_pings env host)
send_pings-Spares env none s t e = let q : s ≡ t = ground arith in rw (← q) refl
send_pings-Spares env (some host) s t e =
    for_each-Spares (λ relay u. some (send_request (ping host) relay u)) _
      (λ relay u v f. let q : send_request (ping host) relay u ≡ v = ground arith in rw (← q) refl)
      s t e

notify_suspect-Spares : (env : Env) (m : ArtilleryMember) → Spares (notify_suspect env m)
unfolding send_ping_requests
notify_suspect-Spares env m =
    Spares-then (send_ping_requests env m) (send_member_event env (suspected_down m))
      (send_pings-Spares env m.remote_host) (send_member_event-Spares env (suspected_down m))

-- An entry that is not due yet puts its host among the expired ones.
expired_hosts-early :
    (now : DateTime) (before after : List Pending) (p : Pending)
    → now ≤ p.deadline
    → any (λ a. a == p.host) (expired_hosts now (before ++ p ∷ after)) ≡ true
expired_hosts-early now [] after p early =
    let due : ltb p.deadline now ≡ false = ground (arith, early) in
    rw due (rw (==-refl p.host) refl)
expired_hosts-early now (q ∷ before) after p early = elim (Bool-cases (ltb q.deadline now)) [
  | inl over ↦ rw over (expired_hosts-early now before after p early)
  | inr due ↦ rw due (ground (arith, expired_hosts-early now before after p early))
]

judge-early :
    (add_date : AddDate) (now : DateTime) (hosts : List SocketAddr) (m : ArtilleryMember)
    (h : SocketAddr)
    → m.remote_host ≡ some h
    → m.member_state ≡ alive
    → any (λ a. a == h) hosts ≡ true
    → judge add_date now hosts m ≡ some suspected
unfolding judge
judge-early add_date now hosts m h there lives hit = rw there (rw (hit, lives) refl)

-- A member becomes suspect before its time is up: where a node waits for an answer from a member that
-- it holds to be alive, and that is not due yet, pruning makes the member suspect, provided that the
-- node's member list is well formed, that the receiver of its events lives, and that chrono has the
-- date three seconds after each member's last change.
pub prune-hasty :
    (my : Uuid) (env : Env) (s : ArtilleryEpidemic) (before after : List Pending) (p : Pending)
    (pre post : List ArtilleryMember) (m : ArtilleryMember)
    → IsSafe my s
    → env.listening ≡ true
    → All (IsDatable env.add_date) s.members.members
    → s.pending_responses ≡ before ++ p ∷ after
    → env.now ≤ p.deadline
    → s.members.members ≡ pre ++ m ∷ post
    → m.remote_host ≡ some p.host
    → m.member_state ≡ alive
    → (s' : ArtilleryEpidemic) × (prune_timed_out_responses env s ≡ some s')
      × (get_elem? s'.members.members (length pre) ≡ some (set_state env.now suspect m))
unfolding prune_timed_out_responses time_out_nodes
prune-hasty my env s before after p pre post m safe heard dates waits early listed there lives =
    let (s', e, _) = prune_timed_out_responses_through my env s heard dates safe in
    let hosts = expired_hosts env.now s.pending_responses in
    let (r, timed, rest) = >>=-eq-some (time_out_nodes env.add_date env.now hosts s.members) _ e in
    let (out, looped, made) =
      >>=-eq-some (time_out_loop env.add_date env.now hosts s.members.members) _ timed in
    let shape : timed_out s.members out ≡ r = some-injective _ _ made in
    let same =
      Spares-then (for_each (notify_suspect env) (r.0.0))
        (for_each (λ n. send_member_event env (went_down n)) (r.0.1))
        (for_each-Spares (notify_suspect env) (r.0.0) (notify_suspect-Spares env))
        (for_each-Spares (λ n. send_member_event env (went_down n)) (r.0.1)
          (λ n. send_member_event-Spares env (went_down n)))
        _ s' rest in
    let hit : any (λ a. a == p.host) hosts ≡ true =
      rw waits (expired_hosts-early env.now before after p early) in
    (
      s',
      e,
      ap (λ l. get_elem? l.members (length pre)) (same ∙ sym (ap (λ x. x.1) shape))
          ∙ time_out_loop-at env.add_date env.now hosts pre post m out
              (judge-early env.add_date env.now hosts m p.host there lives hit)
              (rw (← listed) looped),
    )
