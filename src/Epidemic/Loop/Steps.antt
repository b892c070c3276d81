-- ===== src/Epidemic/Loop/Steps.antt =====
-- artillery-core/src/epidemic/state.rs: what each handler adds to the load of the loop over the
-- node's own requests, as Epidemic/Loop/Load measures it.
use artillery.Base.{
  ℕ, ◌+◌, ◌≤◌, ◌≡◌, refl, Option, none, some, List, [], ◌∷◌, arith, length, ◌>>=◌, Option-cases,
  inl, inr,
}
use artillery.Base.Dict.{nat_eq}
use artillery.Member.{SocketAddr, ArtilleryMember}
use artillery.Membership.{time_out_loop, time_out_nodes, hosts_for_indirect_ping}
use artillery.Epidemic.{
  Request, ping, TargetedRequest, react, ArtilleryMemberEvent, suspected_down, went_down,
  ArtilleryEpidemic, Env,
}
use artillery.Epidemic.Messages.{enqueue_state_change}
use artillery.Epidemic.Handlers.{
  Step, send_request, send_member_event, for_each, send_pings, send_ping_requests, notify_suspect,
  expired_hosts, remaining, process_request, prune_timed_out_responses,
}
use artillery.Epidemic.Loop.Load.{each, load, weights-append, time_out_loop-vigor_of, length-take}

-- The node asks `c` others about a suspect, and its load is at most `n`.
abbrev pub Fits : ℕ → ℕ → ArtilleryEpidemic → Type 0
Fits c n s = (s.config.ping_request_host_count ≡ c) × (load c s ≤ n)

-- What holds after a step that does not panic.
abbrev pub After : (ArtilleryEpidemic → Type 0) → Option ArtilleryEpidemic → Type 0
After P none = Unit
After P (some s) = P s

pub After-then :
    (P Q : ArtilleryEpidemic → Type 0) (m : Option ArtilleryEpidemic) (f : Step)
    → After P m
    → ((s : ArtilleryEpidemic) → P s → After Q (f s))
    → After Q (m >>= f)
After-then P Q none f h g = tt
After-then P Q (some s) f h g = g s h

-- A step that does not panic leaves a load of at most `n`.
abbrev pub Leaves : ℕ → ℕ → Option ArtilleryEpidemic → Type 0
Leaves c n = After (Fits c n)

pub Leaves-then :
    (c n k : ℕ) (m : Option ArtilleryEpidemic) (f : Step)
    → Leaves c n m
    → ((s : ArtilleryEpidemic) → Fits c n s → Leaves c k (f s))
    → Leaves c k (m >>= f)
Leaves-then c n k = After-then (Fits c n) (Fits c k)

pub Leaves-mono : (c n k : ℕ) (m : Option ArtilleryEpidemic) → n ≤ k → Leaves c n m → Leaves c k m
Leaves-mono c n k none le h = tt
Leaves-mono c n k (some s) le (count, low) = (count, omega (arith, le, low))

-- A loop whose rounds each add at most `d`.
pub for_each-Leaves {ℓ} :
    {A : Type ℓ} (c d n : ℕ) (f : A → Step) (items : List A) (s : ArtilleryEpidemic)
    → ((a : A) (k : ℕ) (t : ArtilleryEpidemic) → Fits c k t → Leaves c (k + d) (f a t))
    → Fits c n s
    → Leaves c (n + each d items) (for_each f items s)
unfolding for_each
for_each-Leaves c d n f [] s step (count, low) = (count, omega (arith, low))
for_each-Leaves c d n f (a ∷ items) s step h =
    Leaves-then c (n + d) (n + each d (a ∷ items)) (f a s) (for_each f items) (step a n s h)
      (λ t fits.
        Leaves-mono c (n + d + each d items) (n + each d (a ∷ items)) (for_each f items t)
          (omega arith) (for_each-Leaves c d (n + d) f items t step fits))

pub send_request-Fits :
    (c n : ℕ) (request : Request) (target : SocketAddr) (s : ArtilleryEpidemic)
    → Fits c n s
    → Fits c (n + 1) (send_request request target s)
send_request-Fits c n request target s (count, low) = (
  count,
  omega (
    arith,
    low,
    weights-append c s.requests (react (record { request = request; target = target }) ∷ []),
  ),
)

pub send_member_event-Leaves :
    (c n : ℕ) (env : Env) (event : ArtilleryMemberEvent) (s : ArtilleryEpidemic)
    → Fits c n s
    → Leaves c n (send_member_event env event s)
unfolding send_member_event
send_member_event-Leaves c n env event s h = ground (arith, h)

pub all_events-Leaves {ℓ} :
    {A : Type ℓ} (c n : ℕ) (env : Env) (f : A → ArtilleryMemberEvent) (ms : List A)
    (s : ArtilleryEpidemic)
    → Fits c n s
    → Leaves c n (for_each (λ m. send_member_event env (f m)) ms s)
unfolding for_each
all_events-Leaves c n env f [] s h = h
all_events-Leaves c n env f (m ∷ ms) s h =
    Leaves-then c n n (send_member_event env (f m) s) _ (send_member_event-Leaves c n env (f m) s h)
      (all_events-Leaves c n env f ms)

each_one : {A : Type 0} (xs : List A) → each 1 xs ≡ length xs
each_one [] = refl
each_one (x ∷ xs) = omega (arith, each_one xs)

-- The requests go to each of the addresses.
send_all-Leaves :
    (c n : ℕ) (request : Request) (targets : List SocketAddr) (s : ArtilleryEpidemic)
    → Fits c n s
    → Leaves c
        (n + length targets)
        (for_each (λ target t. some (send_request request target t)) targets s)
send_all-Leaves c n request targets s h = rw (← each_one targets) (
    for_each-Leaves c 1 n (λ target t. some (send_request request target t)) targets s
      (λ target k t fits. send_request-Fits c k request target t fits) h)

send_pings-Leaves :
    (c n : ℕ) (env : Env) (host : Option SocketAddr) (s : ArtilleryEpidemic)
    → Fits c n s
    → Leaves c (n + c) (send_pings env host s)
unfolding hosts_for_indirect_ping
send_pings-Leaves c n env none s (count, low) = (count, omega (arith, low))
send_pings-Leaves c n env (some host) s (count, low) =
    let asked =
      hosts_for_indirect_ping env.platform s.config.ping_request_host_count host s.members in
    let few : length asked ≤ s.config.ping_request_host_count =
      length-take s.config.ping_request_host_count _ in
    Leaves-mono c (n + length asked) (n + c)
      (for_each (λ relay t. some (send_request (ping host) relay t)) asked s)
      (omega (arith, few, count)) (send_all-Leaves c n (ping host) asked s (count, low))

notify_suspect-Leaves :
    (c n : ℕ) (env : Env) (m : ArtilleryMember) (s : ArtilleryEpidemic)
    → Fits c n s
    → Leaves c (n + c) (notify_suspect env m s)
unfolding send_ping_requests
notify_suspect-Leaves c n env m s h =
    Leaves-then c (n + c) (n + c) (send_ping_requests env m s)
      (send_member_event env (suspected_down m)) (send_pings-Leaves c n env m.remote_host s h)
      (send_member_event-Leaves c (n + c) env (suspected_down m))

-- Whoever becomes suspect was alive, so that the requests about it were counted before.
pub prune_timed_out_responses-Leaves :
    (c n : ℕ) (env : Env) (s : ArtilleryEpidemic)
    → Fits c n s
    → Leaves c n (prune_timed_out_responses env s)
unfolding prune_timed_out_responses time_out_nodes
prune_timed_out_responses-Leaves c n env s (count, low) =
    let hosts = expired_hosts env.now s.pending_responses in
    elim (Option-cases (time_out_loop env.add_date env.now hosts s.members.members)) [
      | inl late ↦ rw late tt
      | inr (r, timed) ↦
          let pruned : ArtilleryEpidemic = record s {
            pending_responses = remaining env.now s.pending_responses;
            members = record s.members { members = r.members };
            state_changes =
                enqueue_state_change (enqueue_state_change s.state_changes r.down_members)
                  r.suspect_members;
          } in
          let fewer =
            time_out_loop-vigor_of c env.add_date env.now hosts s.members.members r timed in
          let bound = load c pruned + each c r.suspect_members in
          rw timed (
            Leaves-mono c bound n _ (omega (arith, fewer, low)) (
              Leaves-then c bound bound (for_each (notify_suspect env) r.suspect_members pruned)
                (for_each (λ m. send_member_event env (went_down m)) r.down_members)
                (for_each-Leaves c c (load c pruned) (notify_suspect env) r.suspect_members pruned
                  (λ m k t. notify_suspect-Leaves c k env m t) (count, omega arith))
                (all_events-Leaves c bound env went_down r.down_members)))
    ]

pub process_request-Leaves :
    (c n : ℕ) (env : Env) (request : TargetedRequest) (s : ArtilleryEpidemic)
    → Fits c n s
    → Leaves c n (process_request env request s)
unfolding process_request
process_request-Leaves c n env request s h = ground (arith, h)
