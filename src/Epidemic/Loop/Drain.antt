-- ===== src/Epidemic/Loop/Drain.antt =====
-- artillery-core/src/epidemic/state.rs, `event_loop`: the loop over the node's own requests, which the
-- handlers add to while it runs, comes to an end.
use Prim.Native.String.{String}
use artillery.Base.{
  ℕ, suc, ◌+◌, ◌≤◌, ◌≡◌, refl, sym, ap, inl, inr, Option, none, some, List, [], ◌∷◌, arith, Bool,
  Bool-cases, Option-cases, List-cases, length, subst, ◌>>=◌, All,
}
use artillery.Member.{Uuid, ArtilleryMember, is_remote}
use artillery.Membership.{leave, find_myself, get_member}
use artillery.Membership.WellFormed.{IsPlatform}
use artillery.Epidemic.{
  ArtilleryClusterRequest, add_seed, respond, react, leave_cluster, exit, send_payload,
  ArtilleryEpidemic, Env, payload,
}
use artillery.Epidemic.Handlers.{process_request, prune_timed_out_responses}
use artillery.Epidemic.Inbound.{pay, process_internal_request, unit_result, respond_to_message}
use artillery.Epidemic.Loop.{answer_exit, handle_one, Drained, emptied, panicked, unfinished, drain}
use artillery.Epidemic.Loop.Load.{gain, weights, load, vigor_of-update_myself}
use artillery.Epidemic.Loop.Steps.{
  Fits, Leaves, Leaves-then, Leaves-mono, prune_timed_out_responses-Leaves, process_request-Leaves,
}
use artillery.Epidemic.Loop.Messages.{respond_to_message-Leaves}

-- The answer to an `Exit` adds no request.
answer_exit-Leaves :
    (c n : ℕ) (hears : ℕ → Bool) (exit_tx : Option ℕ) (s : ArtilleryEpidemic)
    → Fits c n s
    → Leaves c n (answer_exit hears exit_tx s)
answer_exit-Leaves c n hears none s h = h
answer_exit-Leaves c n hears (some tx) s h = elim (Bool-cases (hears tx)) [
  | inl lives ↦ rw lives h
  | inr dead ↦ rw dead tt
]

unit_result-Leaves :
    (c n : ℕ) (hears : ℕ → Bool) (r : Option ArtilleryEpidemic)
    → Leaves c n r
    → Leaves c n (unit_result r >>= (λ t. answer_exit hears t.0 t.1))
unit_result-Leaves c n hears none h = tt
unit_result-Leaves c n hears (some s) h = h

pay-Leaves :
    (c n : ℕ) (env : Env) (id : Uuid) (msg : String) (o : Option ArtilleryMember)
    (s : ArtilleryEpidemic)
    → Fits c n s
    → Leaves c n (pay env id msg o s)
pay-Leaves c n env id msg none s h = h
pay-Leaves c n env id msg (some peer) s h = elim (Bool-cases (is_remote peer)) [
  | inr near ↦ rw near h
  | inl far ↦ rw far (elim (Option-cases peer.remote_host) [
    | inl absent ↦ rw absent tt
    | inr (host, there) ↦
        rw there
          (process_request-Leaves c n env (record { request = payload id msg; target = host }) s h)
  ])
]

-- A request adds no more than what it may.
handle_one-Leaves :
    (c n : ℕ) (env : Env) (hears : ℕ → Bool) (msg : ArtilleryClusterRequest) (s : ArtilleryEpidemic)
    → IsPlatform env.platform
    → Fits c n s
    → Leaves c (n + gain c msg) (handle_one env hears msg s)
unfolding handle_one process_internal_request leave
handle_one-Leaves c n env hears (add_seed addr) s p (count, low) = (count, omega (arith, low))
handle_one-Leaves c n env hears (respond from m) s p h =
    unit_result-Leaves c (n + gain c (respond from m)) hears (respond_to_message env from m s)
      (respond_to_message-Leaves c n env from m s p h)
handle_one-Leaves c n env hears (react request) s p h =
    unit_result-Leaves c (n + 0) hears
      (prune_timed_out_responses env s >>= process_request env request)
      (Leaves-mono c n (n + 0) _ (omega arith) (
        Leaves-then c n n (prune_timed_out_responses env s) (process_request env request)
          (prune_timed_out_responses-Leaves c n env s h) (process_request-Leaves c n env request)))
handle_one-Leaves c n env hears leave_cluster s p (count, low) =
    elim (Option-cases (find_myself s.members.members)) [
      | inl nobody ↦ rw nobody tt
      | inr (me, found) ↦
          rw found (count, omega (arith, low, vigor_of-update_myself c env.now s.members.members))
    ]
handle_one-Leaves c n env hears (send_payload id msg) s p h =
    unit_result-Leaves c (n + 0) hears (pay env id msg (get_member id s.members) s) (
      Leaves-mono c n (n + 0) _ (omega arith)
        (pay-Leaves c n env id msg (get_member id s.members) s h))
handle_one-Leaves c n env hears (exit tx) s p h =
    answer_exit-Leaves c (n + 0) hears (some tx) s (h.0, omega (arith, h.1))

-- The loop is over: the channel is empty, or a handler has panicked.
abbrev pub IsOver : Drained → Type 0
IsOver (emptied s) = s.requests ≡ []
IsOver panicked = Unit
IsOver (unfinished s) = ⊥

-- Unless it panics, a round takes off a request and adds no more than what the request may add.
pub round-Fits :
    (c n : ℕ) (env : Env) (hears : ℕ → Bool) (msg : ArtilleryClusterRequest)
    (rest : List ArtilleryClusterRequest) (s t : ArtilleryEpidemic)
    → IsPlatform env.platform
    → s.requests ≡ msg ∷ rest
    → Fits c (suc n) s
    → handle_one env hears msg (record s { requests = rest }) ≡ some t
    → Fits c n t
round-Fits c n env hears msg rest s t p waits (count, low) goes =
    let s' : ArtilleryEpidemic = record s { requests = rest } in
    let less : load c s ≡ 1 + gain c msg + load c s' = omega (arith, ap (weights c) waits) in
    let (same, after) =
      subst (Leaves c (load c s' + gain c msg)) goes
        (handle_one-Leaves c (load c s') env hears msg s' p (count, omega arith)) in
    (same, omega (arith, less, low, after))

pub drain_one :
    (env : Env) (hears : ℕ → Bool) (envs : List Env) (msg : ArtilleryClusterRequest)
    (rest : List ArtilleryClusterRequest) (s t : ArtilleryEpidemic)
    → s.requests ≡ msg ∷ rest
    → handle_one env hears msg (record s { requests = rest }) ≡ some t
    → drain hears (env ∷ envs) s ≡ drain hears envs t
unfolding drain
drain_one env hears envs msg rest s t waits goes = rw waits (rw (goes, drain) refl)

drain-IsOver :
    (c : ℕ) (hears : ℕ → Bool) (envs : List Env) (s : ArtilleryEpidemic)
    → All (λ env. IsPlatform env.platform) envs
    → Fits c (length envs) s
    → IsOver (drain hears envs s)
unfolding drain
drain-IsOver c hears [] s ps (count, low) = elim (List-cases s.requests) [
  | inl empty ↦ rw empty refl
  | inr (msg, rest, waits) ↦ absurd (omega (arith, low, ap (weights c) waits))
]
drain-IsOver c hears (env ∷ envs) s (p, ps) fits = elim (List-cases s.requests) [
  | inl empty ↦ rw empty refl
  | inr (msg, rest, waits) ↦
      elim (Option-cases (handle_one env hears msg (record s { requests = rest }))) [
        | inl panics ↦ rw waits (rw (panics, IsOver) tt)
        | inr (t, goes) ↦ subst IsOver (sym (drain_one env hears envs msg rest s t waits goes)) (
            drain-IsOver c hears envs t ps
              (round-Fits c (length envs) env hears msg rest s t p waits fits goes))
      ]
]

-- The loop over the node's own requests ends, though its handlers add requests to the channel: with
-- `c` for `ping_request_host_count`, as many rounds are enough as there are requests and addresses
-- that wait, with `c` for each member that is alive, and, for each message among the requests, two
-- more, twice `c`, and `c` for each change that it reports. Then the channel is empty, unless a
-- handler has panicked.
pub drain_ends :
    (hears : ℕ → Bool) (envs : List Env) (s : ArtilleryEpidemic)
    → All (λ env. IsPlatform env.platform) envs
    → load s.config.ping_request_host_count s ≤ length envs
    → IsOver (drain hears envs s)
drain_ends hears envs s ps enough =
    drain-IsOver s.config.ping_request_host_count hears envs s ps (refl, enough)
