-- ===== src/Epidemic/Loop/Through.antt =====
-- artillery-core/src/epidemic/state.rs, `event_loop`: the loop over the node's own requests on a network
-- that takes what the node sends.
use Prim.Native.String.{String}
use artillery.Base.{
  ℕ, ◌≤◌, ◌<◌, ◌≡◌, ◌≢◌, ◌∙◌, refl, sym, ap, inl, inr, true, Option, none, some, List, [], ◌∷◌,
  ◌++◌, arith, Bool, Bool-cases, Option-cases, List-cases, length, subst, ◌>>=◌, All, All-append,
  ltb,
}
use artillery.Member.{Uuid, SocketAddr, ArtilleryMember, is_remote}
use artillery.Membership.{get_member}
use artillery.Membership.WellFormed.{IsWellFormed, leave_total}
use artillery.Membership.Timeouts.{All-IsDatable}
use artillery.Epidemic.{
  ClusterConfig, ArtilleryMessage, ArtilleryClusterRequest, add_seed, respond, react, leave_cluster,
  exit, send_payload, TargetedRequest, payload, ArtilleryEpidemic, Env,
}
use artillery.Epidemic.Handlers.{message_for, await, process_request, prune_timed_out_responses}
use artillery.Epidemic.Inbound.{pay, unit_result, respond_to_message, process_internal_request}
use artillery.Epidemic.Safety.{
  IsSafe, IsSupportive, IsAnswerable, GoesThrough, respond_to_message_through,
}
use artillery.Epidemic.Pruning.{prune_timed_out_responses_through}
use artillery.Epidemic.Loop.{answer_exit, handle_one, emptied, drain}
use artillery.Epidemic.Loop.Load.{load, weights}
use artillery.Epidemic.Loop.Steps.{After}
use artillery.Epidemic.Loop.Asks.{IsAsked, prune_timed_out_responses-Keeps}
use artillery.Epidemic.Loop.Kept.{handle_one-Keeps}
use artillery.Epidemic.Loop.Drain.{round-Fits, drain_one}

-- A message from another node does not go by this node's key, and neither it nor a request to another
-- node is an `AckHost` without a host.
abbrev pub IsTakeable : Uuid → ArtilleryClusterRequest → Type 0
IsTakeable my (respond from m) = (m.sender ≢ my) × IsAnswerable m.request
IsTakeable my (react r) = IsAnswerable r.request
IsTakeable my _ = Unit

-- The network takes all that a node with the configuration sends.
abbrev pub Carries : ClusterConfig → Env → Type 0
Carries config env =
    IsSupportive env
    × ((m : ArtilleryMessage) → env.encoded_len m < config.network_mtu)
    × ((a : SocketAddr) (m : ArtilleryMessage) → env.send_ok a m ≡ true)

process_request_through :
    (my : Uuid) (env : Env) (request : TargetedRequest) (s : ArtilleryEpidemic)
    → Carries s.config env
    → IsSafe my s
    → GoesThrough my (process_request env request s)
unfolding process_request
process_request_through my env request s (_, fits, goes) w =
    let m = message_for env request s in
    let short : ltb (env.encoded_len m) s.config.network_mtu ≡ true = ground (arith, fits m) in
    let same : (await env request m s).members ≡ s.members = ground arith in
    (
      record (await env request m s) { sent = s.sent ++ (request.target, m) ∷ [] },
      rw (short, goes request.target m) refl,
      subst (λ l. IsWellFormed my l.members) (sym same) w,
    )

unit_result_through :
    (my : Uuid) (hears : ℕ → Bool) (r : Option ArtilleryEpidemic)
    → GoesThrough my r
    → GoesThrough my (unit_result r >>= (λ t. answer_exit hears t.0 t.1))
unit_result_through my hears r (s, goes, w) = rw goes (s, refl, w)

pay_through :
    (my : Uuid) (env : Env) (id : Uuid) (msg : String) (o : Option ArtilleryMember)
    (s : ArtilleryEpidemic)
    → Carries s.config env
    → IsSafe my s
    → GoesThrough my (pay env id msg o s)
pay_through my env id msg none s carries w = (s, refl, w)
pay_through my env id msg (some peer) s carries w = elim (Bool-cases (is_remote peer)) [
  | inr near ↦ rw near (s, refl, w)
  | inl far ↦ rw far (elim (Option-cases peer.remote_host) [
    | inl absent ↦ absurd (ground arith)
    | inr (host, there) ↦ rw there (
        process_request_through my env (record { request = payload id msg; target = host }) s
          carries w)
  ])
]

react_through :
    (my : Uuid) (env : Env) (request : TargetedRequest) (s : ArtilleryEpidemic)
    → Carries s.config env
    → IsSafe my s
    → GoesThrough my (prune_timed_out_responses env s >>= process_request env request)
react_through my env request s carries w =
    let (t, goes, w') =
      prune_timed_out_responses_through my env s carries.0.heard
        (All-IsDatable env.add_date s.members.members carries.0.adds) w in
    let same : t.config ≡ s.config = subst (After (λ u. u.config ≡ s.config)) goes (
      prune_timed_out_responses-Keeps (λ k run config rs ds. config ≡ s.config)
        (λ k run config rs ds r fine h. h) (λ k run config rs ds a m own fine h. h) env s refl) in
    rw goes (
      process_request_through my env request t
        (subst (λ config. Carries config env) (sym same) carries) w')

-- One request is worked off without a panic.
pub handle_one_through :
    (my : Uuid) (env : Env) (hears : ℕ → Bool) (msg : ArtilleryClusterRequest)
    (s : ArtilleryEpidemic)
    → Carries s.config env
    → ((tx : ℕ) → hears tx ≡ true)
    → IsTakeable my msg
    → IsSafe my s
    → GoesThrough my (handle_one env hears msg s)
unfolding handle_one process_internal_request
handle_one_through my env hears (add_seed addr) s carries heard h w = (_, refl, w)
handle_one_through my env hears (respond from m) s carries heard h w =
    unit_result_through my hears (respond_to_message env from m s)
      (respond_to_message_through my env from m s carries.0 h.0 h.1 w)
handle_one_through my env hears (react request) s carries heard h w =
    unit_result_through my hears (prune_timed_out_responses env s >>= process_request env request)
      (react_through my env request s carries w)
handle_one_through my env hears leave_cluster s carries heard h w =
    let (me, l, gone, w') = leave_total env.now my s.members w in rw gone (_, refl, w')
handle_one_through my env hears (send_payload id msg) s carries heard h w =
    unit_result_through my hears (pay env id msg (get_member id s.members) s)
      (pay_through my env id msg (get_member id s.members) s carries w)
handle_one_through my env hears (exit tx) s carries heard h w = rw (heard tx) (_, refl, w)

-- What holds between two rounds.
abbrev Ready : Uuid → ClusterConfig → ArtilleryEpidemic → Type 0
Ready my config s = (s.config ≡ config) × All (IsTakeable my) s.requests

pub IsTakeable-IsAsked :
    (my : Uuid) (msg : ArtilleryClusterRequest) → IsTakeable my msg → IsAsked msg
IsTakeable-IsAsked my (add_seed addr) h = tt
IsTakeable-IsAsked my (respond from m) h = tt
IsTakeable-IsAsked my (react r) h = h
IsTakeable-IsAsked my leave_cluster h = tt
IsTakeable-IsAsked my (exit tx) h = tt
IsTakeable-IsAsked my (send_payload id msg) h = tt

Ready-round :
    (my : Uuid) (config : ClusterConfig) (env : Env) (hears : ℕ → Bool)
    (msg : ArtilleryClusterRequest) (s t : ArtilleryEpidemic)
    → handle_one env hears msg s ≡ some t
    → IsTakeable my msg
    → Ready my config s
    → Ready my config t
Ready-round my config env hears msg s t goes taken ready = subst (After (Ready my config)) goes (
    handle_one-Keeps (λ k run cfg rs ds. (cfg ≡ config) × All (IsTakeable my) rs)
      (λ k run cfg rs ds r fine h.
        (h.0, All-append (IsTakeable my) rs (react r ∷ []) h.1 (fine, tt)))
      (λ k run cfg rs ds a m own fine h. h) (λ k run cfg rs ds h. h) env hears msg
      (IsTakeable-IsAsked my msg taken) s ready)

pub drain_through :
    (my : Uuid) (hears : ℕ → Bool) (envs : List Env) (s : ArtilleryEpidemic)
    → All (Carries s.config) envs
    → ((tx : ℕ) → hears tx ≡ true)
    → All (IsTakeable my) s.requests
    → IsSafe my s
    → load s.config.ping_request_host_count s ≤ length envs
    → (t : ArtilleryEpidemic) × (drain hears envs s ≡ emptied t) × (t.requests ≡ []) × IsSafe my t
unfolding drain
drain_through my hears [] s carries heard takeable w enough = elim (List-cases s.requests) [
  | inl empty ↦ (s, rw empty refl, empty, w)
  | inr (msg, rest, waits) ↦
      absurd (omega (arith, enough, ap (weights s.config.ping_request_host_count) waits))
]
drain_through my hears (env ∷ envs) s (carried, carries) heard takeable w enough =
    elim (List-cases s.requests) [
      | inl empty ↦ (s, rw empty refl, empty, w)
      | inr (msg, rest, waits) ↦
          let s' : ArtilleryEpidemic = record s { requests = rest } in
          let takes : All (IsTakeable my) (msg ∷ rest) =
            subst (All (IsTakeable my)) waits takeable in
          let (t, goes, w') = handle_one_through my env hears msg s' carried heard takes.0 w in
          let (same, takeable') =
            Ready-round my s.config env hears msg s' t goes takes.0 (refl, takes.1) in
          let (count, low) =
            round-Fits s.config.ping_request_host_count (length envs) env hears msg rest s t
              carried.0.platform waits (refl, enough) goes in
          let (u, ends, empty, w'') =
            drain_through my hears envs t
              (subst (λ config. All (Carries config) envs) (sym same) carries) heard takeable' w'
              (subst (λ c. load c t ≤ length envs) (sym count) low) in
          (u, drain_one env hears envs msg rest s t waits goes ∙ ends, empty, w'')
    ]
