-- ===== src/Epidemic/Loop/Asks.antt =====
-- artillery-core/src/epidemic/state.rs: the handlers leave the configuration as it is, and send nothing
-- on the node's own channel but requests to other nodes.
use artillery.Base.{
  ℕ, zero, suc, length, ◌≡◌, refl, sym, ap, ◌∙◌, false, not, is_some, inl, inr, Option, none, some,
  List, [], ◌∷◌, ◌++◌, arith, ◌>>=◌, Bool, Option-cases,
}
use artillery.Base.Dict.{nat_eq}
use artillery.Member.{
  Uuid, SocketAddr, ArtilleryMember, ArtilleryStateChange, alive, is_current, DateTime, set_state,
}
use artillery.Membership.{ArtilleryMemberList, mark_node_alive, time_out_nodes}
use artillery.Epidemic.{
  Request, ping, ArtilleryMessage, TargetedRequest, ClusterConfig, ArtilleryClusterRequest, react,
  ArtilleryMemberEvent, suspected_down, went_down, ArtilleryEpidemic, Env,
}
use artillery.Epidemic.Messages.{enqueue_state_change, build_loop, build_message}
use artillery.Epidemic.Handlers.{
  Step, send_request, send_member_event, for_each, send_pings, send_ping_requests, notify_suspect,
  message_for, process_request, prune_timed_out_responses, remaining, expired_hosts,
}
use artillery.Epidemic.Safety.{IsAnswerable}
use artillery.Member.State.{set_state_fields}
use artillery.Membership.Revival.{mark_node_alive_lem}
use artillery.Epidemic.Loop.Steps.{After, After-then}

-- A request to another node is no `AckHost` without a host.
abbrev pub IsAsked : ArtilleryClusterRequest → Type 0
IsAsked (react r) = IsAnswerable r.request
IsAsked _ = Unit

pub marked_is_remote :
    (now : DateTime) (a : SocketAddr) (l : ArtilleryMemberList) (m : ArtilleryMember)
    → (mark_node_alive now a l).0 ≡ some m
    → is_current m ≡ false
marked_is_remote now a l m e = elim (mark_node_alive_lem now a l) [
  | inl (nothing, _, _) ↦ absurd (cc)
  | inr (pre, n, post, _, _, hit, found, _) ↦
      let q : set_state now alive n ≡ m = ground arith in
      let host = (set_state_fields now alive n).2 in
      ap is_current (sym q) ∙ ap (λ o. not (is_some o)) (host ∙ hit.0)
]

build_message_fields :
    (env : Env) (k : Uuid) (cluster_key : List ℕ) (request : Request)
    (cs : List ArtilleryStateChange) (mtu : ℕ)
    → ((build_message env k cluster_key request cs mtu).sender ≡ k)
      × ((build_message env k cluster_key request cs mtu).request ≡ request)
unfolding build_message build_loop
build_message_fields env k cluster_key request cs mtu = loop 0 (length cs)
  where
    loop :
        (i rounds : ℕ)
        → ((build_loop env k cluster_key request cs mtu i rounds).sender ≡ k)
          × ((build_loop env k cluster_key request cs mtu i rounds).request ≡ request)
    loop i zero = (refl, refl)
    loop i (suc rounds) = ground (arith, loop (suc i) rounds)

-- What holds of the node's key, `running` and configuration, its channel and its datagrams, whatever it asks of other
-- nodes, but for an `AckHost` without a host.
module _
    (J : Uuid
      → Bool
      → ClusterConfig
      → List ArtilleryClusterRequest
      → List (SocketAddr × ArtilleryMessage)
      → Type 0)
    (asks : (k : Uuid) (run : Bool) (config : ClusterConfig) (rs : List ArtilleryClusterRequest)
        (ds : List (SocketAddr × ArtilleryMessage)) (r : TargetedRequest)
      → IsAnswerable r.request
      → J k run config rs ds
      → J k run config (rs ++ react r ∷ []) ds)
    (sends : (k : Uuid) (run : Bool) (config : ClusterConfig) (rs : List ArtilleryClusterRequest)
        (ds : List (SocketAddr × ArtilleryMessage)) (a : SocketAddr) (m : ArtilleryMessage)
      → m.sender ≡ k
      → IsAnswerable m.request
      → J k run config rs ds
      → J k run config rs (ds ++ (a, m) ∷ [])) where
  abbrev pub Has : ArtilleryEpidemic → Type 0
  Has s = J s.host_key s.running s.config s.requests s.sent

  abbrev pub Keeps : Step → Type 0
  Keeps f = (s : ArtilleryEpidemic) → Has s → After Has (f s)

  pub Keeps-then : (f g : Step) → Keeps f → Keeps g → Keeps (λ s. f s >>= g)
  Keeps-then f g first second s h = After-then Has Has (f s) g (first s h) second

  pub for_each-Keeps {ℓ} :
      {A : Type ℓ} (f : A → Step) (items : List A)
      → ((a : A) → Keeps (f a))
      → Keeps (for_each f items)
  unfolding for_each
  for_each-Keeps f [] keeps s h = h
  for_each-Keeps f (a ∷ items) keeps s h =
      Keeps-then (f a) (for_each f items) (keeps a) (for_each-Keeps f items keeps) s h

  pub send_request-Has :
      (request : Request) (target : SocketAddr) (s : ArtilleryEpidemic)
      → IsAnswerable request
      → Has s
      → Has (send_request request target s)
  send_request-Has request target s fine h =
      asks s.host_key s.running s.config s.requests s.sent
        (record { request = request; target = target }) fine h

  pub sends-Keeps :
      (request : Request) (targets : List SocketAddr)
      → IsAnswerable request
      → Keeps (for_each (λ target t. some (send_request request target t)) targets)
  sends-Keeps request targets fine =
      for_each-Keeps (λ target t. some (send_request request target t)) targets
        (λ target t. send_request-Has request target t fine)

  pub send_member_event-Keeps :
      (env : Env) (event : ArtilleryMemberEvent) → Keeps (send_member_event env event)
  unfolding send_member_event
  send_member_event-Keeps env event s h = ground (arith, h)

  send_pings-Keeps : (env : Env) (host : Option SocketAddr) → Keeps (send_pings env host)
  send_pings-Keeps env none s h = h
  send_pings-Keeps env (some host) s h = sends-Keeps (ping host) _ tt s h

  notify_suspect-Keeps : (env : Env) (m : ArtilleryMember) → Keeps (notify_suspect env m)
  unfolding send_ping_requests
  notify_suspect-Keeps env m =
      Keeps-then (send_ping_requests env m) (send_member_event env (suspected_down m))
        (send_pings-Keeps env m.remote_host) (send_member_event-Keeps env (suspected_down m))

  pub prune_timed_out_responses-Keeps : (env : Env) → Keeps (prune_timed_out_responses env)
  unfolding prune_timed_out_responses
  prune_timed_out_responses-Keeps env s h =
      let hosts = expired_hosts env.now s.pending_responses in
      elim (Option-cases (time_out_nodes env.add_date env.now hosts s.members)) [
        | inl late ↦ rw late tt
        | inr (r, timed) ↦
            let pruned : ArtilleryEpidemic = record s {
              pending_responses = remaining env.now s.pending_responses;
              members = r.1;
              state_changes =
                  enqueue_state_change (enqueue_state_change s.state_changes r.0.1) r.0.0;
            } in
            rw timed (
              After-then Has Has (for_each (notify_suspect env) (r.0.0) pruned)
                (for_each (λ m. send_member_event env (went_down m)) (r.0.1))
                (for_each-Keeps (notify_suspect env) (r.0.0) (notify_suspect-Keeps env) pruned h)
                (for_each-Keeps (λ m. send_member_event env (went_down m)) (r.0.1)
                  (λ m. send_member_event-Keeps env (went_down m))))
      ]

  pub process_request-Keeps :
      (env : Env) (request : TargetedRequest)
      → IsAnswerable request.request
      → Keeps (process_request env request)
  unfolding process_request
  process_request-Keeps env request fine s h =
      let m = message_for env request s in
      let (own, same) =
        build_message_fields env s.host_key s.config.cluster_key request.request s.state_changes
          s.config.network_mtu in
      let sent : J s.host_key s.running s.config s.requests (s.sent ++ (request.target, m) ∷ []) =
        sends s.host_key s.running s.config s.requests s.sent request.target m own (rw same fine)
          h in
      ground (arith, sent)
