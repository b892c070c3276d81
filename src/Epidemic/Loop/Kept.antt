-- ===== src/Epidemic/Loop/Kept.antt =====
-- artillery-core/src/epidemic/state.rs: what each request that a node works off, and the start of a
-- round, leave as it is.
use Prim.Native.String.{String}
use artillery.Base.{
  ℕ, ◌≡◌, refl, false, inl, inr, Option, none, some, List, [], ◌∷◌, ◌++◌, Bool, Bool-cases,
  Option-cases, ◌>>=◌,
}
use artillery.Base.Dict.{lookup, insert, nat_eq}
use artillery.Member.{
  Uuid, SocketAddr, ArtilleryMember, ArtilleryStateChange, alive, new_member, is_remote, is_current,
}
use artillery.Membership.{
  has_member, add_member, get_member, find_myself, leave, mark_node_alive, next_random_member,
}
use artillery.Membership.Changes.{apply_state_changes}
use artillery.Epidemic.{
  Request, heartbeat, ack, ping, ack_host, payload, ArtilleryMessage, TargetedRequest,
  ClusterConfig, ArtilleryClusterRequest, add_seed, respond, react, leave_cluster, exit,
  send_payload, joined, went_up, received, ArtilleryEpidemic, Env,
}
use artillery.Epidemic.Messages.{
  determine_member_event, ack_response, remove_potential_seed, add_to_wait_list,
}
use artillery.Epidemic.Handlers.{
  send_request, enqueue, send_member_event, for_each, process_request, prune_timed_out_responses,
  ping_member, enqueue_seed_nodes, enqueue_random_ping,
}
use artillery.Epidemic.Safety.{IsAnswerable}
use artillery.Epidemic.Inbound.{
  apply_changes, ensure_node_is_member, tell_waiting, went_alive, mark_alive, handle_request,
  accept_message, same_bytes, respond_to_message, pay, unit_result, process_internal_request,
}
use artillery.Epidemic.Loop.{answer_exit, handle_one, tick}
use artillery.Epidemic.Loop.Steps.{After, After-then}
use artillery.Epidemic.Loop.Asks.{
  for_each-Keeps, send_request-Has, sends-Keeps, send_member_event-Keeps, process_request-Keeps,
  prune_timed_out_responses-Keeps, Has, Keeps, Keeps-then, marked_is_remote, IsAsked,
}

-- What holds of the node's key, `running` and configuration, its channel and its datagrams, whatever it asks of other
-- nodes, but for an `AckHost` without a host.
module _
    (J : Uuid
      → Bool
      → ClusterConfig
      → List ArtilleryClusterRequest
      → List (SocketAddr × ArtilleryMessage)
      → Type 0)
    (asks : (k : Uuid) (run : Bool) (config : ClusterConfig) (rs : List ArtilleryClusterRequest)
        (ds : List (SocketAddr × ArtilleryMessage)) (r : TargetedRequest)
      → IsAnswerable r.request
      → J k run config rs ds
      → J k run config (rs ++ react r ∷ []) ds)
    (sends : (k : Uuid) (run : Bool) (config : ClusterConfig) (rs : List ArtilleryClusterRequest)
        (ds : List (SocketAddr × ArtilleryMessage)) (a : SocketAddr) (m : ArtilleryMessage)
      → m.sender ≡ k
      → IsAnswerable m.request
      → J k run config rs ds
      → J k run config rs (ds ++ (a, m) ∷ [])) where
  apply_changes-Keeps :
      (env : Env) (cs : List ArtilleryStateChange) (from : SocketAddr)
      → Keeps J asks sends (apply_changes env cs from)
  unfolding apply_changes
  apply_changes-Keeps env cs from s h =
      elim (Option-cases (apply_state_changes env.platform cs from s.members)) [
        | inl panics ↦ rw panics tt
        | inr (r, goes) ↦ rw goes (
            After-then (Has J asks sends) (Has J asks sends) _ _
              (for_each-Keeps J asks sends (λ m. send_member_event env (joined m)) r.new_nodes
                (λ m. send_member_event-Keeps J asks sends env (joined m)) _ h)
              (for_each-Keeps J asks sends (λ m. send_member_event env (determine_member_event m))
                r.changed_nodes
                (λ m. send_member_event-Keeps J asks sends env (determine_member_event m))))
      ]

  ensure_node_is_member-Keeps :
      (env : Env) (from : SocketAddr) (sender : Uuid)
      → Keeps J asks sends (ensure_node_is_member env from sender)
  unfolding ensure_node_is_member
  ensure_node_is_member-Keeps env from sender s h = elim (Bool-cases (has_member from s.members)) [
    | inl known ↦ rw known h
    | inr new ↦
        let m = new_member env.now sender from 0 alive in
        rw new (
          send_member_event-Keeps J asks sends env (joined m)
            (enqueue (m ∷ []) (record s { members = add_member m s.members })) h)
  ]

  tell_waiting-Keeps :
      (m : ArtilleryMember) (from : SocketAddr) (o : Option (List SocketAddr))
      → is_current m ≡ false
      → Keeps J asks sends (tell_waiting m from o)
  tell_waiting-Keeps m from none fine s h = h
  tell_waiting-Keeps m from (some hosts) fine s h =
      Keeps-then J asks sends
        (for_each (λ remote t. some (send_request (ack_host m) remote t)) hosts)
        (λ t. some (record t { wait_list = insert from [] t.wait_list }))
        (sends-Keeps J asks sends (ack_host m) hosts fine) (λ t had. had) s h

  went_alive-Keeps :
      (env : Env) (from : SocketAddr) (o : Option ArtilleryMember)
      → ((m : ArtilleryMember) → o ≡ some m → is_current m ≡ false)
      → Keeps J asks sends (went_alive env from o)
  went_alive-Keeps env from none fine s h = h
  went_alive-Keeps env from (some m) fine s h =
      After-then (Has J asks sends) (Has J asks sends)
        (tell_waiting m from (lookup from s.wait_list) s) _
        (tell_waiting-Keeps m from (lookup from s.wait_list) (fine m refl) s h)
        (λ t. send_member_event-Keeps J asks sends env (went_up m) (enqueue (m ∷ []) t))

  mark_alive-Keeps : (env : Env) (from : SocketAddr) → Keeps J asks sends (mark_alive env from)
  unfolding mark_alive
  mark_alive-Keeps env from s h =
      went_alive-Keeps env from (mark_node_alive env.now from s.members).0
        (marked_is_remote env.now from s.members)
        (record s { members = (mark_node_alive env.now from s.members).1 }) h

  handle_request-Keeps :
      (env : Env) (from : SocketAddr) (request : Request)
      → Keeps J asks sends (handle_request env from request)
  unfolding ack_response
  handle_request-Keeps env from heartbeat s h = send_request-Has J asks sends ack from s tt h
  handle_request-Keeps env from ack s h = mark_alive-Keeps env from (ack_response from s) h
  handle_request-Keeps env from (ping dest) s h =
      send_request-Has J asks sends heartbeat dest
        (record s { wait_list = add_to_wait_list s.wait_list dest from }) tt h
  handle_request-Keeps env from (ack_host m) s h = elim (Option-cases m.remote_host) [
    | inl absent ↦ rw absent tt
    | inr (host, there) ↦ rw there (mark_alive-Keeps env host (ack_response host s) h)
  ]
  handle_request-Keeps env from (payload id msg) s h =
      elim (Option-cases (get_member id s.members)) [
        | inl absent ↦ rw absent h
        | inr (m, there) ↦ rw there (send_member_event-Keeps J asks sends env (received m msg) s h)
      ]

  respond_to_message-Keeps :
      (env : Env) (from : SocketAddr) (m : ArtilleryMessage)
      → Keeps J asks sends (respond_to_message env from m)
  unfolding respond_to_message accept_message
  respond_to_message-Keeps env from m s h =
      elim (Bool-cases (same_bytes m.cluster_key s.config.cluster_key)) [
        | inr strange ↦ rw strange h
        | inl known ↦ rw known (
            After-then (Has J asks sends) (Has J asks sends) _ _
              (apply_changes-Keeps env m.state_changes from s h)
              (λ t fits.
                After-then (Has J asks sends) (Has J asks sends) _ _
                  (ensure_node_is_member-Keeps env from m.sender
                    (record t { seed_queue = remove_potential_seed t.seed_queue from }) fits)
                  (handle_request-Keeps env from m.request)))
      ]

  pay-Keeps :
      (env : Env) (id : Uuid) (msg : String) (o : Option ArtilleryMember)
      → Keeps J asks sends (pay env id msg o)
  pay-Keeps env id msg none s h = h
  pay-Keeps env id msg (some peer) s h = elim (Bool-cases (is_remote peer)) [
    | inr near ↦ rw near h
    | inl far ↦ rw far (elim (Option-cases peer.remote_host) [
      | inl absent ↦ rw absent tt
      | inr (host, there) ↦ rw there (
          process_request-Keeps J asks sends env
            (record { request = payload id msg; target = host }) tt s h)
    ])
  ]

  unit_result-Keeps :
      (hears : ℕ → Bool) (r : Option ArtilleryEpidemic)
      → After (Has J asks sends) r
      → After (Has J asks sends) (unit_result r >>= (λ t. answer_exit hears t.0 t.1))
  unit_result-Keeps hears none h = tt
  unit_result-Keeps hears (some s) h = h

  pub handle_one-Keeps :
      (stops : (k : Uuid) (run : Bool) (config : ClusterConfig) (rs : List ArtilleryClusterRequest)
          (ds : List (SocketAddr × ArtilleryMessage))
        → J k run config rs ds
        → J k false config rs ds)
      (env : Env) (hears : ℕ → Bool) (msg : ArtilleryClusterRequest)
      → IsAsked msg
      → Keeps J asks sends (handle_one env hears msg)
  unfolding handle_one process_internal_request leave
  handle_one-Keeps stops env hears (add_seed addr) fine s h = h
  handle_one-Keeps stops env hears (respond from m) fine s h =
      unit_result-Keeps hears (respond_to_message env from m s)
        (respond_to_message-Keeps env from m s h)
  handle_one-Keeps stops env hears (react request) fine s h =
      unit_result-Keeps hears (prune_timed_out_responses env s >>= process_request env request) (
        After-then (Has J asks sends) (Has J asks sends) (prune_timed_out_responses env s)
          (process_request env request) (prune_timed_out_responses-Keeps J asks sends env s h)
          (process_request-Keeps J asks sends env request fine))
  handle_one-Keeps stops env hears leave_cluster fine s h =
      elim (Option-cases (find_myself s.members.members)) [
        | inl nobody ↦ rw nobody tt
        | inr (me, found) ↦ rw found h
      ]
  handle_one-Keeps stops env hears (send_payload id msg) fine s h =
      unit_result-Keeps hears (pay env id msg (get_member id s.members) s)
        (pay-Keeps env id msg (get_member id s.members) s h)
  handle_one-Keeps stops env hears (exit tx) fine s h = elim (Bool-cases (hears tx)) [
    | inl lives ↦ rw lives (stops s.host_key s.running s.config s.requests s.sent h)
    | inr dead ↦ rw dead tt
  ]

  ping_member-Keeps : (chosen : Option ArtilleryMember) → Keeps J asks sends (ping_member chosen)
  ping_member-Keeps none s h = h
  ping_member-Keeps (some m) s h = elim (Option-cases m.remote_host) [
    | inl absent ↦ rw absent tt
    | inr (host, there) ↦ rw there (send_request-Has J asks sends heartbeat host s tt h)
  ]

  pub tick-Keeps : (env : Env) → Keeps J asks sends (tick env)
  unfolding tick enqueue_seed_nodes enqueue_random_ping
  tick-Keeps env s h =
      After-then (Has J asks sends) (Has J asks sends) _ (enqueue_random_ping env)
        (sends-Keeps J asks sends heartbeat s.seed_queue tt s h)
        (λ t had. elim (Option-cases (next_random_member env.platform t.members)) [
          | inl panics ↦ rw panics tt
          | inr ((chosen, members), found) ↦
              rw found (ping_member-Keeps chosen (record t { members = members }) had)
        ])
