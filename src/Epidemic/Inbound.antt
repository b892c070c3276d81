-- ===== src/Epidemic/Inbound.antt =====
-- artillery-core/src/epidemic/state.rs: the handlers of messages from other nodes, and of the node's
-- own requests.
use Prim.Native.String.{String}
use artillery.Base.{
  ℕ, Bool, true, false, List, [], ◌∷◌, ◌++◌, Option, none, some, ◌==◌, ◌&&◌, if◌then◌else◌, ◌>>=◌,
}
use artillery.Base.Dict.{lookup, insert, nat_eq}
use artillery.Member.{
  Uuid, SocketAddr, ArtilleryMember, ArtilleryStateChange, alive, new_member, is_remote,
}
use artillery.Membership.{mark_node_alive, has_member, add_member, get_member, leave}
use artillery.Membership.Changes.{apply_state_changes}
use artillery.Epidemic.{
  Request, heartbeat, ack, ping, ack_host, payload, ArtilleryMessage, ArtilleryClusterRequest,
  add_seed, respond, react, leave_cluster, exit, send_payload, joined, went_up, received,
  ArtilleryEpidemic, Env,
}
use artillery.Epidemic.Messages.{
  add_to_wait_list, remove_potential_seed, determine_member_event, ack_response,
}
use artillery.Epidemic.Handlers.{
  Step, send_request, enqueue, send_member_event, for_each, process_request,
  prune_timed_out_responses,
}

unfoldable pub apply_changes : Env → List ArtilleryStateChange → SocketAddr → Step
unfolding for_each send_member_event
apply_changes env state_changes from s = do
  r ← apply_state_changes env.platform state_changes from s.members
  let told = enqueue r.changed_nodes (enqueue r.new_nodes (record s { members = r.list }))
  s1 ← for_each (λ m. send_member_event env (joined m)) r.new_nodes told
  for_each (λ m. send_member_event env (determine_member_event m)) r.changed_nodes s1

unfoldable pub ensure_node_is_member : Env → SocketAddr → Uuid → Step
unfolding send_member_event
ensure_node_is_member env src_addr sender s =
    let m = new_member env.now sender src_addr 0 alive in
    if has_member src_addr s.members
    then some s
    else send_member_event env (joined m)
        (enqueue (m ∷ []) (record s { members = add_member m s.members }))

-- Those who wait for the host are told of the member, and no longer wait.
abbrev pub tell_waiting :
    ArtilleryMember
    → SocketAddr
    → Option (List SocketAddr)
    → ArtilleryEpidemic
    → Option ArtilleryEpidemic
tell_waiting m src_addr none s = some s
tell_waiting m src_addr (some waiting) s = do
  s1 ← for_each (λ remote t. some (send_request (ack_host m) remote t)) waiting s
  some (record s1 { wait_list = insert src_addr [] s1.wait_list })

abbrev pub went_alive : Env → SocketAddr → Option ArtilleryMember → Step
went_alive env src_addr none s = some s
went_alive env src_addr (some m) s = do
  s1 ← tell_waiting m src_addr (lookup src_addr s.wait_list) s
  send_member_event env (went_up m) (enqueue (m ∷ []) s1)

unfoldable pub mark_alive : Env → SocketAddr → Step
unfolding mark_node_alive for_each send_member_event
mark_alive env src_addr s =
    let r = mark_node_alive env.now src_addr s.members in
    went_alive env src_addr (r.0) (record s { members = r.1 })

abbrev deliver_payload : Env → String → Option ArtilleryMember → Step
deliver_payload env msg none s = some s
deliver_payload env msg (some m) s = send_member_event env (received m msg) s

abbrev pub handle_request : Env → SocketAddr → Request → Step
handle_request env src_addr heartbeat s = some (send_request ack src_addr s)
handle_request env src_addr ack s = mark_alive env src_addr (ack_response src_addr s)
handle_request env src_addr (ping dest_addr) s = some (
    send_request heartbeat dest_addr
      (record s { wait_list = add_to_wait_list s.wait_list dest_addr src_addr }))
handle_request env src_addr (ack_host m) s = do
  host ← m.remote_host
  mark_alive env host (ack_response host s)
handle_request env src_addr (payload peer_id msg) s =
    deliver_payload env msg (get_member peer_id s.members) s

-- The derived `==` of cluster keys.
abbrev pub same_bytes : List ℕ → List ℕ → Bool
same_bytes [] [] = true
same_bytes [] (b ∷ bs) = false
same_bytes (a ∷ xs) [] = false
same_bytes (a ∷ xs) (b ∷ bs) = a == b && same_bytes xs bs

-- `respond_to_message` behind its check of the cluster key.
unfoldable pub accept_message : Env → SocketAddr → ArtilleryMessage → Step
unfolding apply_changes ensure_node_is_member mark_alive
accept_message env src_addr m s = do
  s1 ← apply_changes env m.state_changes src_addr s
  let unseeded = record s1 { seed_queue = remove_potential_seed s1.seed_queue src_addr }
  s2 ← ensure_node_is_member env src_addr m.sender unseeded
  handle_request env src_addr m.request s2

unfoldable pub respond_to_message : Env → SocketAddr → ArtilleryMessage → Step
unfolding accept_message
respond_to_message env src_addr m s =
    if same_bytes m.cluster_key s.config.cluster_key
    then accept_message env src_addr m s
    else some s

abbrev pub pay : Env → Uuid → String → Option ArtilleryMember → Step
pay env id msg none s = some s
pay env id msg (some peer) s =
    let sent = (do
      host ← peer.remote_host
      process_request env (record { request = payload id msg; target = host }) s) in
    if is_remote peer then sent else some s

abbrev pub unit_result : Option ArtilleryEpidemic → Option (Option ℕ × ArtilleryEpidemic)
unit_result none = none
unit_result (some s) = some (none, s)

-- The result holds the channel on which an `Exit` is to be answered.
unfoldable pub process_internal_request :
    Env → ArtilleryClusterRequest → ArtilleryEpidemic → Option (Option ℕ × ArtilleryEpidemic)
unfolding respond_to_message prune_timed_out_responses process_request
process_internal_request env (add_seed addr) s =
    some (none, record s { seed_queue = s.seed_queue ++ addr ∷ [] })
process_internal_request env (respond src_addr m) s =
    unit_result (respond_to_message env src_addr m s)
process_internal_request env (react request) s =
    unit_result (do s1 ← prune_timed_out_responses env s; process_request env request s1)
process_internal_request env leave_cluster s = do
  (myself, members) ← leave env.now s.members
  some (none, enqueue (myself ∷ []) (record s { members = members }))
process_internal_request env (send_payload id msg) s =
    unit_result (pay env id msg (get_member id s.members) s)
process_internal_request env (exit tx) s = some (some tx, s)
