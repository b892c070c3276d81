-- ===== src/Epidemic/Handlers.antt =====
-- artillery-core/src/epidemic/state.rs: the handlers of outgoing requests of `ArtilleryEpidemic`. A panic is `none`; a
-- send of a request does not fail, since the loop holds the receiver; a send of an event does where
-- the user's `Cluster` is gone.
use artillery.Base.{
  ◌+◌, Bool, true, false, List, [], ◌∷◌, ◌++◌, Option, none, some, retain, map, ltb, not,
  if◌then◌else◌, ◌>>=◌, ◌&&◌,
}
use artillery.Base.Dict.{nat_eq}
use artillery.Member.{SocketAddr, DateTime, ArtilleryMember, alive, suspect, down, left, same_state}
use artillery.Membership.{
  available_nodes, time_out_nodes, hosts_for_indirect_ping, next_random_member,
}
use artillery.Epidemic.{
  Request, heartbeat, ping, ArtilleryMessage, TargetedRequest, react, ArtilleryMemberEvent, joined,
  went_up, suspected_down, went_down, departed, received, Pending, ArtilleryEpidemic, Env,
}
use artillery.Epidemic.Messages.{build_message, enqueue_state_change}

abbrev pub Step : Type 0
Step = ArtilleryEpidemic → Option ArtilleryEpidemic

-- `request_tx.send(React(..))`.
abbrev pub send_request : Request → SocketAddr → ArtilleryEpidemic → ArtilleryEpidemic
send_request request target s = record s {
  requests = s.requests ++ react (record { request = request; target = target }) ∷ [];
}

abbrev pub enqueue : List ArtilleryMember → ArtilleryEpidemic → ArtilleryEpidemic
enqueue ms s = record s { state_changes = enqueue_state_change s.state_changes ms }

-- The assertion of `send_member_event`.
abbrev pub is_consistent : ArtilleryMemberEvent → Bool
is_consistent (joined m) = true
is_consistent (received m msg) = true
is_consistent (went_up m) = same_state m.member_state alive
is_consistent (went_down m) = same_state m.member_state down
is_consistent (suspected_down m) = same_state m.member_state suspect
is_consistent (departed m) = same_state m.member_state left

-- The send panics where the `Cluster` that receives the events was dropped.
unfoldable pub send_member_event : Env → ArtilleryMemberEvent → Step
send_member_event env event s =
    if is_consistent event && env.listening
    then some (record s { events = s.events ++ (available_nodes s.members, event) ∷ [] })
    else none

-- One step for each element, in order.
unfoldable pub for_each {ℓ} : {A : Type ℓ} → (A → Step) → List A → Step
for_each f [] s = some s
for_each f (a ∷ rest) s = do s' ← f a s; for_each f rest s'

abbrev is_heartbeat : Request → Bool
is_heartbeat heartbeat = true
is_heartbeat _ = false

-- The message that a request is sent as.
abbrev pub message_for : Env → TargetedRequest → ArtilleryEpidemic → ArtilleryMessage
message_for env request s =
    build_message env s.host_key s.config.cluster_key request.request s.state_changes
      s.config.network_mtu

-- The clock is far from the last date that chrono has, so that the deadline is one.
abbrev pub await : Env → TargetedRequest → ArtilleryMessage → ArtilleryEpidemic → ArtilleryEpidemic
await env request m s =
    if is_heartbeat request.request
    then record s {
      pending_responses =
          s.pending_responses
          ++ record {
            deadline = env.now + s.config.ping_timeout;
            host = request.target;
            state_changes = m.state_changes;
          }
            ∷ [];
    }
    else s

-- The message must fit the network's limit, and the socket must take it.
unfoldable pub process_request : Env → TargetedRequest → Step
process_request env request s =
    let m = message_for env request s in
    let waiting = await env request m s in
    if ltb (env.encoded_len m) s.config.network_mtu
    then if env.send_ok request.target m
      then some (record waiting { sent = s.sent ++ (request.target, m) ∷ [] })
      else none
    else none

unfoldable pub enqueue_seed_nodes : Step
unfolding for_each
enqueue_seed_nodes s = for_each (λ seed t. some (send_request heartbeat seed t)) s.seed_queue s

abbrev pub ping_member : Option ArtilleryMember → Step
ping_member none s = some s
ping_member (some m) s = do host ← m.remote_host; some (send_request heartbeat host s)

unfoldable pub enqueue_random_ping : Env → Step
unfolding next_random_member
enqueue_random_ping env s = do
  (chosen, members) ← next_random_member env.platform s.members
  ping_member chosen (record s { members = members })

abbrev pub send_pings : Env → Option SocketAddr → Step
send_pings env none s = some s
send_pings env (some target_host) s =
    for_each (λ relay t. some (send_request (ping target_host) relay t))
      (hosts_for_indirect_ping env.platform s.config.ping_request_host_count target_host s.members)
      s

unfoldable pub send_ping_requests : Env → ArtilleryMember → Step
unfolding for_each hosts_for_indirect_ping
send_ping_requests env target s = send_pings env target.remote_host s

abbrev pub notify_suspect : Env → ArtilleryMember → Step
notify_suspect env m s = do
  s' ← send_ping_requests env m s
  send_member_event env (suspected_down m) s'

-- `partition` puts what the test accepts into its first part, which the code calls `remaining`.
abbrev pub remaining : DateTime → List Pending → List Pending
remaining now = retain (λ p. ltb p.deadline now)

abbrev pub expired : DateTime → List Pending → List Pending
expired now = retain (λ p. not (ltb p.deadline now))

abbrev pub expired_hosts : DateTime → List Pending → List SocketAddr
expired_hosts now ps = map (λ p. p.host) (expired now ps)

unfoldable pub prune_timed_out_responses : Env → Step
unfolding time_out_nodes for_each send_ping_requests send_member_event enqueue_state_change
prune_timed_out_responses env s = do
  ((suspects, downs), members) ←
      time_out_nodes env.add_date env.now (expired_hosts env.now s.pending_responses) s.members
  let pruned = record s {
    pending_responses = remaining env.now s.pending_responses;
    members = members;
    state_changes = enqueue_state_change (enqueue_state_change s.state_changes downs) suspects;
  }
  s1 ← for_each (notify_suspect env) suspects pruned
  for_each (λ m. send_member_event env (went_down m)) downs s1
