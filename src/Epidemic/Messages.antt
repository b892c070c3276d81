-- ===== src/Epidemic/Messages.antt =====
-- artillery-core/src/epidemic/state.rs: the free functions, and `ack_response`, which settles what
-- a node waits for.
use artillery.Base.{
  ℕ, zero, suc, Bool, true, false, not, ◌&&◌, List, [], ◌∷◌, ◌++◌, Option, none, some, length, take,
  retain, any, leb, ◌==◌, if◌then◌else◌,
}
use artillery.Base.Dict.{lookup, insert, nat_eq}
use artillery.Member.{
  Uuid, SocketAddr, ArtilleryMember, ArtilleryStateChange, alive, suspect, down, left,
  ArtilleryMemberState, same_state,
}
use artillery.Epidemic.{
  Request, ArtilleryMessage, ArtilleryMemberEvent, went_up, suspected_down, went_down, departed,
  Pending, ArtilleryEpidemic, Env,
}

abbrev pub message : Uuid → List ℕ → Request → List ArtilleryStateChange → ArtilleryMessage
message sender cluster_key request state_changes = record {
  sender = sender;
  cluster_key = cluster_key;
  request = request;
  state_changes = state_changes;
}

-- The rounds of `build_message` from the prefix of `i` changes on, with `rounds` to go after it.
unfoldable pub build_loop :
    Env → Uuid → List ℕ → Request → List ArtilleryStateChange → ℕ → ℕ → ℕ → ArtilleryMessage
build_loop env sender cluster_key request state_changes network_mtu i zero =
    message sender cluster_key request (take i state_changes)
build_loop env sender cluster_key request state_changes network_mtu i (suc rounds) =
    let m = message sender cluster_key request (take i state_changes) in
    let rest = build_loop env sender cluster_key request state_changes network_mtu (suc i) rounds in
    if leb network_mtu (env.encoded_len m) then m else rest

unfoldable pub build_message :
    Env → Uuid → List ℕ → Request → List ArtilleryStateChange → ℕ → ArtilleryMessage
unfolding build_loop
build_message env sender cluster_key request state_changes network_mtu =
    build_loop env sender cluster_key request state_changes network_mtu 0 (length state_changes)

abbrev pub push_waiting : SocketAddr → Option (List SocketAddr) → List SocketAddr
push_waiting notify_addr none = notify_addr ∷ []
push_waiting notify_addr (some waiting) = waiting ++ notify_addr ∷ []

unfoldable pub add_to_wait_list :
    List (SocketAddr × List SocketAddr)
    → SocketAddr
    → SocketAddr
    → List (SocketAddr × List SocketAddr)
unfolding lookup insert
add_to_wait_list wait_list wait_addr notify_addr =
    insert wait_addr (push_waiting notify_addr (lookup wait_addr wait_list)) wait_list

abbrev pub remove_potential_seed : List SocketAddr → SocketAddr → List SocketAddr
remove_potential_seed seed_queue src_addr = retain (λ addr. not (addr == src_addr)) seed_queue

abbrev event_of : ArtilleryMemberState → ArtilleryMember → ArtilleryMemberEvent
event_of alive = went_up
event_of suspect = suspected_down
event_of down = went_down
event_of left = departed

abbrev pub determine_member_event : ArtilleryMember → ArtilleryMemberEvent
determine_member_event m = event_of m.member_state m

abbrev pub same_key : ArtilleryMember → ArtilleryStateChange → Bool
same_key m c = c.member.host_key == m.host_key

-- The first change with the member's key is updated.
unfoldable pub update_change :
    ArtilleryMember → List ArtilleryStateChange → List ArtilleryStateChange
update_change m [] = []
update_change m (c ∷ cs) =
    if same_key m c then record { member = m } ∷ cs else c ∷ update_change m cs

-- The update returns from the whole function: the members behind it are not looked at.
unfoldable pub enqueue_state_change :
    List ArtilleryStateChange → List ArtilleryMember → List ArtilleryStateChange
unfolding update_change
enqueue_state_change state_changes [] = state_changes
enqueue_state_change state_changes (m ∷ ms) =
    let rest = enqueue_state_change (state_changes ++ record { member = m } ∷ []) ms in
    if any (same_key m) state_changes then update_change m state_changes else rest

-- The derived `==` of members, of changes and of what is pending.
abbrev pub same_host : Option SocketAddr → Option SocketAddr → Bool
same_host none none = true
same_host none (some b) = false
same_host (some a) none = false
same_host (some a) (some b) = a == b

abbrev pub same_member : ArtilleryMember → ArtilleryMember → Bool
same_member m n =
    m.host_key == n.host_key
    && (same_host m.remote_host n.remote_host
        && (m.incarnation_number == n.incarnation_number
            && (same_state m.member_state n.member_state
                && m.last_state_change == n.last_state_change)))

abbrev pub same_changes : List ArtilleryStateChange → List ArtilleryStateChange → Bool
same_changes [] [] = true
same_changes [] (d ∷ ds) = false
same_changes (c ∷ cs) [] = false
same_changes (c ∷ cs) (d ∷ ds) = same_member c.member d.member && same_changes cs ds

abbrev pub same_pending : Pending → Pending → Bool
same_pending p q =
    p.deadline == q.deadline && (p.host == q.host && same_changes p.state_changes q.state_changes)

-- The changes that an acknowledged message did not carry.
abbrev pub unacknowledged :
    List ArtilleryStateChange → List ArtilleryStateChange → List ArtilleryStateChange
unacknowledged carried = retain (λ os. not (any (same_key os.member) carried))

-- The loop of `ack_response`: what is to be removed, and the changes that are left.
unfoldable pub ack_loop :
    SocketAddr
    → List Pending
    → List Pending
    → List ArtilleryStateChange
    → List Pending × List ArtilleryStateChange
ack_loop src_addr [] to_remove state_changes = (to_remove, state_changes)
ack_loop src_addr (p ∷ ps) to_remove state_changes =
    ack_loop src_addr ps (if p.host == src_addr then to_remove ++ p ∷ [] else to_remove)
      (if p.host == src_addr then unacknowledged p.state_changes state_changes else state_changes)

unfoldable pub ack_response : SocketAddr → ArtilleryEpidemic → ArtilleryEpidemic
unfolding ack_loop
ack_response src_addr s =
    let r = ack_loop src_addr s.pending_responses [] s.state_changes in
    record s {
      state_changes = r.1;
      pending_responses =
          retain (λ op. not (any (λ ip. same_pending ip op) r.0)) s.pending_responses;
    }
