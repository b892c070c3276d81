-- ===== src/Epidemic/Safety.antt =====
-- artillery-core/src/epidemic/state.rs: panics on messages from other nodes, and the form of the
-- member list after them.
use artillery.Base.{
  ◌+◌, ◌≡◌, refl, sym, ap, ◌∙◌, ◌≢◌, inl, inr, true, false, List, [], ◌∷◌, Option, none, some,
  arith, All, Bool-cases, Option-cases, ◌>>=◌,
}
use artillery.Base.Dict.{lookup, insert, nat_eq}
use artillery.Member.{
  Uuid, SocketAddr, DateTime, seconds, ArtilleryMember, alive, ArtilleryStateChange, new_member,
  set_state, is_current,
}
use artillery.Member.State.{set_state_fields}
use artillery.Membership.{ArtilleryMemberList, has_member, get_member, mark_node_alive}
use artillery.Membership.Changes.NoPanic.{apply_state_changes_total}
use artillery.Membership.WellFormed.{IsWellFormed, IsPlatform}
use artillery.Membership.Revival.{
  mark_node_alive_lem, mark_node_alive-IsWellFormed, add_member-IsWellFormed,
}
use artillery.Epidemic.{
  Request, heartbeat, ack, ping, ack_host, payload, ArtilleryMessage, ArtilleryMemberEvent, joined,
  went_up, received, ArtilleryEpidemic, Env,
}
use artillery.Epidemic.Messages.{determine_member_event, ack_response}
use artillery.Epidemic.Handlers.{
  Step, is_consistent, enqueue, send_member_event, for_each, send_request,
}
use artillery.Epidemic.Inbound.{
  apply_changes, ensure_node_is_member, tell_waiting, went_alive, mark_alive, handle_request,
  accept_message, same_bytes, respond_to_message,
}

-- The member list of the node with the key `my` is well formed.
abbrev pub IsSafe : Uuid → ArtilleryEpidemic → Type 0
IsSafe my s = IsWellFormed my s.members.members

-- The receiver of the events that the node tells its user lives.
abbrev pub IsHeard : Env → Type 0
IsHeard env = env.listening ≡ true

-- Nothing that the node uses panics: the orders drawn at random are permutations, the user's `Cluster`
-- lives, and chrono has the date three seconds after any date.
pub record IsSupportive (env : Env) : Type 0 where
  pub platform : IsPlatform env.platform
  pub heard : IsHeard env
  pub adds : (d : DateTime) → env.add_date d (seconds 3) ≡ some (d + seconds 3)

-- A step that goes through, and after which the member list is well formed.
abbrev pub GoesThrough : Uuid → Option ArtilleryEpidemic → Type 0
GoesThrough my r = (s : ArtilleryEpidemic) × (r ≡ some s) × IsSafe my s

pub then_through :
    (my : Uuid) (m : Option ArtilleryEpidemic) (f : Step)
    → GoesThrough my m
    → ((s : ArtilleryEpidemic) → IsSafe my s → GoesThrough my (f s))
    → GoesThrough my (m >>= f)
then_through my m f (s, e, w) k = rw e (k s w)

pub for_each_through {ℓ κ} :
    {A : Type ℓ} (P : A → Type κ) (my : Uuid) (f : A → Step) (items : List A)
    (s : ArtilleryEpidemic)
    → ((a : A) (t : ArtilleryEpidemic) → P a → IsSafe my t → GoesThrough my (f a t))
    → All P items
    → IsSafe my s
    → GoesThrough my (for_each f items s)
unfolding for_each
for_each_through P my f [] s step all w = (s, refl, w)
for_each_through P my f (a ∷ items) s step all w =
    let (t, e, w') = step a s all.0 w in rw e (for_each_through P my f items t step all.1 w')

pub send_member_event_through :
    (my : Uuid) (env : Env) (event : ArtilleryMemberEvent) (s : ArtilleryEpidemic)
    → IsHeard env
    → is_consistent event ≡ true
    → IsSafe my s
    → GoesThrough my (send_member_event env event s)
unfolding send_member_event
send_member_event_through my env event s heard c w = rw (c, heard) (_, refl, w)

determined_is_consistent : (m : ArtilleryMember) → is_consistent (determine_member_event m) ≡ true
determined_is_consistent m = ground arith

pub All-true {ℓ} : {A : Type ℓ} (xs : List A) → All (λ _. Unit {0}) xs
All-true [] = tt
All-true (x ∷ xs) = (tt, All-true xs)

apply_changes_through :
    (my : Uuid) (env : Env) (cs : List ArtilleryStateChange) (from : SocketAddr)
    (s : ArtilleryEpidemic)
    → IsSupportive env
    → IsSafe my s
    → GoesThrough my (apply_changes env cs from s)
unfolding apply_changes
apply_changes_through my env cs from s p w =
    let (r, e, w') = apply_state_changes_total my env.platform cs from s.members p.platform w in
    rw e (
      then_through my _ _
        (for_each_through (λ _. Unit {0}) my (λ m. send_member_event env (joined m)) r.new_nodes _
          (λ m t _ v. send_member_event_through my env (joined m) t p.heard refl v)
          (All-true r.new_nodes) w')
        (λ t v.
          for_each_through (λ _. Unit {0}) my
            (λ m. send_member_event env (determine_member_event m)) r.changed_nodes t
            (λ m u _ x.
              send_member_event_through my env (determine_member_event m) u p.heard
                (determined_is_consistent m) x)
            (All-true r.changed_nodes) v))

ensure_node_is_member_through :
    (my : Uuid) (env : Env) (a : SocketAddr) (sender : Uuid) (s : ArtilleryEpidemic)
    → sender ≢ my
    → IsHeard env
    → IsSafe my s
    → GoesThrough my (ensure_node_is_member env a sender s)
unfolding ensure_node_is_member
ensure_node_is_member_through my env a sender s other heard w =
    elim (Bool-cases (has_member a s.members)) [
      | inl known ↦ rw known (s, refl, w)
      | inr new ↦ rw new (
          send_member_event_through my env (joined (new_member env.now sender a 0 alive)) _ heard
            refl
            (add_member-IsWellFormed my (new_member env.now sender a 0 alive) s.members.members
              (ground (arith, other)) w))
    ]

tell_waiting_through :
    (my : Uuid) (m : ArtilleryMember) (a : SocketAddr) (waiting : Option (List SocketAddr))
    (s : ArtilleryEpidemic)
    → IsSafe my s
    → GoesThrough my (tell_waiting m a waiting s)
tell_waiting_through my m a none s w = (s, refl, w)
tell_waiting_through my m a (some hosts) s w =
    then_through my _ _
      (for_each_through (λ _. Unit {0}) my (λ remote t. some (send_request (ack_host m) remote t))
        hosts s (λ remote t _ v. (send_request (ack_host m) remote t, refl, v)) (All-true hosts) w)
      (λ t v. (record t { wait_list = insert a [] t.wait_list }, refl, v))

went_alive_through :
    (my : Uuid) (env : Env) (a : SocketAddr) (o : Option ArtilleryMember) (s : ArtilleryEpidemic)
    → IsHeard env
    → ((m : ArtilleryMember) → o ≡ some m → m.member_state ≡ alive)
    → IsSafe my s
    → GoesThrough my (went_alive env a o s)
went_alive_through my env a none s heard ok w = (s, refl, w)
went_alive_through my env a (some m) s heard ok w =
    let fine : m.member_state ≡ alive = ok m refl in
    then_through my _ _ (tell_waiting_through my m a (lookup a s.wait_list) s w) (λ t v.
      send_member_event_through my env (went_up m) (enqueue (m ∷ []) t) heard (ground arith) v)

marked_is_alive :
    (env : Env) (a : SocketAddr) (l : ArtilleryMemberList) (m : ArtilleryMember)
    → (mark_node_alive env.now a l).0 ≡ some m
    → m.member_state ≡ alive
marked_is_alive env a l m e = elim (mark_node_alive_lem env.now a l) [
  | inl (nothing, _, _) ↦ absurd (cc)
  | inr (pre, n, post, _, _, _, found, _) ↦
      let q : set_state env.now alive n ≡ m = ground arith in
      sym (ap (λ x. x.member_state) q) ∙ (set_state_fields env.now alive n).0
]

mark_alive_through :
    (my : Uuid) (env : Env) (a : SocketAddr) (s : ArtilleryEpidemic)
    → IsHeard env
    → IsSafe my s
    → GoesThrough my (mark_alive env a s)
unfolding mark_alive
mark_alive_through my env a s heard w =
    went_alive_through my env a (mark_node_alive env.now a s.members).0 _ heard
      (marked_is_alive env a s.members) (mark_node_alive-IsWellFormed env.now a my s.members w)

-- An `AckHost` names a host; one without a host panics the node that takes it.
abbrev pub IsAnswerable : Request → Type 0
IsAnswerable (ack_host m) = is_current m ≡ false
IsAnswerable _ = Unit

handle_request_through :
    (my : Uuid) (env : Env) (a : SocketAddr) (request : Request) (s : ArtilleryEpidemic)
    → IsAnswerable request
    → IsHeard env
    → IsSafe my s
    → GoesThrough my (handle_request env a request s)
unfolding ack_response
handle_request_through my env a heartbeat s h heard w = (_, refl, w)
handle_request_through my env a ack s h heard w =
    mark_alive_through my env a (ack_response a s) heard w
handle_request_through my env a (ping dest) s h heard w = (_, refl, w)
handle_request_through my env a (ack_host m) s h heard w = elim (Option-cases m.remote_host) [
  | inl absent ↦ absurd (ground arith)
  | inr (host, there) ↦ rw there (mark_alive_through my env host (ack_response host s) heard w)
]
handle_request_through my env a (payload id msg) s h heard w =
    elim (Option-cases (get_member id s.members)) [
      | inl absent ↦ rw absent (s, refl, w)
      | inr (m, there) ↦ rw there (send_member_event_through my env (received m msg) s heard refl w)
    ]

-- A node whose member list is well formed takes any message without a panic, and the list is well
-- formed afterwards, provided that the sender does not go by the node's own key, that an `AckHost`
-- names a member with a host, that the receiver of the node's events lives, and that chrono has the
-- date three seconds after any date. What the message reports is arbitrary, and so is its cluster key.
pub respond_to_message_through :
    (my : Uuid) (env : Env) (a : SocketAddr) (m : ArtilleryMessage) (s : ArtilleryEpidemic)
    → IsSupportive env
    → m.sender ≢ my
    → IsAnswerable m.request
    → IsSafe my s
    → GoesThrough my (respond_to_message env a m s)
unfolding respond_to_message
respond_to_message_through my env a m s p other fine w =
    elim (Bool-cases (same_bytes m.cluster_key s.config.cluster_key)) [
      | inl known ↦
          rw (known, accept_message)
            (then_through my _ _ (apply_changes_through my env m.state_changes a s p w) (λ t v.
              then_through my _ _
                (ensure_node_is_member_through my env a m.sender _ other p.heard v)
                (λ u x. handle_request_through my env a m.request u fine p.heard x)))
      | inr strange ↦ rw strange (s, refl, w)
    ]
