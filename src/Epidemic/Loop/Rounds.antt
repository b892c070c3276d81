-- ===== src/Epidemic/Loop/Rounds.antt =====
-- artillery-core/src/epidemic/state.rs, `event_loop`: the start of a round, and what a stray
-- datagram does.
use artillery.Base.{
  ℕ, zero, suc, ◌+◌, ◌%◌, ◌<◌, ◌≡◌, refl, ◌⊎◌, inl, inr, Bool, true, List, [], ◌∷◌, ◌++◌, Option,
  none, some, arith, All, length, get_elem?, retain, ◌==◌, Bool-cases, Option-cases,
}
use artillery.Member.{Uuid, SocketAddr, ArtilleryMember, is_remote}
use artillery.Membership.{
  ArtilleryMemberList, Platform, remote_members, pick_next, next_random_member,
}
use artillery.Membership.WellFormed.{IsWellFormed, IsPlatform, perm-IsWellFormed}
use artillery.Epidemic.{ArtilleryMessage, heartbeat, ArtilleryEpidemic, Env}
use artillery.Epidemic.Handlers.{send_request, ping_member, enqueue_seed_nodes, enqueue_random_ping}
use artillery.Epidemic.Safety.{IsSafe, GoesThrough, then_through, for_each_through, All-true}
use artillery.Epidemic.Loop.{tick, stopped, respond_to, receive_all}

retain-All {ℓ} : {A : Type ℓ} (p : A → Bool) (xs : List A) → All (λ x. p x ≡ true) (retain p xs)
retain-All p [] = tt
retain-All p (x ∷ xs) = elim (Bool-cases (p x)) [
  | inl holds ↦ rw holds (holds, retain-All p xs)
  | inr fails ↦ rw fails (retain-All p xs)
]

get_elem?-All {ℓ κ} :
    {A : Type ℓ} (P : A → Type κ) (xs : List A) (i : ℕ)
    → All P xs
    → i < length xs
    → (x : A) × (get_elem? xs i ≡ some x) × P x
get_elem?-All P [] i h lt = absurd (omega (arith, lt))
get_elem?-All P (x ∷ xs) zero h lt = (x, refl, h.0)
get_elem?-All P (x ∷ xs) (suc i) h lt = get_elem?-All P xs i h.1 (omega (arith, lt))

-- A choice that the caller can ping.
abbrev Choice :
    List ArtilleryMember → Option (Option ArtilleryMember × ArtilleryMemberList) → Type 0
Choice ms r =
    (chosen : Option ArtilleryMember) × (l' : ArtilleryMemberList) × (r ≡ some (chosen, l'))
    × (l'.members ≡ ms)
    × ((chosen ≡ none) ⊎ ((m : ArtilleryMember) × (chosen ≡ some m) × (is_remote m ≡ true)))

pick_next_total :
    (l : ArtilleryMemberList) (others : List ArtilleryMember)
    → All (λ m. is_remote m ≡ true) others
    → Choice l.members (pick_next l others)
pick_next_total l [] h = (none, l, refl, refl, inl refl)
pick_next_total l (o ∷ others) h =
    let next = (l.periodic_index + 1) % length (o ∷ others) in
    let (m, found, remote) =
      get_elem?-All (λ m. is_remote m ≡ true) (o ∷ others) next h (grind arith) in
    (some m, record l { periodic_index = next }, rw found refl, refl, inr (m, refl, remote))

next_random_member_total :
    (p : Platform) (my : Uuid) (l : ArtilleryMemberList)
    → IsPlatform p
    → IsWellFormed my l.members
    → (ms : List ArtilleryMember) × IsWellFormed my ms × Choice ms (next_random_member p l)
unfolding next_random_member
next_random_member_total p my l q w = elim (Bool-cases (l.periodic_index == 0)) [
  | inl first ↦ rw first (
    p.shuffle_members l.members,
    perm-IsWellFormed my (q.members_perm l.members) w,
    pick_next_total (record l { members = p.shuffle_members l.members })
        (remote_members (p.shuffle_members l.members))
        (retain-All is_remote (p.shuffle_members l.members)),
  )
  | inr later ↦
      rw later (
        l.members,
        w,
        pick_next_total l (remote_members l.members) (retain-All is_remote l.members),
      )
]

ping_member_through :
    (my : Uuid) (chosen : Option ArtilleryMember) (s : ArtilleryEpidemic)
    → (chosen ≡ none) ⊎ ((m : ArtilleryMember) × (chosen ≡ some m) × (is_remote m ≡ true))
    → IsSafe my s
    → GoesThrough my (ping_member chosen s)
ping_member_through my none s h w = (s, refl, w)
ping_member_through my (some m) s (inl nobody) w = absurd (cc nobody)
ping_member_through my (some m) s (inr (n, same, remote)) w = elim (Option-cases m.remote_host) [
  | inl absent ↦ absurd (ground arith)
  | inr (host, there) ↦ rw there (send_request heartbeat host s, refl, w)
]

enqueue_random_ping_through :
    (my : Uuid) (env : Env) (s : ArtilleryEpidemic)
    → IsPlatform env.platform
    → IsSafe my s
    → GoesThrough my (enqueue_random_ping env s)
unfolding enqueue_random_ping
enqueue_random_ping_through my env s p w =
    let (ms, w', (chosen, l', e, same, pingable)) =
      next_random_member_total env.platform my s.members p w in
    rw e (ping_member_through my chosen (record s { members = l' }) pingable (rw same w'))

-- When its ping interval is over, a node whose member list is well formed greets its seeds and
-- pings a member without a panic, and the list is well formed afterwards.
pub tick_through :
    (my : Uuid) (env : Env) (s : ArtilleryEpidemic)
    → IsPlatform env.platform
    → IsSafe my s
    → GoesThrough my (tick env s)
unfolding tick enqueue_seed_nodes
tick_through my env s p w =
    then_through my _ _
      (for_each_through (λ _. Unit {0}) my (λ seed t. some (send_request heartbeat seed t))
        s.seed_queue s (λ seed t _ v. (send_request heartbeat seed t, refl, v))
        (All-true s.seed_queue) w)
      (λ t v. enqueue_random_ping_through my env t p v)

-- One stray datagram stops a node: wherever a datagram that is no message stands among those that
-- wait, the event loop returns an error.
pub receive_all-stray :
    (decode : List ℕ → Option ArtilleryMessage) (before after : List (List ℕ × SocketAddr))
    (bytes : List ℕ) (src_addr : SocketAddr) (broken : Bool) (s : ArtilleryEpidemic)
    → decode bytes ≡ none
    → (t : ArtilleryEpidemic) × (receive_all decode (before ++ (bytes, src_addr) ∷ after) broken s
        ≡ stopped t)
unfolding receive_all
receive_all-stray decode [] after bytes src_addr broken s stray = (s, rw stray refl)
receive_all-stray decode ((b, a) ∷ before) after bytes src_addr broken s stray =
    elim (Option-cases (decode b)) [
      | inl also ↦ (s, rw also refl)
      | inr (m, read) ↦
          rw read
            (receive_all-stray decode before after bytes src_addr broken (respond_to a m s) stray)
    ]
