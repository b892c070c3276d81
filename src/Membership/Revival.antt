-- ===== src/Membership/Revival.antt =====
-- artillery-core/src/epidemic/membership.rs, `mark_node_alive`: which member an answer revives; and
-- the form of the list after this and after a time-out.
use artillery.Base.{
  ◌≡◌, refl, ap, ◌∙◌, ◌⊎◌, inl, inr, ◌≢◌, true, false, List, [], ◌∷◌, ◌++◌, Option, none, some,
  arith, All, any, any-append, All-append, Bool-cases, Option-cases, ◌&&◌, not,
}
use artillery.Member.{
  Uuid, SocketAddr, DateTime, alive, ArtilleryMember, is_current, set_state, same_state,
}
use artillery.Member.State.{set_state_fields}
use artillery.Membership.{ArtilleryMemberList, mark_loop, mark_node_alive, has_host}
use artillery.Membership.WellFormed.{IsWellFormed, Agrees}
use artillery.Membership.Timeouts.{Zip, Ages}

-- A member that an answer from `a` does not revive.
abbrev pub Stays : SocketAddr → ArtilleryMember → Type 0
Stays a m = (has_host a m && not (same_state m.member_state alive)) ≡ false

abbrev pub Revives : SocketAddr → ArtilleryMember → Type 0
Revives a m = (m.remote_host ≡ some a) × (m.member_state ≢ alive)

Revives-of :
    (a : SocketAddr) (m : ArtilleryMember)
    → (has_host a m && not (same_state m.member_state alive)) ≡ true
    → Revives a m
Revives-of a m h = elim (Option-cases m.remote_host) [
  | inl absent ↦ absurd (ground arith)
  | inr (b, there) ↦ (there ∙ ap some (ground arith), λ e. ground arith)
]

-- What `mark_loop` returns: nothing and the same list, or the first member that it can revive.
abbrev pub Marked :
    DateTime
    → SocketAddr
    → List ArtilleryMember
    → Option ArtilleryMember
    → List ArtilleryMember
    → Type 0
Marked now a ms r ns =
    ((r ≡ none) × (ns ≡ ms) × All (Stays a) ms)
    ⊎ ((pre : List ArtilleryMember) × (m : ArtilleryMember) × (post : List ArtilleryMember) × (ms
          ≡ pre ++ m ∷ post)
        × All (Stays a) pre
        × Revives a m
        × (r ≡ some (set_state now alive m))
        × (ns ≡ pre ++ set_state now alive m ∷ post))

mark_loop-Marked :
    (now : DateTime) (a : SocketAddr) (ms : List ArtilleryMember)
    → Marked now a ms (mark_loop now a ms).0 (mark_loop now a ms).1
unfolding mark_loop
mark_loop-Marked now a [] = inl (refl, refl, tt)
mark_loop-Marked now a (m ∷ ms) =
    elim (Bool-cases (has_host a m && not (same_state m.member_state alive))) [
      | inl hit ↦ rw hit (inr ([], m, ms, refl, tt, Revives-of a m hit, refl, refl))
      | inr miss ↦ rw miss (elim (mark_loop-Marked now a ms) [
        | inl (r, e, all) ↦ inl (r, ap (λ t. m ∷ t) e, (refl, all))
        | inr (pre, n, post, e, all, hit, r, e') ↦
            inr (m ∷ pre, n, post, ap (λ t. m ∷ t) e, (miss, all), hit, r, ap (λ t. m ∷ t) e')
      ])
    ]

-- An answer from a host revives the first member with that host that is not alive: it alone is set
-- to alive, and it is what the call returns. Where there is no such member, nothing is returned and
-- the list is left as it is.
pub mark_node_alive_lem :
    (now : DateTime) (a : SocketAddr) (l : ArtilleryMemberList)
    → Marked now a l.members (mark_node_alive now a l).0 (mark_node_alive now a l).1.members
unfolding mark_node_alive
mark_node_alive_lem now a l = mark_loop-Marked now a l.members

pub Zip-IsWellFormed :
    (my : Uuid) (R : ArtilleryMember → ArtilleryMember → Type 0)
    → ((m n : ArtilleryMember)
        → R m n
        → (n.host_key ≡ m.host_key) × (n.remote_host ≡ m.remote_host))
    → (ms ns : List ArtilleryMember) → Zip R ms ns
    → All (Agrees my) ms
    → All (Agrees my) ns × (any is_current ns ≡ any is_current ms)
Zip-IsWellFormed my R same [] [] z h = (tt, refl)
Zip-IsWellFormed my R same [] (n ∷ ns) z h = absurd z
Zip-IsWellFormed my R same (m ∷ ms) [] z h = absurd z
Zip-IsWellFormed my R same (m ∷ ms) (n ∷ ns) z h =
    let (key, host) = same m n z.0 in
    let rest = Zip-IsWellFormed my R same ms ns z.1 h.1 in
    ((rw (host, key) h.0, rest.0), rw (host, rest.1))

Ages-identity :
    (now : DateTime) (expired_hosts : List SocketAddr) (m n : ArtilleryMember)
    → Ages now expired_hosts m n
    → (n.host_key ≡ m.host_key) × (n.remote_host ≡ m.remote_host)
Ages-identity now expired_hosts m n (inl e) = (ap (λ x. x.host_key) e, ap (λ x. x.remote_host) e)
Ages-identity now expired_hosts m n (inr (_, same, _, _)) = (same.0, same.1)

pub Ages-IsWellFormed :
    (now : DateTime) (expired_hosts : List SocketAddr) (my : Uuid) (ms ns : List ArtilleryMember)
    → Zip (Ages now expired_hosts) ms ns
    → IsWellFormed my ms
    → IsWellFormed my ns
Ages-IsWellFormed now expired_hosts my ms ns zip w =
    let (agree, same) =
      Zip-IsWellFormed my (Ages now expired_hosts) (Ages-identity now expired_hosts) ms ns zip
        w.agree in
    record { agree = agree; present = same ∙ w.present }

mark_loop-keeps :
    (now : DateTime) (a : SocketAddr) (my : Uuid) (ms : List ArtilleryMember)
    → All (Agrees my) ms
    → All (Agrees my) (mark_loop now a ms).1
      × (any is_current (mark_loop now a ms).1 ≡ any is_current ms)
unfolding mark_loop
mark_loop-keeps now a my [] h = (tt, refl)
mark_loop-keeps now a my (m ∷ ms) h =
    let (_, key, host, _) = set_state_fields now alive m in
    let rest = mark_loop-keeps now a my ms h.1 in
    elim (Bool-cases (has_host a m && not (same_state m.member_state alive))) [
      | inl hit ↦ rw hit ((rw (host, key) h.0, h.1), rw host)
      | inr miss ↦ rw miss ((h.0, rest.0), rw (rest.1))
    ]

pub mark_node_alive-IsWellFormed :
    (now : DateTime) (a : SocketAddr) (my : Uuid) (l : ArtilleryMemberList)
    → IsWellFormed my l.members
    → IsWellFormed my (mark_node_alive now a l).1.members
unfolding mark_node_alive
mark_node_alive-IsWellFormed now a my l w =
    let (agree, same) = mark_loop-keeps now a my l.members w.agree in
    record { agree = agree; present = same ∙ w.present }

-- A member with a host and a key of its own joins.
pub add_member-IsWellFormed :
    (my : Uuid) (m : ArtilleryMember) (ms : List ArtilleryMember)
    → Agrees my m
    → IsWellFormed my ms
    → IsWellFormed my (ms ++ m ∷ [])
add_member-IsWellFormed my m ms a w = record {
  agree = All-append (Agrees my) ms (m ∷ []) w.agree (a, tt);
  present = ground (arith, any-append is_current ms (m ∷ []), w.present);
}
