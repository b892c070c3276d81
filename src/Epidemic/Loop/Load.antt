-- ===== src/Epidemic/Loop/Load.antt =====
-- artillery-core/src/epidemic/state.rs, `event_loop`: how much work the node's own requests can still
-- make. Each request is a unit, and so is each address that waits for a member. A member that is
-- alive may yet become suspect, upon which `c` others are asked about it.
use mathlib.Core.Option.{some-injective}
use artillery.Base.{
  ℕ, zero, suc, ◌+◌, ◌≤◌, ◌≡◌, refl, ap, ◌∙◌, inl, inr, not, ◌&&◌, Option, none, some, List, [],
  ◌∷◌, ◌++◌, arith, Bool-cases, length, take, if◌then◌else◌, >>=-eq-some,
}
use mathlib.Core.List.{Permᴰ}
use artillery.Base.Dict.{lookup, insert, nat_eq}
use artillery.Member.{
  Uuid, SocketAddr, DateTime, AddDate, ArtilleryMember, alive, suspect, down, left, same_state,
  set_state, reincarnate,
}
use artillery.Member.State.{set_state_fields}
use artillery.Membership.{
  MemberMap, collect, update_myself, leaving, judge, TimedOut, time_out_one, time_out_loop,
  mark_loop, has_host, keep, suspected, went_down, Verdict,
}
use artillery.Membership.Timeouts.{judge-Becomes, Becomes}
use artillery.Membership.Changes.{values}
use artillery.Epidemic.{ArtilleryClusterRequest, respond, ArtilleryEpidemic}

-- `c` for each element.
abbrev pub each {ℓ} : {A : Type ℓ} → ℕ → List A → ℕ
each c [] = 0
each c (x ∷ xs) = c + each c xs

abbrev pub vigor : ℕ → ArtilleryMember → ℕ
vigor c m = if same_state m.member_state alive then c else 0

abbrev pub vigor_of : ℕ → List ArtilleryMember → ℕ
vigor_of c [] = 0
vigor_of c (m ∷ ms) = vigor c m + vigor_of c ms

-- What a request may add to the load: a message may bring a member for each change in it, its sender
-- and one that answers, and asks for at most two requests.
abbrev pub gain : ℕ → ArtilleryClusterRequest → ℕ
gain c (respond src_addr m) = 2 + c + c + each c m.state_changes
gain c _ = 0

abbrev pub weights : ℕ → List ArtilleryClusterRequest → ℕ
weights c [] = 0
weights c (r ∷ rs) = 1 + gain c r + weights c rs

abbrev pub waiters : List (SocketAddr × List SocketAddr) → ℕ
waiters [] = 0
waiters ((a, hosts) ∷ rest) = length hosts + waiters rest

abbrev pub load : ℕ → ArtilleryEpidemic → ℕ
load c s = weights c s.requests + vigor_of c s.members.members + waiters s.wait_list

pub vigor_le : (c : ℕ) (m : ArtilleryMember) → vigor c m ≤ c
vigor_le c m = ground arith

pub weights-append :
    (c : ℕ) (rs qs : List ArtilleryClusterRequest)
    → weights c (rs ++ qs) ≡ weights c rs + weights c qs
weights-append c [] qs = omega arith
weights-append c (r ∷ rs) qs = omega (arith, weights-append c rs qs)

pub vigor_of-append :
    (c : ℕ) (ms ns : List ArtilleryMember) → vigor_of c (ms ++ ns) ≡ vigor_of c ms + vigor_of c ns
vigor_of-append c [] ns = omega arith
vigor_of-append c (m ∷ ms) ns = omega (arith, vigor_of-append c ms ns)

pub vigor_of-perm :
    (c : ℕ) {ms ns : List ArtilleryMember} → Permᴰ ms ns → vigor_of c ms ≡ vigor_of c ns
vigor_of-perm c Permᴰ.nil = refl
vigor_of-perm c (Permᴰ.cons e p) = omega (arith, ap (vigor c) e, vigor_of-perm c p)
vigor_of-perm c (Permᴰ.swap e f) = omega (arith, ap (vigor c) e, ap (vigor c) f)
vigor_of-perm c (Permᴰ.trans p q) = vigor_of-perm c p ∙ vigor_of-perm c q

pub vigor_of-insert :
    (c : ℕ) (key : Uuid) (m : ArtilleryMember) (known : MemberMap)
    → vigor_of c (values (insert key m known)) ≤ vigor c m + vigor_of c (values known)
unfolding insert
vigor_of-insert c key m [] = omega arith
vigor_of-insert c key m ((k, n) ∷ known) = ground (arith, vigor_of-insert c key m known)

pub vigor_of-collect :
    (c : ℕ) (known : MemberMap) (ms : List ArtilleryMember)
    → vigor_of c (values (collect known ms)) ≤ vigor_of c (values known) + vigor_of c ms
unfolding collect
vigor_of-collect c known [] = omega arith
vigor_of-collect c known (m ∷ ms) =
    omega (
      arith,
      vigor_of-insert c m.host_key m known,
      vigor_of-collect c (insert m.host_key m known) ms,
    )

pub vigor_of-update_myself :
    (c : ℕ) (now : DateTime) (ms : List ArtilleryMember)
    → vigor_of c (update_myself (leaving now) ms) ≤ vigor_of c ms
unfolding update_myself reincarnate
vigor_of-update_myself c now [] = omega arith
vigor_of-update_myself c now (m ∷ ms) =
    let gone = (set_state_fields now left m).0 in
    ground (arith, vigor_of-update_myself c now ms, gone)

-- Each member that becomes suspect was alive.
time_out_one-vigor_of :
    (c : ℕ) (now : DateTime) (m : ArtilleryMember) (v : Verdict) (r : TimedOut)
    → Becomes m v
    → vigor_of c (time_out_one now v m r).members + each c (time_out_one now v m r).suspect_members
      ≤ vigor c m + vigor_of c r.members + each c r.suspect_members
unfolding time_out_one
time_out_one-vigor_of c now m keep r g = omega arith
time_out_one-vigor_of c now m suspected r g =
    let became = (set_state_fields now suspect m).0 in ground arith
time_out_one-vigor_of c now m went_down r g =
    let became = (set_state_fields now down m).0 in ground arith

pub time_out_loop-vigor_of :
    (c : ℕ) (add_date : AddDate) (now : DateTime) (hosts : List SocketAddr)
    (ms : List ArtilleryMember) (r : TimedOut)
    → time_out_loop add_date now hosts ms ≡ some r
    → vigor_of c r.members + each c r.suspect_members ≤ vigor_of c ms
unfolding time_out_loop
time_out_loop-vigor_of c add_date now hosts [] r e =
    let q : record { members = []; suspect_members = []; down_members = [] } ≡ r =
      some-injective _ _ e in
    rw (← q) (omega arith)
time_out_loop-vigor_of c add_date now hosts (m ∷ ms) r e =
    let (v, judged, rest) = >>=-eq-some (judge add_date now hosts m) _ e in
    let (t, looped, made) = >>=-eq-some (time_out_loop add_date now hosts ms) _ rest in
    let q : time_out_one now v m t ≡ r = some-injective _ _ made in
    rw (← q) (
      omega (
        arith,
        time_out_one-vigor_of c now m v t (judge-Becomes add_date now hosts m v judged),
        time_out_loop-vigor_of c add_date now hosts ms t looped,
      ))

pub vigor_of-mark_loop :
    (c : ℕ) (now : DateTime) (a : SocketAddr) (ms : List ArtilleryMember)
    → vigor_of c (mark_loop now a ms).1 ≤ c + vigor_of c ms
unfolding mark_loop
vigor_of-mark_loop c now a [] = omega arith
vigor_of-mark_loop c now a (m ∷ ms) =
    elim (Bool-cases (has_host a m && not (same_state m.member_state alive))) [
      | inl hit ↦ rw hit (omega (arith, vigor_le c (set_state now alive m)))
      | inr miss ↦ rw miss (omega (arith, vigor_of-mark_loop c now a ms))
    ]

abbrev pub count_waiting : Option (List SocketAddr) → ℕ
count_waiting none = 0
count_waiting (some hosts) = length hosts

pub waiters-insert :
    (a : SocketAddr) (hosts : List SocketAddr) (m : List (SocketAddr × List SocketAddr))
    → waiters (insert a hosts m) + count_waiting (lookup a m) ≡ waiters m + length hosts
unfolding insert lookup
waiters-insert a hosts [] = omega arith
waiters-insert a hosts ((b, others) ∷ m) = ground (arith, waiters-insert a hosts m)

pub length-take : {A : Type 0} (n : ℕ) (xs : List A) → length (take n xs) ≤ n
length-take zero xs = omega arith
length-take (suc n) [] = omega arith
length-take (suc n) (x ∷ xs) = omega (arith, length-take n xs)
