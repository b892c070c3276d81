-- ===== src/Epidemic/OwnRecord.antt =====
-- artillery-core/src/epidemic/membership.rs, `apply_state_changes`: what becomes of a second record
-- under the key of the node itself.
use artillery.Base.{
  ◌≡◌, ◌∙◌, refl, ap, inl, inr, false, none, some, List, [], ◌∷◌, ◌++◌, arith, Bool-cases, subst,
  All, any, ◌==◌, ==_iff, ==-refl,
}
use artillery.Base.Dict.{insert, nat_eq, All-insert}
use artillery.Member.{Uuid, SocketAddr, ArtilleryMember, ArtilleryStateChange, alive, is_current}
use artillery.Membership.{ArtilleryMemberList, Platform, MemberMap, collect, to_map, find_myself}
use artillery.Membership.WellFormed.{Agrees}
use artillery.Membership.Changes.{
  Applying, apply_to_myself, apply_one, apply_loop, values, start, apply_state_changes,
}

-- A report that this node is alive.
abbrev pub IsOwnNews : Uuid → ArtilleryStateChange → Type 0
IsOwnNews my c = (c.member.host_key ≡ my) × (c.member.member_state ≡ alive)

apply_loop-own :
    (my : Uuid) (from : SocketAddr) (cs : List ArtilleryStateChange) (s : Applying)
    → All (IsOwnNews my) cs
    → apply_loop my from cs s ≡ some s
unfolding apply_loop apply_one apply_to_myself
apply_loop-own my from [] s h = refl
apply_loop-own my from (c ∷ cs) s ((key, lives), h) =
    rw (key, ==-refl my, lives) (apply_loop-own my from cs s h)

-- News of the node itself only put the list through a hash map.
pub apply_state_changes-own :
    (my : Uuid) (p : Platform) (cs : List ArtilleryStateChange) (from : SocketAddr)
    (l : ArtilleryMemberList) (me : ArtilleryMember)
    → find_myself l.members ≡ some me
    → me.host_key ≡ my
    → All (IsOwnNews my) cs
    → apply_state_changes p cs from l
      ≡ some (record {
        new_nodes = [];
        changed_nodes = [];
        list = record l { members = p.hash_order (values (to_map l)) };
      })
unfolding apply_state_changes
apply_state_changes-own my p cs from l me found key h =
    rw (found, key) (rw (apply_loop-own my from cs (start l) h) refl)

-- The keys of a hash map are distinct.
abbrev Lacks : Uuid → MemberMap → Type 0
Lacks k = All (λ e. (e.0 == k) ≡ false)

abbrev IsUnique : MemberMap → Type 0
IsUnique [] = Unit
IsUnique (e ∷ m) = Lacks e.0 m × IsUnique m

insert-IsUnique :
    (k : Uuid) (v : ArtilleryMember) (m : MemberMap) → IsUnique m → IsUnique (insert k v m)
unfolding insert
insert-IsUnique k v [] h = (tt, tt)
insert-IsUnique k v ((j, w) ∷ m) (lacks, h) = elim (Bool-cases (j == k)) [
  | inl hit ↦ rw hit (subst (λ i. Lacks i m) ((==_iff j k).0 hit) lacks, h)
  | inr miss ↦ rw miss (
    All-insert (λ e. (e.0 == j) ≡ false) k v m lacks (ground (arith, miss)),
    insert-IsUnique k v m h,
  )
]

-- An entry stands under its member's key; it is this node's if and only if it has no host.
abbrev pub IsEntry : Uuid → Uuid × ArtilleryMember → Type 0
IsEntry my e = (e.1.host_key ≡ e.0) × Agrees my e.1

pub collect-IsUnique :
    (acc : MemberMap) (ms : List ArtilleryMember) → IsUnique acc → IsUnique (collect acc ms)
unfolding collect
collect-IsUnique acc [] h = h
collect-IsUnique acc (m ∷ ms) h =
    collect-IsUnique (insert m.host_key m acc) ms (insert-IsUnique m.host_key m acc h)

pub collect-All :
    (Q : Uuid × ArtilleryMember → Type 0) (acc : MemberMap) (ms : List ArtilleryMember)
    → All Q acc
    → All (λ m. Q (m.host_key, m)) ms
    → All Q (collect acc ms)
unfolding collect
collect-All Q acc [] h hs = h
collect-All Q acc (m ∷ ms) h hs =
    collect-All Q (insert m.host_key m acc) ms (All-insert Q m.host_key m acc h hs.0) hs.1

pub collect-append :
    (acc : MemberMap) (ms : List ArtilleryMember) (n : ArtilleryMember)
    → collect acc (ms ++ n ∷ []) ≡ insert n.host_key n (collect acc ms)
unfolding collect
collect-append acc [] n = refl
collect-append acc (m ∷ ms) n = collect-append (insert m.host_key m acc) ms n

none_current :
    (my : Uuid) (m : MemberMap)
    → Lacks my m
    → All (IsEntry my) m
    → any is_current (values m) ≡ false
none_current my [] lacks h = refl
none_current my ((j, w) ∷ m) (other, lacks) ((key, agrees), h) =
    let absent : is_current w ≡ false = agrees ∙ ap (λ k. k == my) key ∙ other in
    rw absent (none_current my m lacks h)

-- A second record under the node's own key takes the place of the first.
pub insert-forgets :
    (my : Uuid) (n : ArtilleryMember) (m : MemberMap)
    → is_current n ≡ false
    → IsUnique m
    → All (IsEntry my) m
    → any is_current (values (insert my n m)) ≡ false
unfolding insert
insert-forgets my n [] remote unique h = rw remote refl
insert-forgets my n ((j, w) ∷ m) remote (lacks, unique) ((key, agrees), h) =
    elim (Bool-cases (j == my)) [
      | inl hit ↦
          rw (hit, remote)
            (none_current my m (subst (λ i. Lacks i m) ((==_iff j my).0 hit) lacks) h)
      | inr miss ↦
          let absent : is_current w ≡ false = agrees ∙ ap (λ k. k == my) key ∙ miss in
          rw (miss, absent) (insert-forgets my n m remote unique h)
    ]

pub find_nobody : (ms : List ArtilleryMember) → any is_current ms ≡ false → find_myself ms ≡ none
unfolding find_myself
find_nobody [] h = refl
find_nobody (m ∷ ms) h = elim (Bool-cases (is_current m)) [
  | inl here ↦ absurd (ground arith)
  | inr other ↦ rw other (find_nobody ms (ground arith))
]

pub find_myself-append :
    (ms ns : List ArtilleryMember) (m : ArtilleryMember)
    → find_myself ms ≡ some m
    → find_myself (ms ++ ns) ≡ some m
unfolding find_myself
find_myself-append [] ns m found = absurd (cc found)
find_myself-append (n ∷ ms) ns m found = elim (Bool-cases (is_current n)) [
  | inl here ↦ rw here (ground arith)
  | inr other ↦ rw other (find_myself-append ms ns m (ground arith))
]
