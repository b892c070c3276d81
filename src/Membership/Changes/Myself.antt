-- ===== src/Membership/Changes/Myself.antt =====
-- artillery-core/src/epidemic/membership.rs, `apply_state_changes`: what becomes of this node's own
-- record when others report on it.
use artillery.Base.{
  ◌≡◌, inl, inr, ◌∙◌, sym, ap, true, false, List, [], ◌∷◌, some, arith, All, All-perm, ◌==◌, ==_iff,
  Bool-cases, Option-cases, >>=-eq-some,
}
use artillery.Base.Dict.{lookup, insert, nat_eq, All-insert}
use artillery.Member.{
  Uuid, SocketAddr, alive, ArtilleryMember, ArtilleryStateChange, is_current, same_state,
  reincarnate, most_uptodate_member_data, member_by_changing_host,
}
use artillery.Membership.{
  ArtilleryMemberList, Platform, MemberMap, collect, to_map, find_myself, reincarnate_self,
}
use artillery.Membership.Changes.{
  Applying, or_else, record_change, apply_occupied, apply_vacant, apply_to_myself, apply_one,
  apply_loop, values, start, Applied, apply_state_changes,
}
use artillery.Membership.Changes.NoPanic.{apply_state_changes_total}
use artillery.Membership.WellFormed.{IsWellFormed, IsPlatform, find_myself_total}

-- Of the records without a host, which are this node's, all are `me`.
abbrev pub OnlyMe : ArtilleryMember → ArtilleryMember → Type 0
OnlyMe me m = is_current m ≡ true → m ≡ me

abbrev OnlyMeEntry : ArtilleryMember → Uuid × ArtilleryMember → Type 0
OnlyMeEntry me e = OnlyMe me e.1

apply_occupied-OnlyMe :
    (me d known : ArtilleryMember) (s s' : Applying)
    → All (OnlyMeEntry me) s.current_members
    → apply_occupied d known s ≡ some s'
    → All (OnlyMeEntry me) s'.current_members
unfolding apply_occupied
apply_occupied-OnlyMe me d known s s' a e =
    let winner = most_uptodate_member_data d known in
    let (host, _, f) = >>=-eq-some (or_else winner.remote_host known.remote_host) _ e in
    let new = member_by_changing_host winner host in
    elim (Bool-cases (same_state winner.member_state known.member_state)) [
      | inl same ↦ let q : s ≡ s' = ground arith in rw (← q) a
      | inr other ↦
          let q : record_change d.host_key new s ≡ s' = ground arith in
          rw (← q) (All-insert (OnlyMeEntry me) d.host_key new s.current_members a (λ h. cc h))
    ]

apply_vacant-OnlyMe :
    (me : ArtilleryMember) (from : SocketAddr) (d : ArtilleryMember) (s : Applying)
    → All (OnlyMeEntry me) s.current_members
    → All (OnlyMeEntry me) (apply_vacant d from s).current_members
unfolding apply_vacant
apply_vacant-OnlyMe me from d s a =
    All-insert (OnlyMeEntry me) d.host_key _ s.current_members a (λ h. cc h)

apply_to_myself-map :
    (d : ArtilleryMember) (s s' : Applying)
    → apply_to_myself d s ≡ some s'
    → s'.current_members ≡ s.current_members
unfolding apply_to_myself
apply_to_myself-map d s s' e = ground (arith, e)

apply_one-OnlyMe :
    (me : ArtilleryMember) (my from : Uuid) (d : ArtilleryMember) (s s' : Applying)
    → All (OnlyMeEntry me) s.current_members
    → apply_one my from d s ≡ some s'
    → All (OnlyMeEntry me) s'.current_members
unfolding apply_one
apply_one-OnlyMe me my from d s s' a e = elim (Bool-cases (d.host_key == my)) [
  | inl mine ↦ rw (apply_to_myself-map d s s' (rw mine at e)) a
  | inr other ↦ elim (Option-cases (lookup d.host_key s.current_members)) [
    | inl absent ↦
        let q : apply_vacant d from s ≡ s' = ground arith in
        rw (← q) (apply_vacant-OnlyMe me from d s a)
    | inr (known, there) ↦ apply_occupied-OnlyMe me d known s s' a (rw there at (rw other at e))
  ]
]

apply_loop-OnlyMe :
    (me : ArtilleryMember) (my from : Uuid) (cs : List ArtilleryStateChange) (s s' : Applying)
    → All (OnlyMeEntry me) s.current_members
    → apply_loop my from cs s ≡ some s'
    → All (OnlyMeEntry me) s'.current_members
unfolding apply_loop
apply_loop-OnlyMe me my from [] s s' a e = let q : s ≡ s' = ground arith in rw (← q) a
apply_loop-OnlyMe me my from (c ∷ cs) s s' a e =
    let (s1, e1, e2) = >>=-eq-some (apply_one my from c.member s) _ e in
    apply_loop-OnlyMe me my from cs s1 s' (apply_one-OnlyMe me my from c.member s s1 a e1) e2

collect-OnlyMe :
    (me : ArtilleryMember) (acc : MemberMap) (ms : List ArtilleryMember)
    → All (OnlyMeEntry me) acc
    → All (OnlyMe me) ms
    → All (OnlyMeEntry me) (collect acc ms)
unfolding collect
collect-OnlyMe me acc [] a h = a
collect-OnlyMe me acc (m ∷ ms) a h =
    collect-OnlyMe me (insert m.host_key m acc) ms
      (All-insert (OnlyMeEntry me) m.host_key m acc a h.0) h.1

values-OnlyMe :
    (me : ArtilleryMember) (m : MemberMap) → All (OnlyMeEntry me) m → All (OnlyMe me) (values m)
values-OnlyMe me [] h = tt
values-OnlyMe me (e ∷ m) h = (h.0, values-OnlyMe me m h.1)

find_myself-OnlyMe :
    (me m : ArtilleryMember) (ms : List ArtilleryMember)
    → All (OnlyMe me) ms
    → find_myself ms ≡ some m
    → m ≡ me
unfolding find_myself
find_myself-OnlyMe me m [] h e = cc
find_myself-OnlyMe me m (n ∷ ms) h e = elim (Bool-cases (is_current n)) [
  | inl own ↦ let q : n ≡ m = ground arith in sym q ∙ h.0 own
  | inr other ↦ find_myself-OnlyMe me m ms h.1 (rw other at e)
]

-- Taking in reports leaves this node's own record as it was, whatever they say of it: where the
-- list is well formed and holds one record `me` of this node, that record, with its old incarnation
-- number, is what `mut_myself` finds afterwards.
pub apply_state_changes-find_myself :
    (my : Uuid) (me : ArtilleryMember) (p : Platform) (cs : List ArtilleryStateChange)
    (from : SocketAddr) (l : ArtilleryMemberList)
    → IsPlatform p
    → IsWellFormed my l.members
    → All (OnlyMe me) l.members
    → (r : Applied) × (apply_state_changes p cs from l ≡ some r)
      × (find_myself r.list.members ≡ some me)
unfolding apply_state_changes to_map collect
apply_state_changes-find_myself my me p cs from l q w only =
    let (r, e, w') = apply_state_changes_total my p cs from l q w in
    let (m, found, _, _) = find_myself_total my r.list.members w' in
    let (m0, _, e1) = >>=-eq-some (find_myself l.members) _ e in
    let (s, looped, e2) = >>=-eq-some (apply_loop m0.host_key from cs (start l)) _ e1 in
    let a =
      apply_loop-OnlyMe me m0.host_key from cs (start l) s (collect-OnlyMe me [] l.members tt only)
        looped in
    let b =
      All-perm (OnlyMe me) (q.hash_perm (values s.current_members))
        (values-OnlyMe me s.current_members a) in
    let same : p.hash_order (values s.current_members) ≡ r.list.members = ground arith in
    (r, e, found ∙ ap some (find_myself-OnlyMe me m r.list.members (rw (← same) b) found))

accusation-changed_nodes :
    (p : Platform) (c : ArtilleryStateChange) (from : SocketAddr) (l : ArtilleryMemberList)
    (me : ArtilleryMember) (r : Applied)
    → find_myself l.members ≡ some me
    → (c.member.host_key == me.host_key) ≡ true
    → same_state c.member.member_state alive ≡ false
    → apply_state_changes p (c ∷ []) from l ≡ some r
    → r.changed_nodes ≡ reincarnate me ∷ []
unfolding apply_state_changes apply_loop apply_one apply_to_myself reincarnate_self
accusation-changed_nodes p c from l me r found key accused e = ground arith

-- The answer to an accusation is announced and then forgotten: on a single report that calls this
-- node anything but alive, the changed nodes are exactly this node's record with the next
-- incarnation number, yet the record in the list is the old one afterwards.
pub refutation_not_kept :
    (my : Uuid) (me : ArtilleryMember) (p : Platform) (c : ArtilleryStateChange) (from : SocketAddr)
    (l : ArtilleryMemberList)
    → IsPlatform p
    → IsWellFormed my l.members
    → All (OnlyMe me) l.members
    → c.member.host_key ≡ my
    → same_state c.member.member_state alive ≡ false
    → (r : Applied) × (apply_state_changes p (c ∷ []) from l ≡ some r)
      × (r.changed_nodes ≡ reincarnate me ∷ [])
      × (find_myself r.list.members ≡ some me)
refutation_not_kept my me p c from l q w only key accused =
    let (r, e, same) = apply_state_changes-find_myself my me p (c ∷ []) from l q w only in
    let (m, found, _, k) = find_myself_total my l.members w in
    let own : m ≡ me = find_myself-OnlyMe me m l.members only found in
    (
      r,
      e,
      accusation-changed_nodes p c from l me r (found ∙ ap some own)
          ((==_iff _ _).1 (key ∙ sym k ∙ ap (λ x. x.host_key) own)) accused e,
      same,
    )
