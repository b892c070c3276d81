-- ===== src/Membership/Changes/Farewell.antt =====
-- artillery-core/src/epidemic/membership.rs: what another node makes of a node that leaves.
use mathlib.Core.List.{Permᴰ}
use artillery.Base.{
  ◌≡◌, ◌≢◌, refl, sym, ap, ◌∙◌, inl, inr, true, false, [], ◌∷◌, none, some, arith, any, ◌==◌, ◌&&◌,
  Bool, Option-cases, any-perm, subst,
}
use artillery.Base.Dict.{lookup, insert, nat_eq, All-lookup}
use artillery.Member.{
  Uuid, SocketAddr, DateTime, ArtilleryMember, left, same_state, is_current,
  most_uptodate_member_data, member_by_changing_host, reincarnate,
}
use artillery.Member.State.{set_state_fields}
use artillery.Membership.{
  ArtilleryMemberList, Platform, MemberMap, to_map, update_myself, leave, leaving,
}
use artillery.Membership.WellFormed.{IsWellFormed, IsPlatform, find_myself_total}
use artillery.Membership.Changes.{
  Applying, or_else, apply_occupied, apply_one, apply_loop, record_change, values, start, Applied,
  apply_state_changes,
}
use artillery.Membership.Changes.NoPanic.{Entry, some_host, to_map-entries}

-- A report that a member has left wins over any other.
leaver_wins :
    (m known : ArtilleryMember) → m.member_state ≡ left → most_uptodate_member_data m known ≡ m
unfolding most_uptodate_member_data
leaver_wins m known gone = rw gone refl

apply_occupied-left :
    (m known : ArtilleryMember) (h : SocketAddr) (s : Applying)
    → m.member_state ≡ left
    → m.remote_host ≡ none
    → known.remote_host ≡ some h
    → same_state left known.member_state ≡ false
    → apply_occupied m known s ≡ some (record_change m.host_key (member_by_changing_host m h) s)
unfolding apply_occupied
apply_occupied-left m known h s gone nowhere there other =
    let differ : same_state m.member_state known.member_state ≡ false =
      ap (λ x. same_state x known.member_state) gone ∙ other in
    let host : or_else m.remote_host known.remote_host ≡ some h = rw nowhere there in
    rw (leaver_wins m known gone) (rw host (rw differ refl))

any-insert :
    (p : ArtilleryMember → Bool) (k : Uuid) (m : ArtilleryMember) (known : MemberMap)
    → p m ≡ true
    → any p (values (insert k m known)) ≡ true
unfolding insert
any-insert p k m [] h = ground (arith, h)
any-insert p k m ((j, n) ∷ known) h = ground (arith, h, any-insert p k m known h)

leaving_fields :
    (now : DateTime) (m : ArtilleryMember)
    → ((leaving now m).member_state ≡ left)
      × ((leaving now m).host_key ≡ m.host_key)
      × ((leaving now m).remote_host ≡ m.remote_host)
unfolding reincarnate
leaving_fields now m = let (state, key, host, _) = set_state_fields now left m in (state, key, host)

apply_loop-left :
    (my : Uuid) (from : SocketAddr) (m known : ArtilleryMember) (h : SocketAddr) (s : Applying)
    → m.host_key ≢ my
    → lookup m.host_key s.current_members ≡ some known
    → m.member_state ≡ left
    → m.remote_host ≡ none
    → known.remote_host ≡ some h
    → same_state left known.member_state ≡ false
    → apply_loop my from (record { member = m } ∷ []) s
      ≡ some (record_change m.host_key (member_by_changing_host m h) s)
unfolding apply_loop apply_one
apply_loop-left my from m known h s stranger there gone nowhere at other =
    let apart : (m.host_key == my) ≡ false = ground (arith, stranger) in
    rw apart (rw there (rw (apply_occupied-left m known h s gone nowhere at other) refl))

no_host : (m : ArtilleryMember) → is_current m ≡ true → m.remote_host ≡ none
no_host m e = elim (Option-cases m.remote_host) [
  | inl absent ↦ absent
  | inr (h, there) ↦ absurd (ground (arith, there, e))
]

-- A node that leaves is seen to leave: what `leave` announces of a node makes any other node that
-- knows the first one, and does not hold it to have left, put in the place of the first one's record
-- one that has left and keeps the host that the other node knows it by. The list is then, in some
-- order, what the map of the list before holds with that one entry written anew. The two have keys of
-- their own and well-formed member lists, and the order of the hash map is a permutation.
pub apply_state_changes-leave :
    (now : DateTime) (mine yours : Uuid) (own l : ArtilleryMemberList) (p : Platform)
    (from : SocketAddr) (known : ArtilleryMember)
    → IsPlatform p
    → IsWellFormed mine own.members
    → IsWellFormed yours l.members
    → mine ≢ yours
    → lookup mine (to_map l) ≡ some known
    → same_state left known.member_state ≡ false
    → (me : ArtilleryMember) × (own' : ArtilleryMemberList) × (r : Applied) × (m : ArtilleryMember)
      × (leave now own ≡ some (me, own'))
      × (apply_state_changes p (record { member = me } ∷ []) from l ≡ some r)
      × (r.new_nodes ≡ [])
      × (r.changed_nodes ≡ m ∷ [])
      × (m.host_key ≡ mine)
      × (m.member_state ≡ left)
      × (m.remote_host ≡ known.remote_host)
      × Permᴰ (values (insert mine m (to_map l))) r.list.members
      × (any (λ x. (x.host_key == mine) && same_state left x.member_state) r.list.members ≡ true)
unfolding leave apply_state_changes
apply_state_changes-leave now mine yours own l p from known platform w v apart found other =
    let (self, here, current, key) = find_myself_total mine own.members w in
    let (peer, there, _, key') = find_myself_total yours l.members v in
    let me = leaving now self in
    let (state, same_key, same_host) = leaving_fields now self in
    let entries = (to_map-entries yours l v).entries in
    let (its, agrees) = All-lookup (Entry yours) mine known (to_map l) entries found in
    let remote : is_current known ≡ false = agrees ∙ ground (arith, its, apart) in
    let (h, at) = some_host known remote in
    let nowhere : me.remote_host ≡ none = same_host ∙ no_host self current in
    let m = member_by_changing_host me h in
    let is_gone : ArtilleryMember → Bool =
      λ x. (x.host_key == mine) && same_state left x.member_state in
    let applied = record_change me.host_key m (start l) in
    let goes : apply_loop peer.host_key from (record { member = me } ∷ []) (start l)
        ≡ some applied =
      apply_loop-left peer.host_key from me known h (start l)
        (λ e. apart (sym key ∙ sym same_key ∙ e ∙ key'))
        (ap (λ k. lookup k (to_map l)) (same_key ∙ key) ∙ found) state nowhere at other in
    (
      me,
      record own { members = update_myself (leaving now) own.members },
      record {
        new_nodes = [];
        changed_nodes = m ∷ [];
        list = record l { members = p.hash_order (values applied.current_members) };
      },
      m,
      rw here refl,
      rw there (rw goes refl),
      refl,
      refl,
      same_key ∙ key,
      state,
      sym at,
      subst
          (λ k.
            Permᴰ (values (insert k m (to_map l))) (p.hash_order (values applied.current_members)))
          (same_key ∙ key) (platform.hash_perm (values applied.current_members)),
      sym (any-perm is_gone (platform.hash_perm (values applied.current_members)))
          ∙ any-insert is_gone me.host_key m (to_map l) (ground (arith, same_key, key, state)),
    )
