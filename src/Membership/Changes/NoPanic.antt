-- ===== src/Membership/Changes/NoPanic.antt =====
-- artillery-core/src/epidemic/membership.rs, `apply_state_changes`: panics, and the form of the
-- list afterwards.
use artillery.Base.{
  ◌≡◌, refl, sym, ◌∙◌, inl, inr, true, false, List, [], ◌∷◌, ◌++◌, Option, none, some, arith, any,
  All, ◌==◌, is_some, Bool-cases, Option-cases,
}
use artillery.Base.Dict.{lookup, insert, nat_eq, lookup-insert, All-lookup, All-insert}
use artillery.Member.{
  Uuid, SocketAddr, alive, ArtilleryMember, ArtilleryStateChange, same_state, is_current,
  most_uptodate_member_data, member_by_changing_host,
}
use artillery.Member.State.{most_uptodate_member_data_cases}
use artillery.Membership.{ArtilleryMemberList, Platform, MemberMap, collect, to_map}
use artillery.Membership.WellFormed.{
  Agrees, IsWellFormed, IsPlatform, perm-IsWellFormed, find_myself_total, reincarnate_self_total,
}
use artillery.Membership.Changes.{
  Applying, or_else, apply_occupied, apply_vacant, apply_to_myself, apply_one, apply_loop,
  record_change, values, start, Applied, apply_state_changes,
}

-- Every entry stands under its member's key, and this node's entry alone has no host.
abbrev pub Entry : Uuid → Uuid × ArtilleryMember → Type 0
Entry my e = (e.1.host_key ≡ e.0) × Agrees my e.1

pub record IsMap (my : Uuid) (m : MemberMap) : Type 0 where
  pub entries : All (Entry my) m
  pub me : is_some (lookup my m) ≡ true

insert-IsMap :
    (my k : Uuid) (v : ArtilleryMember) (m : MemberMap)
    → IsMap my m
    → Entry my (k, v)
    → IsMap my (insert k v m)
insert-IsMap my k v m i h = record {
  entries = All-insert (Entry my) k v m i.entries h;
  me = rw (lookup-insert k my v m) (ground (arith, i.me));
}

-- The two invariants of the loop: of the map, and of the list that it will replace.
record IsApplying (my : Uuid) (s : Applying) : Type 0 where
  map_ok : IsMap my s.current_members
  own_ok : IsWellFormed my s.own.members

apply_vacant-IsApplying :
    (my from : Uuid) (d : ArtilleryMember) (s : Applying)
    → IsApplying my s
    → (d.host_key == my) ≡ false
    → IsApplying my (apply_vacant d from s)
unfolding apply_vacant
apply_vacant-IsApplying my from d s i ne = record {
  map_ok = insert-IsMap my d.host_key _ s.current_members i.map_ok (refl, sym ne);
  own_ok = i.own_ok;
}

most_uptodate-host_key :
    (d known : ArtilleryMember)
    → known.host_key ≡ d.host_key
    → (most_uptodate_member_data d known).host_key ≡ d.host_key
most_uptodate-host_key d known e = ground (arith, most_uptodate_member_data_cases d known)

pub some_host :
    (m : ArtilleryMember) → is_current m ≡ false → (h : SocketAddr) × (m.remote_host ≡ some h)
some_host m e = elim (Option-cases m.remote_host) [
  | inl absent ↦ absurd (ground arith)
  | inr there ↦ there
]

pub or_else_total :
    (a b : Option SocketAddr) {h : SocketAddr}
    → b ≡ some h
    → (r : SocketAddr) × (or_else a b ≡ some r)
or_else_total none b {h} e = (h, e)
or_else_total (some a) b e = (a, refl)

apply_occupied_total :
    (my : Uuid) (d known : ArtilleryMember) (s : Applying)
    → IsApplying my s
    → (d.host_key == my) ≡ false
    → known.host_key ≡ d.host_key
    → is_current known ≡ false
    → (s' : Applying) × (apply_occupied d known s ≡ some s') × IsApplying my s'
unfolding apply_occupied
apply_occupied_total my d known s i ne key remote =
    let winner = most_uptodate_member_data d known in
    let (h, known_host) = some_host known remote in
    let (host, found) = or_else_total winner.remote_host known.remote_host known_host in
    elim (Bool-cases (same_state winner.member_state known.member_state)) [
      | inl same ↦ (s, rw found (rw same), i)
      | inr other ↦ (
        record_change d.host_key (member_by_changing_host winner host) s,
        rw found (rw other),
        record {
          map_ok =
              insert-IsMap my d.host_key (member_by_changing_host winner host) s.current_members
                i.map_ok
                (
                  most_uptodate-host_key d known key,
                  rw (most_uptodate-host_key d known key) (sym ne),
                );
          own_ok = i.own_ok;
        },
      )
    ]

apply_to_myself_total :
    (my : Uuid) (d : ArtilleryMember) (s : Applying)
    → IsApplying my s
    → (s' : Applying) × (apply_to_myself d s ≡ some s') × IsApplying my s'
unfolding apply_to_myself
apply_to_myself_total my d s i = elim (Bool-cases (same_state d.member_state alive)) [
  | inl fine ↦ (s, rw fine, i)
  | inr accused ↦
      let (m, own, e, w) = reincarnate_self_total my s.own i.own_ok in
      (
        record s { own = own; changed_nodes = s.changed_nodes ++ m ∷ [] },
        rw accused (rw e),
        record { map_ok = i.map_ok; own_ok = w },
      )
]

apply_one_total :
    (my from : Uuid) (d : ArtilleryMember) (s : Applying)
    → IsApplying my s
    → (s' : Applying) × (apply_one my from d s ≡ some s') × IsApplying my s'
unfolding apply_one
apply_one_total my from d s i = elim (Bool-cases (d.host_key == my)) [
  | inl me ↦ rw me (apply_to_myself_total my d s i)
  | inr other ↦ rw other (elim (Option-cases (lookup d.host_key s.current_members)) [
    | inl absent ↦
        rw absent (apply_vacant d from s, refl, apply_vacant-IsApplying my from d s i other)
    | inr (known, there) ↦
        let e = All-lookup (Entry my) d.host_key known s.current_members i.map_ok.entries there in
        rw there (apply_occupied_total my d known s i other e.0 (e.1 ∙ rw (e.0) other))
  ])
]

apply_loop_total :
    (my from : Uuid) (cs : List ArtilleryStateChange) (s : Applying)
    → IsApplying my s
    → (s' : Applying) × (apply_loop my from cs s ≡ some s') × IsApplying my s'
unfolding apply_loop
apply_loop_total my from [] s i = (s, refl, i)
apply_loop_total my from (c ∷ cs) s i =
    let (s1, e, i1) = apply_one_total my from c.member s i in
    rw e (apply_loop_total my from cs s1 i1)

collect-entries :
    (my : Uuid) (acc : MemberMap) (ms : List ArtilleryMember)
    → All (Entry my) acc
    → All (Agrees my) ms
    → All (Entry my) (collect acc ms)
unfolding collect
collect-entries my acc [] a h = a
collect-entries my acc (m ∷ ms) a h =
    collect-entries my (insert m.host_key m acc) ms
      (All-insert (Entry my) m.host_key m acc a (refl, h.0)) h.1

collect-keeps :
    (my : Uuid) (acc : MemberMap) (ms : List ArtilleryMember)
    → is_some (lookup my acc) ≡ true
    → is_some (lookup my (collect acc ms)) ≡ true
unfolding collect
collect-keeps my acc [] h = h
collect-keeps my acc (m ∷ ms) h =
    collect-keeps my (insert m.host_key m acc) ms
      (rw (lookup-insert m.host_key my m acc) (ground (arith, h)))

collect-finds :
    (my : Uuid) (acc : MemberMap) (ms : List ArtilleryMember)
    → IsWellFormed my ms
    → is_some (lookup my (collect acc ms)) ≡ true
unfolding collect
collect-finds my acc [] w = absurd (cc w.present)
collect-finds my acc (m ∷ ms) w = elim (Bool-cases (is_current m)) [
  | inl own ↦
      collect-keeps my (insert m.host_key m acc) ms
        (rw (lookup-insert m.host_key my m acc, sym w.agree.0 ∙ own))
  | inr other ↦
      collect-finds my (insert m.host_key m acc) ms
        (record { agree = w.agree.1; present = ground arith })
]

pub to_map-entries :
    (my : Uuid) (l : ArtilleryMemberList) → IsWellFormed my l.members → IsMap my (to_map l)
unfolding to_map
to_map-entries my l w = record {
  entries = collect-entries my [] l.members tt w.agree;
  me = collect-finds my [] l.members w;
}

values-Agrees : (my : Uuid) (m : MemberMap) → All (Entry my) m → All (Agrees my) (values m)
values-Agrees my [] h = tt
values-Agrees my (e ∷ m) h = (h.0.1, values-Agrees my m h.1)

values-present :
    (my : Uuid) (m : MemberMap)
    → All (Entry my) m
    → is_some (lookup my m) ≡ true
    → any is_current (values m) ≡ true
unfolding lookup
values-present my [] h f = cc
values-present my (e ∷ m) h f = elim (Bool-cases (e.0 == my)) [
  | inl own ↦ rw (h.0.1, h.0.0, own)
  | inr other ↦ let rest = values-present my m h.1 (rw other at f) in ground arith
]

-- On a node whose member list is well formed, taking in whatever another node reports does not panic,
-- and leaves the list well formed, provided that the order of the hash map is a permutation.
pub apply_state_changes_total :
    (my : Uuid) (p : Platform) (cs : List ArtilleryStateChange) (from : SocketAddr)
    (l : ArtilleryMemberList)
    → IsPlatform p
    → IsWellFormed my l.members
    → (r : Applied) × (apply_state_changes p cs from l ≡ some r) × IsWellFormed my r.list.members
unfolding apply_state_changes
apply_state_changes_total my p cs from l q w =
    let (m, found, _, key) = find_myself_total my l.members w in
    let (s, e, i) =
      apply_loop_total my from cs (start l)
        (record { map_ok = to_map-entries my l w; own_ok = w }) in
    (
      record {
        new_nodes = s.new_nodes;
        changed_nodes = s.changed_nodes;
        list = record s.own { members = p.hash_order (values s.current_members) };
      },
      rw (found) (rw (key) (rw e)),
      perm-IsWellFormed my (q.hash_perm (values s.current_members)) (record {
        agree = values-Agrees my s.current_members i.map_ok.entries;
        present = values-present my s.current_members i.map_ok.entries i.map_ok.me;
      }),
    )
