-- ===== src/Membership/WellFormed.antt =====
-- artillery-core/src/epidemic/membership.rs: the form of a member list between two calls, and
-- the calls that look for this node in it.
use mathlib.Core.List.{Permᴰ}
use artillery.Base.{
  ◌≡◌, refl, ap, sym, ◌∙◌, inl, inr, true, ◌||◌, List, [], ◌∷◌, some, arith, any, All, All-perm,
  any-perm, ◌==◌, ==_iff, Bool-cases,
}
use artillery.Base.Dict.{nat_eq}
use artillery.Member.{Uuid, SocketAddr, DateTime, left, ArtilleryMember, is_current, reincarnate}
use artillery.Member.State.{set_state_fields}
use artillery.Membership.{
  ArtilleryMemberList, Platform, find_myself, update_myself, reincarnate_self, leave, leaving,
}

-- The member that stands for this node is the one without a remote host, and it is in the list.
abbrev pub Agrees : Uuid → ArtilleryMember → Type 0
Agrees my m = is_current m ≡ (m.host_key == my)

pub record IsWellFormed (my : Uuid) (ms : List ArtilleryMember) : Type 0 where
  pub agree : All (Agrees my) ms
  pub present : any is_current ms ≡ true

-- A hash map may iterate in any order, and loses and invents no entry.
pub record IsPlatform (p : Platform) : Type 0 where
  pub members_perm : (ms : List ArtilleryMember) → Permᴰ ms (p.shuffle_members ms)
  pub hosts_perm : (hs : List SocketAddr) → Permᴰ hs (p.shuffle_hosts hs)
  pub hash_perm : (ms : List ArtilleryMember) → Permᴰ ms (p.hash_order ms)

pub perm-IsWellFormed :
    (my : Uuid) {ms ns : List ArtilleryMember}
    → Permᴰ ms ns
    → IsWellFormed my ms
    → IsWellFormed my ns
perm-IsWellFormed my q w = record {
  agree = All-perm (Agrees my) q w.agree;
  present = sym (any-perm is_current q) ∙ w.present;
}

-- The member found is this node's own.
pub find_myself_total :
    (my : Uuid) (ms : List ArtilleryMember)
    → IsWellFormed my ms
    → (m : ArtilleryMember) × (find_myself ms ≡ some m) × (is_current m ≡ true) × (m.host_key ≡ my)
unfolding find_myself
find_myself_total my [] w = absurd (cc w.present)
find_myself_total my (m ∷ ms) w = elim (Bool-cases (is_current m)) [
  | inl own ↦ (m, rw own refl, own, (==_iff _ _).0 (sym w.agree.0 ∙ own))
  | inr other ↦
      let (n, e, c, k) =
        find_myself_total my ms (record { agree = w.agree.1; present = ground arith }) in
      (n, rw other e, c, k)
]

-- An update that leaves key and host alone keeps the list well formed.
pub update_myself-IsWellFormed :
    (f : ArtilleryMember → ArtilleryMember)
    → ((m : ArtilleryMember) → (f m).host_key ≡ m.host_key)
    → ((m : ArtilleryMember) → (f m).remote_host ≡ m.remote_host)
    → (my : Uuid) (ms : List ArtilleryMember) → All (Agrees my) ms
    → All (Agrees my) (update_myself f ms)
      × (any is_current (update_myself f ms) ≡ any is_current ms)
unfolding update_myself
update_myself-IsWellFormed f key host my [] w = (tt, refl)
update_myself-IsWellFormed f key host my (m ∷ ms) w =
    let rest = update_myself-IsWellFormed f key host my ms w.1 in
    let here : Agrees my (f m) = rw (host m, key m) w.0 in
    let kept : is_current (f m) ≡ is_current m = rw (host m) in
    elim (Bool-cases (is_current m)) [
      | inl own ↦ rw own ((here, w.1), ap (λ b. b || any is_current ms) (kept ∙ own))
      | inr other ↦ rw other ((w.0, rest.0), rw (other, rest.1))
    ]

-- `leave` finds this node and keeps the list well formed.
pub leave_total :
    (now : DateTime) (my : Uuid) (l : ArtilleryMemberList)
    → IsWellFormed my l.members
    → (m : ArtilleryMember) × (l' : ArtilleryMemberList) × (leave now l ≡ some (m, l'))
      × IsWellFormed my l'.members
unfolding leave
leave_total now my l w =
    let (m, e, _, _) = find_myself_total my l.members w in
    let (agree, same) =
      update_myself-IsWellFormed (leaving now) (λ m. (set_state_fields now left m).1)
        (λ m. (set_state_fields now left m).2) my l.members w.agree in
    (
      leaving now m,
      record l { members = update_myself (leaving now) l.members },
      rw e,
      record { agree = agree; present = same ∙ w.present },
    )

pub reincarnate_self_total :
    (my : Uuid) (l : ArtilleryMemberList)
    → IsWellFormed my l.members
    → (m : ArtilleryMember) × (l' : ArtilleryMemberList) × (reincarnate_self l ≡ some (m, l'))
      × IsWellFormed my l'.members
unfolding reincarnate_self
reincarnate_self_total my l w =
    let (m, e, _, _) = find_myself_total my l.members w in
    let (agree, same) =
      update_myself-IsWellFormed reincarnate (λ m. refl) (λ m. refl) my l.members w.agree in
    (
      reincarnate m,
      record l { members = update_myself reincarnate l.members },
      rw e,
      record { agree = agree; present = same ∙ w.present },
    )
