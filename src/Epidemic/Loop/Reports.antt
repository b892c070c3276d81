-- ===== src/Epidemic/Loop/Reports.antt =====
-- artillery-core/src/epidemic/state.rs, `apply_state_changes` and `ensure_node_is_member`: the load that
-- members bring of whom a node hears.
use artillery.Base.{
  ℕ, ◌+◌, ◌≤◌, ◌≡◌, ap, ◌∙◌, inl, inr, Option, none, some, List, [], ◌∷◌, arith, Bool-cases,
  Option-cases, subst, >>=-eq-some, ◌==◌,
}
use mathlib.Core.Option.{some-injective}
use artillery.Base.Dict.{lookup, nat_eq}
use artillery.Member.{
  Uuid, SocketAddr, ArtilleryMember, ArtilleryStateChange, alive, new_member, same_state,
  most_uptodate_member_data, member_by_changing_host,
}
use artillery.Membership.{
  ArtilleryMemberList, to_map, find_myself, reincarnate_self, has_member, add_member,
}
use artillery.Membership.WellFormed.{IsPlatform}
use artillery.Membership.Changes.{
  Applying, values, or_else, unwrap_or, apply_occupied, apply_vacant, apply_to_myself, apply_one,
  apply_loop, start, apply_state_changes, Applied,
}
use artillery.Epidemic.{joined, ArtilleryEpidemic, Env}
use artillery.Epidemic.Messages.{determine_member_event}
use artillery.Epidemic.Handlers.{enqueue}
use artillery.Epidemic.Inbound.{apply_changes, ensure_node_is_member}
use artillery.Epidemic.Loop.Load.{
  each, vigor_of, vigor_of-append, vigor_le, vigor_of-perm, vigor_of-insert, vigor_of-collect,
}
use artillery.Epidemic.Loop.Steps.{
  Fits, Leaves, Leaves-then, send_member_event-Leaves, all_events-Leaves,
}

-- A round of the loop over the reports that does not panic leaves a map of so much vigor.
abbrev Within : ℕ → ℕ → Option Applying → Type 0
Within c n none = Unit
Within c n (some s) = vigor_of c (values s.current_members) ≤ n

Within-mono : (c n k : ℕ) (r : Option Applying) → n ≤ k → Within c n r → Within c k r
Within-mono c n k none le h = tt
Within-mono c n k (some s) le h = omega (arith, le, h)

apply_occupied-Within :
    (c n : ℕ) (d known : ArtilleryMember) (s : Applying)
    → vigor_of c (values s.current_members) ≤ n
    → Within c (c + n) (apply_occupied d known s)
unfolding apply_occupied
apply_occupied-Within c n d known s low =
    let winner = most_uptodate_member_data d known in
    elim (Option-cases (or_else winner.remote_host known.remote_host)) [
      | inl nowhere ↦ rw nowhere tt
      | inr (host, found) ↦
          rw found (elim (Bool-cases (same_state winner.member_state known.member_state)) [
            | inl same ↦ rw same (omega (arith, low))
            | inr other ↦ rw other (
                omega (
                  arith,
                  low,
                  vigor_le c (member_by_changing_host winner host),
                  vigor_of-insert c d.host_key (member_by_changing_host winner host)
                      s.current_members,
                ))
          ])
    ]

apply_one-Within :
    (c n : ℕ) (my : Uuid) (from : SocketAddr) (d : ArtilleryMember) (s : Applying)
    → vigor_of c (values s.current_members) ≤ n
    → Within c (c + n) (apply_one my from d s)
unfolding apply_one apply_to_myself apply_vacant
apply_one-Within c n my from d s low = elim (Bool-cases (d.host_key == my)) [
  | inl me ↦ rw me (elim (Bool-cases (same_state d.member_state alive)) [
    | inl fine ↦ rw fine (omega (arith, low))
    | inr accused ↦ rw accused (elim (Option-cases (reincarnate_self s.own)) [
      | inl nobody ↦ rw nobody tt
      | inr (r, found) ↦ rw found (omega (arith, low))
    ])
  ])
  | inr other ↦ rw other (elim (Option-cases (lookup d.host_key s.current_members)) [
    | inl vacant ↦
        let m = member_by_changing_host d (unwrap_or d.remote_host from) in
        rw vacant
          (omega (arith, low, vigor_le c m, vigor_of-insert c d.host_key m s.current_members))
    | inr (known, occupied) ↦ rw occupied (apply_occupied-Within c n d known s low)
  ])
]

apply_loop-Within :
    (c n : ℕ) (my : Uuid) (from : SocketAddr) (cs : List ArtilleryStateChange) (s : Applying)
    → vigor_of c (values s.current_members) ≤ n
    → Within c (n + each c cs) (apply_loop my from cs s)
unfolding apply_loop
apply_loop-Within c n my from [] s low = omega (arith, low)
apply_loop-Within c n my from (d ∷ cs) s low = elim (Option-cases (apply_one my from d.member s)) [
  | inl panics ↦ rw panics tt
  | inr (t, goes) ↦
      let more : vigor_of c (values t.current_members) ≤ c + n =
        subst (Within c (c + n)) goes (apply_one-Within c n my from d.member s low) in
      rw goes (
        Within-mono c (c + n + each c cs) (n + (c + each c cs)) (apply_loop my from cs t)
          (omega arith) (apply_loop-Within c (c + n) my from cs t more))
]

apply_state_changes-vigor_of :
    (c : ℕ) (env : Env) (cs : List ArtilleryStateChange) (from : SocketAddr)
    (l : ArtilleryMemberList) (r : Applied)
    → IsPlatform env.platform
    → apply_state_changes env.platform cs from l ≡ some r
    → vigor_of c r.list.members ≤ vigor_of c l.members + each c cs
unfolding apply_state_changes to_map
apply_state_changes-vigor_of c env cs from l r p e =
    let (me, _, rest) = >>=-eq-some (find_myself l.members) _ e in
    let (s, ends, made) = >>=-eq-some (apply_loop me.host_key from cs (start l)) _ rest in
    let few : vigor_of c (values s.current_members) ≤ vigor_of c l.members + each c cs =
      subst (Within c (vigor_of c l.members + each c cs)) ends (
        apply_loop-Within c (vigor_of c l.members) me.host_key from cs (start l)
          (omega (arith, vigor_of-collect c [] l.members))) in
    let order : vigor_of c (values s.current_members) ≡ vigor_of c r.list.members =
      vigor_of-perm c (p.hash_perm (values s.current_members))
      ∙ ap (λ t. vigor_of c t.list.members) (some-injective _ _ made) in
    omega (arith, few, order)

pub apply_changes-Leaves :
    (c n : ℕ) (env : Env) (cs : List ArtilleryStateChange) (from : SocketAddr)
    (s : ArtilleryEpidemic)
    → IsPlatform env.platform
    → Fits c n s
    → Leaves c (n + each c cs) (apply_changes env cs from s)
unfolding apply_changes
apply_changes-Leaves c n env cs from s p (count, low) =
    elim (Option-cases (apply_state_changes env.platform cs from s.members)) [
      | inl panics ↦ rw panics tt
      | inr (r, goes) ↦
          let more = apply_state_changes-vigor_of c env cs from s.members r p goes in
          rw goes (
            Leaves-then c (n + each c cs) (n + each c cs) _ _
              (all_events-Leaves c (n + each c cs) env joined r.new_nodes _
                (count, omega (arith, low, more)))
              (all_events-Leaves c (n + each c cs) env determine_member_event r.changed_nodes))
    ]

pub ensure_node_is_member-Leaves :
    (c n : ℕ) (env : Env) (from : SocketAddr) (sender : Uuid) (s : ArtilleryEpidemic)
    → Fits c n s
    → Leaves c (n + c) (ensure_node_is_member env from sender s)
unfolding ensure_node_is_member
ensure_node_is_member-Leaves c n env from sender s (count, low) =
    elim (Bool-cases (has_member from s.members)) [
      | inl known ↦ rw known (count, omega (arith, low))
      | inr new ↦
          let m = new_member env.now sender from 0 alive in
          rw new (
            send_member_event-Leaves c (n + c) env (joined m)
              (enqueue (m ∷ []) (record s { members = add_member m s.members }))
              (
                count,
                omega (arith, low, vigor_of-append c s.members.members (m ∷ []), vigor_le c m),
              ))
    ]
