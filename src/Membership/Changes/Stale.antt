-- ===== src/Membership/Changes/Stale.antt =====
-- artillery-core/src/epidemic/membership.rs, `apply_state_changes`: reports that leave the state of
-- a member as it is.
use artillery.Base.{◌≡◌, refl, inl, inr, true, false, List, ◌∷◌, some, ◌==◌}
use artillery.Base.Dict.{lookup, nat_eq}
use artillery.Member.{
  Uuid, SocketAddr, alive, ArtilleryMember, ArtilleryStateChange, same_state, is_current,
  most_uptodate_member_data,
}
use artillery.Member.State.{most_uptodate_member_data_cases}
use artillery.Membership.Changes.{Applying, apply_occupied, apply_one, apply_loop}
use artillery.Membership.Changes.NoPanic.{some_host, or_else_total}

apply_occupied-alive :
    (d known : ArtilleryMember) (s : Applying)
    → d.member_state ≡ alive
    → known.member_state ≡ alive
    → is_current known ≡ false
    → apply_occupied d known s ≡ some s
unfolding apply_occupied
apply_occupied-alive d known s claims lives remote =
    let winner = most_uptodate_member_data d known in
    let (h, known_host) = some_host known remote in
    let (host, found) = or_else_total winner.remote_host known.remote_host known_host in
    let same : same_state winner.member_state known.member_state ≡ true =
      elim (most_uptodate_member_data_cases d known) [
        | inl e ↦ rw (e, claims, lives) refl
        | inr e ↦ rw (e, lives) refl
      ] in
    rw found (rw same refl)

-- A refutation that comes before the accusation is forgotten: a report that a member is alive, on a
-- member that is held to be alive, has no effect on the reports behind it, however high its
-- incarnation number is, so that a late accusation with a lower number is judged as if it had not
-- come.
pub apply_loop-alive :
    (my : Uuid) (from : SocketAddr) (refutation : ArtilleryStateChange)
    (later : List ArtilleryStateChange) (known : ArtilleryMember) (s : Applying)
    → (refutation.member.host_key == my) ≡ false
    → lookup refutation.member.host_key s.current_members ≡ some known
    → is_current known ≡ false
    → known.member_state ≡ alive
    → refutation.member.member_state ≡ alive
    → apply_loop my from (refutation ∷ later) s ≡ apply_loop my from later s
unfolding apply_loop apply_one
apply_loop-alive my from refutation later known s other there remote lives claims =
    rw other
      (rw there (rw (apply_occupied-alive refutation.member known s claims lives remote) refl))
