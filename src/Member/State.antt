-- ===== src/Member/State.antt =====
-- artillery-core/src/epidemic/member.rs: what the operations on one member change.
use artillery.Base.{◌≡◌, ◌⊎◌, arith}
use artillery.Member.{
  DateTime, ArtilleryMemberState, ArtilleryMember, set_state, most_uptodate_member_data,
}

-- `set_state` sets the state and nothing else that identifies the member.
pub set_state_fields :
    (now : DateTime) (state : ArtilleryMemberState) (m : ArtilleryMember)
    → ((set_state now state m).member_state ≡ state)
      × ((set_state now state m).host_key ≡ m.host_key)
      × ((set_state now state m).remote_host ≡ m.remote_host)
      × ((set_state now state m).incarnation_number ≡ m.incarnation_number)
unfolding set_state
set_state_fields now state m = ground arith

pub most_uptodate_member_data_cases :
    (lhs rhs : ArtilleryMember)
    → (most_uptodate_member_data lhs rhs ≡ lhs) ⊎ (most_uptodate_member_data lhs rhs ≡ rhs)
unfolding most_uptodate_member_data
most_uptodate_member_data_cases lhs rhs = ground arith
