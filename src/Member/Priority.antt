-- ===== src/Member/Priority.antt =====
-- The order behind `most_uptodate_member_data`: each report has a priority.
use artillery.Base.{ℕ, ◌+◌, ◌*◌, ◌^◌, ◌<◌, ◌≡◌, arith, ltb, if◌then◌else◌, ◌||◌}
use artillery.Member.{
  ArtilleryMemberState, alive, suspect, down, left, ArtilleryMember, same_state,
  most_uptodate_member_data,
}

-- Reports on a live member rank by incarnation, a suspicion above the claim that it refutes; a
-- member that is down ranks above all of these, and one that has left ranks highest.
abbrev pub rank : ArtilleryMemberState → ℕ → ℕ
rank alive i = 2 * i
rank suspect i = 2 * i + 1
rank down i = 2 * 2 ^ 64
rank left i = 2 * 2 ^ 64 + 1

abbrev pub priority : ArtilleryMember → ℕ
priority m = rank m.member_state m.incarnation_number

abbrev pub IsU64 : ArtilleryMember → Type 0
IsU64 m = m.incarnation_number < 2 ^ 64

-- Of two records of a member with `u64` incarnations, `most_uptodate_member_data` takes the first
-- exactly if it ranks above the second or has left: a live record ranks by incarnation, a suspicion
-- just above the live record of its incarnation, a member that is down above all of these, and one
-- that has left highest.
pub most_uptodate_member_data_lem :
    (lhs rhs : ArtilleryMember)
    → IsU64 lhs
    → IsU64 rhs
    → most_uptodate_member_data lhs rhs
      ≡ (if ltb (priority rhs) (priority lhs) || same_state lhs.member_state left then lhs else rhs)
unfolding most_uptodate_member_data
most_uptodate_member_data_lem lhs rhs l r = ground arith
