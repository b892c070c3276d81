-- ===== src/Member.antt =====
-- artillery-core/src/epidemic/member.rs: a member of the cluster as one node knows it, and the rule
-- that picks the more up-to-date of two reports on a member.
-- A `Uuid`, a `SocketAddr` and a time stamp are numbers; `Utc::now()` is an argument `now`. A `u64`
-- wraps at 2 ^ 64.
pub mod State
pub mod Priority
use artillery.Base.{
  ℕ, ◌+◌, ◌*◌, ◌%◌, ◌^◌, Bool, true, false, Option, none, some, ltb, leb, ◌==◌, if◌then◌else◌,
  is_some, not, ◌>>=◌,
}

abbrev pub Uuid : Type 0
Uuid = ℕ

-- An address; its port is the number's low 16 bits.
abbrev pub SocketAddr : Type 0
SocketAddr = ℕ

-- Nanoseconds since the epoch, and spans of them.
abbrev pub DateTime : Type 0
DateTime = ℕ

abbrev pub seconds : ℕ → ℕ
seconds n = n * 1000000000

pub data ArtilleryMemberState : Type 0 where
  alive suspect down left : ArtilleryMemberState

pub record ArtilleryMember : Type 0 where
  pub host_key : Uuid
  pub remote_host : Option SocketAddr
  pub incarnation_number : ℕ
  pub member_state : ArtilleryMemberState
  pub last_state_change : DateTime

pub record ArtilleryStateChange : Type 0 where
  pub member : ArtilleryMember

-- The derived `==` of the states.
abbrev pub same_state : ArtilleryMemberState → ArtilleryMemberState → Bool
same_state alive alive = true
same_state suspect suspect = true
same_state down down = true
same_state left left = true
same_state _ _ = false

-- `ArtilleryMember::new`.
abbrev pub new_member : DateTime → Uuid → SocketAddr → ℕ → ArtilleryMemberState → ArtilleryMember
new_member now host_key remote_host incarnation_number known_state = record {
  host_key = host_key;
  remote_host = some remote_host;
  incarnation_number = incarnation_number;
  member_state = known_state;
  last_state_change = now;
}

-- `ArtilleryMember::current`.
abbrev pub current : DateTime → Uuid → ArtilleryMember
current now host_key = record {
  host_key = host_key;
  remote_host = none;
  incarnation_number = 0;
  member_state = alive;
  last_state_change = now;
}

abbrev pub is_remote : ArtilleryMember → Bool
is_remote m = is_some m.remote_host

abbrev pub is_current : ArtilleryMember → Bool
is_current m = not (is_some m.remote_host)

-- chrono's addition of a duration to a date, which panics past the last date that it has.
abbrev pub AddDate : Type 0
AddDate = DateTime → ℕ → Option DateTime

abbrev pub state_change_older_than : AddDate → DateTime → ArtilleryMember → ℕ → Option Bool
state_change_older_than add_date now m duration = do
  later ← add_date m.last_state_change duration
  some (ltb later now)

unfoldable pub set_state : DateTime → ArtilleryMemberState → ArtilleryMember → ArtilleryMember
set_state now state m =
    if same_state m.member_state state
    then m
    else record m { member_state = state; last_state_change = now }

abbrev pub member_by_changing_host : ArtilleryMember → SocketAddr → ArtilleryMember
member_by_changing_host m remote_host = record m { remote_host = some remote_host }

abbrev pub u64 : ℕ → ℕ
u64 n = n % 2 ^ 64

unfoldable pub reincarnate : ArtilleryMember → ArtilleryMember
reincarnate m = record m { incarnation_number = u64 (m.incarnation_number + 1) }

-- The `match` of `most_uptodate_member_data`.
lhs_overrides : ArtilleryMemberState → ℕ → ArtilleryMemberState → ℕ → Bool
lhs_overrides alive i suspect j = ltb j i
lhs_overrides alive i alive j = ltb j i
lhs_overrides suspect i suspect j = ltb j i
lhs_overrides suspect i alive j = leb j i
lhs_overrides down i alive j = true
lhs_overrides down i suspect j = true
lhs_overrides left i _ j = true
lhs_overrides _ i _ j = false

unfoldable pub most_uptodate_member_data : ArtilleryMember → ArtilleryMember → ArtilleryMember
unfolding lhs_overrides
most_uptodate_member_data lhs rhs =
    if lhs_overrides lhs.member_state lhs.incarnation_number rhs.member_state rhs.incarnation_number
    then lhs
    else rhs
