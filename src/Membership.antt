-- ===== src/Membership.antt =====
-- artillery-core/src/epidemic/membership.rs: the list of members that a node keeps.
-- A panic is `none`. The order of a hash map and the shuffles of `bastion_utils` are not under this
-- repository's control: they are the functions of `Platform`.
pub mod Changes
pub mod WellFormed
pub mod Rotation
pub mod Timeouts
pub mod Revival
use artillery.Base.{
  ℕ, ◌+◌, ◌%◌, Bool, false, not, ◌&&◌, List, [], ◌∷◌, ◌++◌, Option, none, some, length, get_elem?,
  take, retain, any, filter_map, ◌==◌, if◌then◌else◌, ◌>>=◌,
}
use artillery.Base.Dict.{insert, nat_eq}
use artillery.Member.{
  Uuid, SocketAddr, DateTime, AddDate, seconds, ArtilleryMemberState, alive, suspect, down, left,
  ArtilleryMember, same_state, is_remote, is_current, state_change_older_than, set_state,
  reincarnate,
}

pub record ArtilleryMemberList : Type 0 where
  pub members : List ArtilleryMember
  pub periodic_index : ℕ

-- What a call draws from libraries that choose an order at random.
pub record Platform : Type 0 where
  pub shuffle_members : List ArtilleryMember → List ArtilleryMember
  pub shuffle_hosts : List SocketAddr → List SocketAddr
  pub hash_order : List ArtilleryMember → List ArtilleryMember

abbrev pub new : ArtilleryMember → ArtilleryMemberList
new me = record { members = me ∷ []; periodic_index = 0 }

abbrev pub available_nodes : ArtilleryMemberList → List ArtilleryMember
available_nodes l = retain (λ m. not (same_state m.member_state left)) l.members

-- A `HashMap<Uuid, ArtilleryMember>`.
abbrev pub MemberMap : Type 0
MemberMap = List (Uuid × ArtilleryMember)

unfoldable pub collect : MemberMap → List ArtilleryMember → MemberMap
collect acc [] = acc
collect acc (m ∷ ms) = collect (insert m.host_key m acc) ms

unfoldable pub to_map : ArtilleryMemberList → MemberMap
unfolding collect insert
to_map l = collect [] l.members

-- `mut_myself` returns a reference to the first current member, or panics. `find_myself` reads it
-- and `update_myself` writes through it.
unfoldable pub find_myself : List ArtilleryMember → Option ArtilleryMember
find_myself [] = none
find_myself (m ∷ ms) = if is_current m then some m else find_myself ms

unfoldable pub update_myself :
    (ArtilleryMember → ArtilleryMember) → List ArtilleryMember → List ArtilleryMember
update_myself f [] = []
update_myself f (m ∷ ms) = if is_current m then f m ∷ ms else m ∷ update_myself f ms

unfoldable pub reincarnate_self :
    ArtilleryMemberList → Option (ArtilleryMember × ArtilleryMemberList)
unfolding find_myself update_myself reincarnate
reincarnate_self l = do
  myself ← find_myself l.members
  some (reincarnate myself, record l { members = update_myself reincarnate l.members })

abbrev pub leaving : DateTime → ArtilleryMember → ArtilleryMember
leaving now m = reincarnate (set_state now left m)

unfoldable pub leave :
    DateTime → ArtilleryMemberList → Option (ArtilleryMember × ArtilleryMemberList)
unfolding find_myself update_myself reincarnate set_state
leave now l = do
  myself ← find_myself l.members
  some (leaving now myself, record l { members = update_myself (leaving now) l.members })

abbrev pub remote_members : List ArtilleryMember → List ArtilleryMember
remote_members = retain is_remote

-- The end of `next_random_member`: the index moves on, and an index out of range panics.
abbrev pub pick_next :
    ArtilleryMemberList
    → List ArtilleryMember
    → Option (Option ArtilleryMember × ArtilleryMemberList)
pick_next l [] = some (none, l)
pick_next l (o ∷ others) =
    let next = (l.periodic_index + 1) % length (o ∷ others) in
    do chosen ← get_elem? (o ∷ others) next; some (some chosen, record l { periodic_index = next })

unfoldable pub next_random_member :
    Platform → ArtilleryMemberList → Option (Option ArtilleryMember × ArtilleryMemberList)
next_random_member p l =
    let shuffled =
      if l.periodic_index == 0 then record l { members = p.shuffle_members l.members } else l in
    pick_next shuffled (remote_members shuffled.members)

-- What `time_out_nodes` does with one member.
pub data Verdict : Type 0 where
  keep suspected went_down : Verdict

abbrev pub judge_state :
    AddDate → DateTime → ArtilleryMember → ArtilleryMemberState → Option Verdict
judge_state add_date now m alive = some suspected
judge_state add_date now m suspect = do
  old ← state_change_older_than add_date now m (seconds 3)
  some (if old then went_down else keep)
judge_state add_date now m down = some keep
judge_state add_date now m left = some keep

abbrev pub judge_host :
    AddDate → DateTime → List SocketAddr → ArtilleryMember → Option SocketAddr → Option Verdict
judge_host add_date now expired_hosts m none = some keep
judge_host add_date now expired_hosts m (some remote_host) =
    if any (λ a. a == remote_host) expired_hosts
    then judge_state add_date now m m.member_state
    else some keep

unfoldable pub judge : AddDate → DateTime → List SocketAddr → ArtilleryMember → Option Verdict
judge add_date now expired_hosts m = judge_host add_date now expired_hosts m m.remote_host

-- The members, those that became suspect, and those that went down.
pub record TimedOut : Type 0 where
  pub members : List ArtilleryMember
  pub suspect_members : List ArtilleryMember
  pub down_members : List ArtilleryMember

unfoldable pub time_out_one : DateTime → Verdict → ArtilleryMember → TimedOut → TimedOut
unfolding set_state
time_out_one now keep m r = record r { members = m ∷ r.members }
time_out_one now suspected m r =
    let m' = set_state now suspect m in
    record r { members = m' ∷ r.members; suspect_members = m' ∷ r.suspect_members }
time_out_one now went_down m r =
    let m' = set_state now down m in
    record r { members = m' ∷ r.members; down_members = m' ∷ r.down_members }

unfoldable pub time_out_loop :
    AddDate → DateTime → List SocketAddr → List ArtilleryMember → Option TimedOut
unfolding time_out_one judge
time_out_loop add_date now expired_hosts [] =
    some (record { members = []; suspect_members = []; down_members = [] })
time_out_loop add_date now expired_hosts (m ∷ ms) = do
  verdict ← judge add_date now expired_hosts m
  rest ← time_out_loop add_date now expired_hosts ms
  some (time_out_one now verdict m rest)

-- The suspect members and those that are down, and the list.
abbrev pub timed_out :
    ArtilleryMemberList
    → TimedOut
    → (List ArtilleryMember × List ArtilleryMember) × ArtilleryMemberList
timed_out l r = ((r.suspect_members, r.down_members), record l { members = r.members })

unfoldable pub time_out_nodes :
    AddDate
    → DateTime
    → List SocketAddr
    → ArtilleryMemberList
    → Option ((List ArtilleryMember × List ArtilleryMember) × ArtilleryMemberList)
unfolding time_out_loop
time_out_nodes add_date now expired_hosts l = do
  r ← time_out_loop add_date now expired_hosts l.members
  some (timed_out l r)

abbrev pub has_host : SocketAddr → ArtilleryMember → Bool
has_host a m = elim m.remote_host [ none ↦ false | some h ↦ h == a ]

unfoldable pub mark_loop :
    DateTime → SocketAddr → List ArtilleryMember → Option ArtilleryMember × List ArtilleryMember
unfolding set_state
mark_loop now src_addr [] = (none, [])
mark_loop now src_addr (m ∷ ms) =
    let rest = mark_loop now src_addr ms in
    if has_host src_addr m && not (same_state m.member_state alive)
    then (some (set_state now alive m), set_state now alive m ∷ ms)
    else (rest.0, m ∷ rest.1)

unfoldable pub mark_node_alive :
    DateTime → SocketAddr → ArtilleryMemberList → Option ArtilleryMember × ArtilleryMemberList
unfolding mark_loop
mark_node_alive now src_addr l =
    let r = mark_loop now src_addr l.members in (r.0, record l { members = r.1 })

abbrev indirect_host : SocketAddr → ArtilleryMember → Option SocketAddr
indirect_host target m =
    if same_state m.member_state alive && (is_remote m && not (has_host target m))
    then m.remote_host
    else none

unfoldable pub hosts_for_indirect_ping :
    Platform → ℕ → SocketAddr → ArtilleryMemberList → List SocketAddr
hosts_for_indirect_ping p host_count target l =
    take host_count (p.shuffle_hosts (filter_map (indirect_host target) l.members))

unfoldable pub has_member : SocketAddr → ArtilleryMemberList → Bool
has_member remote_host l = any (has_host remote_host) l.members

abbrev pub add_member : ArtilleryMember → ArtilleryMemberList → ArtilleryMemberList
add_member m l = record l { members = l.members ++ m ∷ [] }

unfoldable pub get_member : Uuid → ArtilleryMemberList → Option ArtilleryMember
get_member id l = elim (retain (λ m. m.host_key == id) l.members) [ [] ↦ none | m ∷ _ ↦ some m ]
