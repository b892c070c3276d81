-- ===== src/Membership/Changes.antt =====
-- artillery-core/src/epidemic/membership.rs, `apply_state_changes`: a node takes in what another
-- node reports of the cluster.
pub mod NoPanic
pub mod Myself
pub mod Stale
pub mod Farewell
use artillery.Base.{List, [], ◌∷◌, ◌++◌, map, Option, none, some, ◌==◌, if◌then◌else◌, ◌>>=◌}
use artillery.Base.Dict.{lookup, insert, nat_eq}
use artillery.Member.{
  Uuid, SocketAddr, alive, ArtilleryMember, ArtilleryStateChange, same_state,
  member_by_changing_host, most_uptodate_member_data,
}
use artillery.Membership.{
  ArtilleryMemberList, Platform, MemberMap, to_map, find_myself, reincarnate_self,
}

-- The variables of the loop: `own` is `self`, which `reincarnate_self` changes on the way.
pub record Applying : Type 0 where
  pub current_members : MemberMap
  pub own : ArtilleryMemberList
  pub new_nodes : List ArtilleryMember
  pub changed_nodes : List ArtilleryMember

-- `Option::or_else` and `Option::unwrap_or` on hosts.
abbrev pub or_else : Option SocketAddr → Option SocketAddr → Option SocketAddr
or_else none b = b
or_else (some a) b = some a

abbrev pub unwrap_or : Option SocketAddr → SocketAddr → SocketAddr
unwrap_or none b = b
unwrap_or (some a) b = a

abbrev pub record_change : Uuid → ArtilleryMember → Applying → Applying
record_change key new_member s = record s {
  current_members = insert key new_member s.current_members;
  changed_nodes = s.changed_nodes ++ new_member ∷ [];
}

-- A report on a member that the map holds as `known`.
unfoldable pub apply_occupied : ArtilleryMember → ArtilleryMember → Applying → Option Applying
apply_occupied new_data known s =
    let winner = most_uptodate_member_data new_data known in
    do
      new_host ← or_else winner.remote_host known.remote_host
      let new_member = member_by_changing_host winner new_host
      some (
          if same_state new_member.member_state known.member_state
          then s
          else record_change new_data.host_key new_member s)

-- A report on a member that the map does not hold.
unfoldable pub apply_vacant : ArtilleryMember → SocketAddr → Applying → Applying
apply_vacant new_data from s =
    let new_member = member_by_changing_host new_data (unwrap_or new_data.remote_host from) in
    record s {
      current_members = insert new_data.host_key new_member s.current_members;
      new_nodes = s.new_nodes ++ new_member ∷ [];
    }

-- A report on this node itself: one that does not say `Alive` is answered by a reincarnation.
unfoldable pub apply_to_myself : ArtilleryMember → Applying → Option Applying
apply_to_myself new_data s = if same_state new_data.member_state alive then some s else do
  (myself, own) ← reincarnate_self s.own
  some (record s { own = own; changed_nodes = s.changed_nodes ++ myself ∷ [] })

abbrev pub apply_entry :
    ArtilleryMember → SocketAddr → Option ArtilleryMember → Applying → Option Applying
apply_entry new_data from none s = some (apply_vacant new_data from s)
apply_entry new_data from (some known) s = apply_occupied new_data known s

-- One round of the loop.
unfoldable pub apply_one : Uuid → SocketAddr → ArtilleryMember → Applying → Option Applying
apply_one my_host_key from new_data s =
    if new_data.host_key == my_host_key
    then apply_to_myself new_data s
    else apply_entry new_data from (lookup new_data.host_key s.current_members) s

unfoldable pub apply_loop :
    Uuid → SocketAddr → List ArtilleryStateChange → Applying → Option Applying
apply_loop my_host_key from [] s = some s
apply_loop my_host_key from (c ∷ cs) s = do
  s' ← apply_one my_host_key from c.member s
  apply_loop my_host_key from cs s'

abbrev pub values : MemberMap → List ArtilleryMember
values = map (λ e. e.1)

abbrev pub start : ArtilleryMemberList → Applying
start l = record { current_members = to_map l; own = l; new_nodes = []; changed_nodes = [] }

-- The new nodes, the changed nodes and the list.
pub record Applied : Type 0 where
  pub new_nodes : List ArtilleryMember
  pub changed_nodes : List ArtilleryMember
  pub list : ArtilleryMemberList

unfoldable pub apply_state_changes :
    Platform → List ArtilleryStateChange → SocketAddr → ArtilleryMemberList → Option Applied
apply_state_changes p state_changes from l = do
  myself ← find_myself l.members
  s ← apply_loop myself.host_key from state_changes (start l)
  some (record {
    new_nodes = s.new_nodes;
    changed_nodes = s.changed_nodes;
    list = record s.own { members = p.hash_order (values s.current_members) };
  })
