-- ===== src/Samples/Clusters.antt =====
-- A node with the key 1 that knows two others, and what it may hear of them.
use artillery.Base.{ℕ, refl, List, [], ◌∷◌, Option, none, some, perm-refl}
use artillery.Member.{
  ArtilleryMember, ArtilleryMemberState, ArtilleryStateChange, alive, suspect, down,
}
use artillery.Membership.{ArtilleryMemberList, Platform}
use artillery.Membership.WellFormed.{IsWellFormed, IsPlatform}

abbrev pub member_of : ℕ → Option ℕ → ℕ → ArtilleryMemberState → ArtilleryMember
member_of key host incarnation state = record {
  host_key = key;
  remote_host = host;
  incarnation_number = incarnation;
  member_state = state;
  last_state_change = 0;
}

abbrev pub me : ArtilleryMember
me = member_of 1 none 4 alive

abbrev pub second : ArtilleryMember
second = member_of 2 (some 20) 0 alive

abbrev pub third : ArtilleryMember
third = member_of 3 (some 30) 7 suspect

abbrev pub cluster : ArtilleryMemberList
cluster = record { members = second ∷ me ∷ third ∷ []; periodic_index = 0 }

pub cluster-IsWellFormed : IsWellFormed 1 cluster.members
cluster-IsWellFormed = record { agree = (refl, (refl, (refl, tt))); present = refl }

-- A platform that leaves every order as it is.
abbrev pub in_order : Platform
in_order = record { shuffle_members = λ ms. ms; shuffle_hosts = λ hs. hs; hash_order = λ ms. ms }

pub in_order-IsPlatform : IsPlatform in_order
in_order-IsPlatform = record {
  members_perm = λ ms. perm-refl ms;
  hosts_perm = λ hs. perm-refl hs;
  hash_perm = λ ms. perm-refl ms;
}

abbrev pub report : ArtilleryMember → ArtilleryStateChange
report m = record { member = m }

-- An accusation of the node itself, news of the second node, and of one not yet known.
abbrev pub accusation : ArtilleryStateChange
accusation = report (member_of 1 (some 10) 4 suspect)

abbrev pub news : List ArtilleryStateChange
news = accusation ∷ report (member_of 2 none 0 down) ∷ report (member_of 4 none 0 alive) ∷ []
