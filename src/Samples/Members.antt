-- ===== src/Samples/Members.antt =====
-- The theorems on members and member lists, on the cluster of three nodes.
use mathlib.Core.List.{Permᴰ}
use artillery.Base.{
  none, true, any, ◌==◌, ◌&&◌, ◌||◌, ltb, if◌then◌else◌, ◌≡◌, ◌+◌, refl, List, [], ◌∷◌, some, All,
  arith,
}
use artillery.Member.{
  AddDate, ArtilleryMember, suspect, down, alive, left, same_state, current, seconds, reincarnate,
  most_uptodate_member_data,
}
use artillery.Member.Priority.{priority, most_uptodate_member_data_lem}
use artillery.Membership.{
  ArtilleryMemberList, time_out_nodes, remote_members, leave, find_myself, new, to_map,
}
use artillery.Membership.WellFormed.{IsWellFormed, leave_total}
use artillery.Base.Dict.{lookup, insert, nat_eq}
use artillery.Membership.Changes.Farewell.{apply_state_changes-leave}
use artillery.Membership.Changes.Stale.{apply_loop-alive}
use artillery.Membership.Changes.{Applying, values, apply_loop, Applied, apply_state_changes}
use artillery.Membership.Changes.NoPanic.{apply_state_changes_total}
use artillery.Membership.Changes.Myself.{OnlyMe, refutation_not_kept}
use artillery.Membership.Timeouts.{Zip, Ages, All-IsDatable, time_out_nodes-Ages}
use artillery.Membership.Rotation.{pings, rotated, round_pings_all}
use artillery.Samples.Clusters.{
  report, second, member_of, me, cluster, cluster-IsWellFormed, in_order, in_order-IsPlatform,
  accusation, news,
}

abbrev gone : ArtilleryMember
gone = member_of 3 (some 30) 7 down

abbrev back : ArtilleryMember
back = member_of 3 (some 30) 9 alive

most_uptodate_member_data_lem_example : most_uptodate_member_data gone back ≡ (
    if ltb (priority back) (priority gone) || same_state gone.member_state left then gone else back)
most_uptodate_member_data_lem_example =
    most_uptodate_member_data_lem gone back (omega arith) (omega arith)

leave_total_example :
    (m : ArtilleryMember) × (l' : ArtilleryMemberList) × (leave 5 cluster ≡ some (m, l'))
    × IsWellFormed 1 l'.members
leave_total_example = leave_total 5 1 cluster cluster-IsWellFormed

apply_state_changes_total_example :
    (r : Applied) × (apply_state_changes in_order news 20 cluster ≡ some r)
    × IsWellFormed 1 r.list.members
apply_state_changes_total_example =
    apply_state_changes_total 1 in_order news 20 cluster in_order-IsPlatform cluster-IsWellFormed

cluster-OnlyMe : All (OnlyMe me) cluster.members
cluster-OnlyMe = (λ e. absurd (cc e), (λ e. refl, (λ e. absurd (cc e), tt)))

refutation_not_kept_example :
    (r : Applied) × (apply_state_changes in_order (accusation ∷ []) 20 cluster ≡ some r)
    × (r.changed_nodes ≡ reincarnate me ∷ [])
    × (find_myself r.list.members ≡ some me)
refutation_not_kept_example =
    refutation_not_kept 1 me in_order accusation 20 cluster in_order-IsPlatform cluster-IsWellFormed
      cluster-OnlyMe refl refl

abbrev dates : AddDate
dates = λ d n. some (d + n)

time_out_nodes-Ages_example :
    (suspects : List ArtilleryMember) × (downs : List ArtilleryMember) × (l' : ArtilleryMemberList)
    × (time_out_nodes dates (seconds 4) (20 ∷ 30 ∷ []) cluster ≡ some ((suspects, downs), l'))
    × Zip (Ages (seconds 4) (20 ∷ 30 ∷ [])) cluster.members l'.members
    × All (λ m. m.member_state ≡ suspect) suspects
    × All (λ m. m.member_state ≡ down) downs
time_out_nodes-Ages_example =
    time_out_nodes-Ages dates (seconds 4) (20 ∷ 30 ∷ []) cluster
      (All-IsDatable dates cluster.members (λ d. refl))

round_pings_all_example :
    (ms : List ArtilleryMember) × (l' : ArtilleryMemberList) × (pings
        (in_order ∷ in_order ∷ [])
        cluster
      ≡ some (ms, l'))
    × (ms ≡ rotated (remote_members (in_order.shuffle_members cluster.members)))
    × Permᴰ ms (remote_members cluster.members)
    × (l'.periodic_index ≡ 0)
round_pings_all_example =
    round_pings_all in_order (in_order ∷ []) cluster in_order-IsPlatform refl refl

abbrev applying : Applying
applying = record {
  current_members = (2, second) ∷ [];
  own = cluster;
  new_nodes = [];
  changed_nodes = [];
}

applying-second : lookup 2 applying.current_members ≡ some second
unfolding lookup
applying-second = refl

apply_loop-alive_example :
    apply_loop 1 20
      (report (member_of 2 none 9 alive) ∷ report (member_of 2 none 3 suspect) ∷ [])
      applying
    ≡ apply_loop 1 20 (report (member_of 2 none 3 suspect) ∷ []) applying
apply_loop-alive_example =
    apply_loop-alive 1 20 (report (member_of 2 none 9 alive))
      (report (member_of 2 none 3 suspect) ∷ []) second applying refl applying-second refl refl refl

abbrev leaver : ArtilleryMemberList
leaver = new (current 0 2)

leaver-IsWellFormed : IsWellFormed 2 leaver.members
leaver-IsWellFormed = record { agree = (refl, tt); present = refl }

second-known : lookup 2 (to_map cluster) ≡ some second
unfolding to_map lookup
second-known = refl

apply_state_changes-leave_example :
    (m : ArtilleryMember) × (own' : ArtilleryMemberList) × (r : Applied) × (n : ArtilleryMember)
    × (leave 5 leaver ≡ some (m, own'))
    × (apply_state_changes in_order (record { member = m } ∷ []) 20 cluster ≡ some r)
    × (r.new_nodes ≡ [])
    × (r.changed_nodes ≡ n ∷ [])
    × (n.host_key ≡ 2)
    × (n.member_state ≡ left)
    × (n.remote_host ≡ second.remote_host)
    × Permᴰ (values (insert 2 n (to_map cluster))) r.list.members
    × (any (λ x. (x.host_key == 2) && same_state left x.member_state) r.list.members ≡ true)
apply_state_changes-leave_example =
    apply_state_changes-leave 5 2 1 leaver cluster in_order 20 second in_order-IsPlatform
      leaver-IsWellFormed cluster-IsWellFormed (λ e. omega (arith, e)) second-known refl
