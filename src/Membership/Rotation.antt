-- ===== src/Membership/Rotation.antt =====
-- artillery-core/src/epidemic/membership.rs, `next_random_member`: whom a node pings, round by
-- round.
use mathlib.Core.List.{Permᴰ, append-nil, append_assoc}
use artillery.Base.{
  ℕ, suc, ◌+◌, ◌%◌, ◌<◌, ◌≡◌, refl, ◌∙◌, List, [], ◌∷◌, ◌++◌, Option, some, arith, length,
  length-append, get_elem?, get_elem?-append, length-perm, true, false, perm-append_one, perm-symm,
  retain-perm, ◌==◌, ◌>>=◌,
}
use artillery.Member.{ArtilleryMember, is_remote}
use artillery.Membership.{
  ArtilleryMemberList, Platform, remote_members, pick_next, next_random_member,
}
use artillery.Membership.WellFormed.{IsPlatform}

-- Whom the node pings in successive calls, each with its own random choices.
pub pings :
    List Platform → ArtilleryMemberList → Option (List ArtilleryMember × ArtilleryMemberList)
pings [] l = some ([], l)
pings (p ∷ ps) l = do
  (chosen, l') ← next_random_member p l
  m ← chosen
  (ms, l'') ← pings ps l'
  some (m ∷ ms, l'')

pick_next_lem :
    (l : ArtilleryMemberList) (others rest : List ArtilleryMember) (o m : ArtilleryMember)
    (next : ℕ)
    → others ≡ o ∷ rest
    → (l.periodic_index + 1) % length (o ∷ rest) ≡ next
    → get_elem? (o ∷ rest) next ≡ some m
    → pick_next l others ≡ some (some m, record l { periodic_index = next })
pick_next_lem l others rest o m next same e g = rw same (rw (e, g))

-- A call that is not the first of a round shuffles nothing.
next_later :
    (p : Platform) (l : ArtilleryMemberList) (rest : List ArtilleryMember) (o m : ArtilleryMember)
    (next : ℕ)
    → 0 < l.periodic_index
    → remote_members l.members ≡ o ∷ rest
    → (l.periodic_index + 1) % length (o ∷ rest) ≡ next
    → get_elem? (o ∷ rest) next ≡ some m
    → next_random_member p l ≡ some (some m, record l { periodic_index = next })
unfolding next_random_member
next_later p l rest o m next pos same e g =
    let skip : (l.periodic_index == 0) ≡ false = ground arith in
    rw skip (pick_next_lem l (remote_members l.members) rest o m next same e g)

next_first :
    (p : Platform) (l : ArtilleryMemberList) (rest : List ArtilleryMember) (o m : ArtilleryMember)
    (next : ℕ)
    → l.periodic_index ≡ 0
    → remote_members (p.shuffle_members l.members) ≡ o ∷ rest
    → 1 % length (o ∷ rest) ≡ next
    → get_elem? (o ∷ rest) next ≡ some m
    → next_random_member p l
      ≡ some (some m, record { members = p.shuffle_members l.members; periodic_index = next })
unfolding next_random_member
next_first p l rest o m next start same e g =
    let shuffles : (l.periodic_index == 0) ≡ true = ground arith in
    rw shuffles (
      pick_next_lem (record l { members = p.shuffle_members l.members }) _ rest o m next same
        (rw start e) g)

suc-mod : (i n : ℕ) → i + 1 < n → (i + 1) % n ≡ suc i
suc-mod i n h = grind arith

pings_step :
    (p : Platform) (ps : List Platform) (l l1 l2 : ArtilleryMemberList) (m : ArtilleryMember)
    (ms : List ArtilleryMember)
    → next_random_member p l ≡ some (some m, l1)
    → pings ps l1 ≡ some (ms, l2)
    → pings (p ∷ ps) l ≡ some (m ∷ ms, l2)
unfolding pings
pings_step p ps l l1 l2 m ms e f = rw e (rw f)

-- Past the start of a round, the pings go through what is left of the list and end with its head.
rest_of_round :
    (ps : List Platform) (l : ArtilleryMemberList) (o : ArtilleryMember)
    (before after : List ArtilleryMember)
    → remote_members l.members ≡ o ∷ (before ++ after)
    → length before ≡ l.periodic_index
    → 0 < l.periodic_index
    → length ps ≡ length after + 1
    → pings ps l ≡ some (after ++ o ∷ [], record l { periodic_index = 0 })
unfolding pings
rest_of_round [] l o before after e i pos n = absurd (omega (arith, n))
rest_of_round (p ∷ q ∷ ps) l o before [] e i pos n = absurd (omega (arith, n))
rest_of_round (p ∷ []) l o before [] e i pos n =
    pings_step p [] l _ _ o []
      (next_later p l before o o 0 pos (rw append-nil at e) (rw (← i) (grind arith)) refl) refl
rest_of_round (p ∷ ps) l o before (m ∷ after) e i pos n =
    let l1 : ArtilleryMemberList = record l { periodic_index = suc l.periodic_index } in
    pings_step p ps l l1 (record l { periodic_index = 0 }) m (after ++ o ∷ [])
      (next_later p l (before ++ m ∷ after) o m (suc l.periodic_index) pos e
        (suc-mod l.periodic_index (length (o ∷ (before ++ m ∷ after)))
          (omega (arith, length-append before (m ∷ after))))
        (rw (← i) (get_elem?-append before after m)))
      (rest_of_round ps l1 o (before ++ m ∷ []) after (rw append_assoc e)
        (omega (arith, length-append before (m ∷ []))) (omega arith) (omega (arith, n)))

-- The first comes last.
abbrev pub rotated : List ArtilleryMember → List ArtilleryMember
rotated [] = []
rotated (o ∷ rest) = rest ++ o ∷ []

-- The round, for a list of remote members that is already shuffled.
shuffled_round :
    (p : Platform) (ps : List Platform) (l : ArtilleryMemberList) (others : List ArtilleryMember)
    → l.periodic_index ≡ 0
    → remote_members (p.shuffle_members l.members) ≡ others
    → length ps + 1 ≡ length others
    → (ms : List ArtilleryMember) × (l' : ArtilleryMemberList) × (pings (p ∷ ps) l ≡ some (ms, l'))
      × (ms ≡ rotated others)
      × Permᴰ ms others
      × (l'.periodic_index ≡ 0)
shuffled_round p ps l [] start e n = absurd (omega (arith, n))
shuffled_round p [] l (o ∷ []) start e n = (
  o ∷ [],
  record { members = p.shuffle_members l.members; periodic_index = 0 },
  pings_step p [] l _ _ o [] (next_first p l [] o o 0 start e refl refl) (unfold pings in refl),
  refl,
  perm-symm (perm-append_one o []),
  refl,
)
shuffled_round p (q ∷ ps) l (o ∷ []) start e n = absurd (omega (arith, n))
shuffled_round p ps l (o ∷ m ∷ rest) start e n =
    let l1 : ArtilleryMemberList = record {
      members = p.shuffle_members l.members;
      periodic_index = 1;
    } in
    (
      m ∷ (rest ++ o ∷ []),
      record l1 { periodic_index = 0 },
      pings_step p ps l l1 (record l1 { periodic_index = 0 }) m (rest ++ o ∷ [])
          (next_first p l (m ∷ rest) o m 1 start e (suc-mod 0 (length (o ∷ m ∷ rest)) (omega arith))
            refl)
          (rest_of_round ps l1 o (m ∷ []) rest e refl (omega arith) (omega (arith, n))),
      refl,
      perm-symm (perm-append_one o (m ∷ rest)),
      refl,
    )

-- From the start of a round, where a node knows n + 1 remote members, the next n + 1 calls of
-- `next_random_member` all succeed, return the remote members in the order in which the shuffle of the
-- first call leaves them, the first one last, hence each exactly as often as it is listed, and end at
-- the start of the next round, provided that a shuffle is a permutation.
pub round_pings_all :
    (p : Platform) (ps : List Platform) (l : ArtilleryMemberList)
    → IsPlatform p
    → l.periodic_index ≡ 0
    → length ps + 1 ≡ length (remote_members l.members)
    → (ms : List ArtilleryMember) × (l' : ArtilleryMemberList) × (pings (p ∷ ps) l ≡ some (ms, l'))
      × (ms ≡ rotated (remote_members (p.shuffle_members l.members)))
      × Permᴰ ms (remote_members l.members)
      × (l'.periodic_index ≡ 0)
round_pings_all p ps l q start n =
    let shuffles = retain-perm is_remote (q.members_perm l.members) in
    let (ms, l', e, order, perm, at) =
      shuffled_round p ps l (remote_members (p.shuffle_members l.members)) start refl
        (n ∙ length-perm shuffles) in
    (ms, l', e, order, Permᴰ.trans perm (perm-symm shuffles), at)
