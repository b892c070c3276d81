-- ===== src/Epidemic/Queue.antt =====
-- artillery-core/src/epidemic/state.rs, `enqueue_state_change`: the changes that a node has still to
-- tell of.
use mathlib.Core.List.{append-nil, append_assoc}
use artillery.Base.{
  ◌≡◌, refl, ◌∙◌, inl, inr, true, false, List, [], ◌∷◌, ◌++◌, some, arith, any, any-append, find,
  ◌==◌, Bool-cases, map, ap, sym, subst,
}
use artillery.Member.{ArtilleryMember, ArtilleryStateChange}
use artillery.Epidemic.Messages.{same_key, update_change, enqueue_state_change}

abbrev pub change : ArtilleryMember → ArtilleryStateChange
change m = record { member = m }

-- Of none of the members is there a change when its turn comes.
abbrev pub AllNew : List ArtilleryStateChange → List ArtilleryMember → Type 0
AllNew cs [] = Unit
AllNew cs (n ∷ ns) = (any (same_key n) cs ≡ false) × AllNew (cs ++ change n ∷ []) ns

-- A node announces the members that it has no change for yet, up to the first one that it has a change
-- for: to the queue the changes of those before that one are added in order, then that one's change is
-- replaced, and the members behind it are dropped.
pub enqueue_state_change-drops :
    (state_changes : List ArtilleryStateChange) (before after : List ArtilleryMember)
    (m : ArtilleryMember)
    → AllNew state_changes before
    → any (same_key m) (state_changes ++ map change before) ≡ true
    → enqueue_state_change state_changes (before ++ m ∷ after)
      ≡ update_change m (state_changes ++ map change before)
unfolding enqueue_state_change
enqueue_state_change-drops cs [] after m new h =
    let here : any (same_key m) cs ≡ true =
      subst (λ t. any (same_key m) t ≡ true) (append-nil cs) h in
    rw here (ap (update_change m) (sym (append-nil cs)))
enqueue_state_change-drops cs (n ∷ before) after m (new, rest) h =
    let shape = append_assoc cs (change n ∷ []) (map change before) in
    rw new (
      enqueue_state_change-drops (cs ++ change n ∷ []) before after m rest
        (subst (λ t. any (same_key m) t ≡ true) (sym shape) h)
      ∙ ap (update_change m) shape)

-- No two changes are on the same member.
abbrev pub HasUniqueKeys : List ArtilleryStateChange → Type 0
HasUniqueKeys [] = Unit
HasUniqueKeys (c ∷ cs) = (any (same_key c.member) cs ≡ false) × HasUniqueKeys cs

update_change-any :
    (m n : ArtilleryMember) (cs : List ArtilleryStateChange)
    → any (same_key m) (update_change n cs) ≡ any (same_key m) cs
unfolding update_change
update_change-any m n [] = refl
update_change-any m n (c ∷ cs) = ground (arith, update_change-any m n cs)

any-same_key :
    (m n : ArtilleryMember) (cs : List ArtilleryStateChange)
    → m.host_key ≡ n.host_key
    → any (same_key m) cs ≡ any (same_key n) cs
any-same_key m n cs e = rw e refl

update_change-HasUniqueKeys :
    (m : ArtilleryMember) (cs : List ArtilleryStateChange)
    → HasUniqueKeys cs
    → HasUniqueKeys (update_change m cs)
unfolding update_change
update_change-HasUniqueKeys m [] u = tt
update_change-HasUniqueKeys m (c ∷ cs) u = elim (Bool-cases (same_key m c)) [
  | inl same ↦ rw same (any-same_key m c.member cs (ground arith) ∙ u.0, u.1)
  | inr other ↦
      rw other (update_change-any c.member m cs ∙ u.0, update_change-HasUniqueKeys m cs u.1)
]

append-HasUniqueKeys :
    (m : ArtilleryMember) (cs : List ArtilleryStateChange)
    → any (same_key m) cs ≡ false
    → HasUniqueKeys cs
    → HasUniqueKeys (cs ++ record { member = m } ∷ [])
append-HasUniqueKeys m [] new u = (refl, tt)
append-HasUniqueKeys m (c ∷ cs) new u = (
  any-append (same_key c.member) cs (record { member = m } ∷ []) ∙ ground (arith, u.0),
  append-HasUniqueKeys m cs (ground arith) u.1,
)

-- A queue that holds at most one change for each member still does after any members are enqueued.
pub enqueue_state_change-HasUniqueKeys :
    (state_changes : List ArtilleryStateChange) (members : List ArtilleryMember)
    → HasUniqueKeys state_changes
    → HasUniqueKeys (enqueue_state_change state_changes members)
unfolding enqueue_state_change
enqueue_state_change-HasUniqueKeys cs [] u = u
enqueue_state_change-HasUniqueKeys cs (m ∷ ms) u = elim (Bool-cases (any (same_key m) cs)) [
  | inl known ↦ rw known (update_change-HasUniqueKeys m cs u)
  | inr new ↦ rw new (
      enqueue_state_change-HasUniqueKeys (cs ++ record { member = m } ∷ []) ms
        (append-HasUniqueKeys m cs new u))
]

find-update_change :
    (m : ArtilleryMember) (cs : List ArtilleryStateChange)
    → any (same_key m) cs ≡ true
    → find (same_key m) (update_change m cs) ≡ some (record { member = m })
unfolding update_change
find-update_change m [] h = cc
find-update_change m (c ∷ cs) h = elim (Bool-cases (same_key m c)) [
  | inl same ↦ let own : (m.host_key == m.host_key) ≡ true = ground arith in rw same (rw own refl)
  | inr other ↦ rw other (rw other (find-update_change m cs (ground arith)))
]

find-append_one :
    (m : ArtilleryMember) (cs : List ArtilleryStateChange)
    → any (same_key m) cs ≡ false
    → find (same_key m) (cs ++ record { member = m } ∷ []) ≡ some (record { member = m })
find-append_one m [] h = let own : (m.host_key == m.host_key) ≡ true = ground arith in rw own refl
find-append_one m (c ∷ cs) h =
    let other : same_key m c ≡ false = ground arith in
    rw other (find-append_one m cs (ground arith))

-- A member that is enqueued alone is what the queue then says of it: the first change with its key
-- is the member as it is now, whether or not there was one before.
pub find-enqueue_state_change :
    (state_changes : List ArtilleryStateChange) (m : ArtilleryMember)
    → find (same_key m) (enqueue_state_change state_changes (m ∷ [])) ≡ some (record { member = m })
unfolding enqueue_state_change
find-enqueue_state_change cs m = elim (Bool-cases (any (same_key m) cs)) [
  | inl known ↦ rw known (find-update_change m cs known)
  | inr new ↦ rw new (find-append_one m cs new)
]
