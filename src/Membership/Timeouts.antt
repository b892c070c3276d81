-- ===== src/Membership/Timeouts.antt =====
-- artillery-core/src/epidemic/membership.rs, `time_out_nodes` and `mark_node_alive`: how the state
-- of a member may change when it does not answer, and when it does.
use mathlib.Core.Option.{some-injective}
use artillery.Base.{
  ◌+◌, ◌<◌, ◌≡◌, refl, ◌⊎◌, inl, inr, ◌≢◌, true, List, [], ◌∷◌, ◌++◌, length, get_elem?, Option,
  none, some, arith, All, any, ◌==◌, Bool-cases, Option-cases, ltb, >>=-eq-some, subst,
  if◌then◌else◌, ℕ, suc, ◌∙◌,
}
use artillery.Member.{
  SocketAddr, DateTime, AddDate, seconds, ArtilleryMemberState, state_change_older_than, alive,
  suspect, down, left, ArtilleryMember, set_state,
}
use artillery.Membership.{
  ArtilleryMemberList, Verdict, judge, judge_host, judge_state, TimedOut, time_out_one,
  time_out_loop, time_out_nodes, keep, suspected, went_down,
}

-- The member answers at a host that is among those expired.
abbrev pub IsExpired : List SocketAddr → ArtilleryMember → Type 0
IsExpired expired_hosts m =
    (h : SocketAddr) × (m.remote_host ≡ some h) × (any (λ a. a == h) expired_hosts ≡ true)

abbrev pub SameIdentity : ArtilleryMember → ArtilleryMember → Type 0
SameIdentity m n =
    (n.host_key ≡ m.host_key)
    × (n.remote_host ≡ m.remote_host)
    × (n.incarnation_number ≡ m.incarnation_number)

-- A member is left as it is, or becomes suspect, or, after three seconds of suspicion, goes down.
abbrev pub Ages : DateTime → List SocketAddr → ArtilleryMember → ArtilleryMember → Type 0
Ages now expired_hosts m n =
    (n ≡ m)
    ⊎ (IsExpired expired_hosts m
        × SameIdentity m n
        × (n.last_state_change ≡ now)
        × (((m.member_state ≡ alive) × (n.member_state ≡ suspect))
            ⊎ ((m.member_state ≡ suspect)
                × (n.member_state ≡ down)
                × (m.last_state_change + seconds 3 < now))))

-- Two lists agree place by place.
abbrev pub Zip {ℓ} : {A : Type ℓ} → (A → A → Type 0) → List A → List A → Type 0
Zip R [] [] = Unit
Zip R [] (y ∷ ys) = ⊥
Zip R (x ∷ xs) [] = ⊥
Zip R (x ∷ xs) (y ∷ ys) = R x y × Zip R xs ys

-- What a verdict rests on.
abbrev pub Grounds : DateTime → List SocketAddr → ArtilleryMember → Verdict → Type 0
Grounds now expired_hosts m keep = Unit
Grounds now expired_hosts m suspected = IsExpired expired_hosts m × (m.member_state ≡ alive)
Grounds now expired_hosts m went_down =
    IsExpired expired_hosts m × (m.member_state ≡ suspect) × (m.last_state_change + seconds 3 < now)

-- The date three seconds after the member's last change is one that chrono has.
abbrev pub IsDatable : AddDate → ArtilleryMember → Type 0
IsDatable add_date m =
    add_date m.last_state_change (seconds 3) ≡ some (m.last_state_change + seconds 3)

pub All-IsDatable :
    (add_date : AddDate) (ms : List ArtilleryMember)
    → ((d : DateTime) → add_date d (seconds 3) ≡ some (d + seconds 3))
    → All (IsDatable add_date) ms
All-IsDatable add_date [] adds = tt
All-IsDatable add_date (m ∷ ms) adds = (adds m.last_state_change, All-IsDatable add_date ms adds)

-- The verdict is given, and rests on its grounds.
abbrev Judged : DateTime → List SocketAddr → ArtilleryMember → Option Verdict → Type 0
Judged now expired_hosts m r = (v : Verdict) × (r ≡ some v) × (Grounds now expired_hosts m v)

judge_state-Judged :
    (add_date : AddDate) (now : DateTime) (expired_hosts : List SocketAddr) (m : ArtilleryMember)
    (state : ArtilleryMemberState)
    → IsDatable add_date m
    → m.member_state ≡ state
    → IsExpired expired_hosts m
    → Judged now expired_hosts m (judge_state add_date now m state)
judge_state-Judged add_date now expired_hosts m alive d e x = (suspected, refl, (x, e))
judge_state-Judged add_date now expired_hosts m suspect d e x =
    rw d (elim (Bool-cases (ltb (m.last_state_change + seconds 3) now)) [
      | inl old ↦ rw old (went_down, refl, (x, e, ground arith))
      | inr young ↦ rw young (keep, refl, tt)
    ])
judge_state-Judged add_date now expired_hosts m down d e x = (keep, refl, tt)
judge_state-Judged add_date now expired_hosts m left d e x = (keep, refl, tt)

judge_host-Judged :
    (add_date : AddDate) (now : DateTime) (expired_hosts : List SocketAddr) (m : ArtilleryMember)
    (host : Option SocketAddr)
    → IsDatable add_date m
    → m.remote_host ≡ host
    → Judged now expired_hosts m (judge_host add_date now expired_hosts m host)
judge_host-Judged add_date now expired_hosts m none d e = (keep, refl, tt)
judge_host-Judged add_date now expired_hosts m (some h) d e =
    elim (Bool-cases (any (λ a. a == h) expired_hosts)) [
      | inl hit ↦
          rw hit (judge_state-Judged add_date now expired_hosts m m.member_state d refl (h, e, hit))
      | inr miss ↦ rw miss (keep, refl, tt)
    ]

judge-Judged :
    (add_date : AddDate) (now : DateTime) (expired_hosts : List SocketAddr) (m : ArtilleryMember)
    → IsDatable add_date m
    → Judged now expired_hosts m (judge add_date now expired_hosts m)
unfolding judge
judge-Judged add_date now expired_hosts m d =
    judge_host-Judged add_date now expired_hosts m m.remote_host d refl

-- What the loop must return for a list of members.
record IsTimedOut (now : DateTime) (expired_hosts : List SocketAddr) (ms : List ArtilleryMember)
    (r : TimedOut) : Type 0 where
  aged : Zip (Ages now expired_hosts) ms r.members
  suspects : All (λ m. m.member_state ≡ suspect) r.suspect_members
  downs : All (λ m. m.member_state ≡ down) r.down_members

changed :
    (now : DateTime) (state : ArtilleryMemberState) (m : ArtilleryMember)
    → m.member_state ≢ state
    → SameIdentity m (set_state now state m)
      × ((set_state now state m).last_state_change ≡ now)
      × ((set_state now state m).member_state ≡ state)
unfolding set_state
changed now state m ne = ground arith

time_out_one-IsTimedOut :
    (now : DateTime) (expired_hosts : List SocketAddr) (m : ArtilleryMember)
    (ms : List ArtilleryMember) (r : TimedOut) (v : Verdict)
    → Grounds now expired_hosts m v
    → IsTimedOut now expired_hosts ms r
    → IsTimedOut now expired_hosts (m ∷ ms) (time_out_one now v m r)
unfolding time_out_one
time_out_one-IsTimedOut now expired_hosts m ms r keep g t = record {
  aged = (inl refl, t.aged);
  suspects = t.suspects;
  downs = t.downs;
}
time_out_one-IsTimedOut now expired_hosts m ms r suspected g t =
    let (same, at, state) = changed now suspect m (λ e. ground arith) in
    record {
      aged = (inr (g.0, same, at, inl (g.1, state)), t.aged);
      suspects = (state, t.suspects);
      downs = t.downs;
    }
time_out_one-IsTimedOut now expired_hosts m ms r went_down g t =
    let (same, at, state) = changed now down m (λ e. ground arith) in
    record {
      aged = (inr (g.0, same, at, inr (g.1, state, g.2)), t.aged);
      suspects = t.suspects;
      downs = (state, t.downs);
    }

time_out_loop-IsTimedOut :
    (add_date : AddDate) (now : DateTime) (expired_hosts : List SocketAddr)
    (ms : List ArtilleryMember)
    → All (IsDatable add_date) ms
    → (r : TimedOut) × (time_out_loop add_date now expired_hosts ms ≡ some r)
      × IsTimedOut now expired_hosts ms r
unfolding time_out_loop
time_out_loop-IsTimedOut add_date now expired_hosts [] h =
    (_, refl, record { aged = tt; suspects = tt; downs = tt })
time_out_loop-IsTimedOut add_date now expired_hosts (m ∷ ms) h =
    let (v, judged, grounds) = judge-Judged add_date now expired_hosts m h.0 in
    let (r, rest, t) = time_out_loop-IsTimedOut add_date now expired_hosts ms h.1 in
    (
      time_out_one now v m r,
      rw judged (rw rest refl),
      time_out_one-IsTimedOut now expired_hosts m ms r v grounds t,
    )

-- A time-out does not panic, provided that chrono has the date three seconds after each member's last
-- change. On it each member keeps its place, its key, its host and its incarnation number; it is left
-- as it is, or its host is among those expired and it goes from alive to suspect, or from suspect to
-- down if it was suspect for more than three seconds; the members returned as suspect are suspect, and
-- those returned as down are down.
pub time_out_nodes-Ages :
    (add_date : AddDate) (now : DateTime) (expired_hosts : List SocketAddr)
    (l : ArtilleryMemberList)
    → All (IsDatable add_date) l.members
    → (suspects : List ArtilleryMember) × (downs : List ArtilleryMember)
      × (l' : ArtilleryMemberList) × (time_out_nodes add_date now expired_hosts l
          ≡ some ((suspects, downs), l'))
      × Zip (Ages now expired_hosts) l.members l'.members
      × All (λ m. m.member_state ≡ suspect) suspects
      × All (λ m. m.member_state ≡ down) downs
unfolding time_out_nodes
time_out_nodes-Ages add_date now expired_hosts l h =
    let (r, e, t) = time_out_loop-IsTimedOut add_date now expired_hosts l.members h in
    (
      r.suspect_members,
      r.down_members,
      record l { members = r.members },
      rw e refl,
      t.aged,
      t.suspects,
      t.downs,
    )

-- The state of a member that is judged so.
abbrev pub Becomes : ArtilleryMember → Verdict → Type 0
Becomes m keep = Unit
Becomes m suspected = m.member_state ≡ alive
Becomes m went_down = m.member_state ≡ suspect

judge_state-Becomes :
    (add_date : AddDate) (now : DateTime) (m : ArtilleryMember) (state : ArtilleryMemberState)
    (v : Verdict)
    → m.member_state ≡ state
    → judge_state add_date now m state ≡ some v
    → Becomes m v
judge_state-Becomes add_date now m alive v e h =
    let q : suspected ≡ v = some-injective _ _ h in subst (Becomes m) q e
judge_state-Becomes add_date now m suspect v e h =
    let (old, _, said) = >>=-eq-some (state_change_older_than add_date now m (seconds 3)) _ h in
    let q = some-injective _ _ said in
    subst (Becomes m) q
      (elim (Bool-cases old) [ inl older ↦ rw older e | inr younger ↦ rw younger tt ])
judge_state-Becomes add_date now m down v e h =
    let q : keep ≡ v = some-injective _ _ h in subst (Becomes m) q tt
judge_state-Becomes add_date now m left v e h =
    let q : keep ≡ v = some-injective _ _ h in subst (Becomes m) q tt

judge_host-Becomes :
    (add_date : AddDate) (now : DateTime) (expired_hosts : List SocketAddr) (m : ArtilleryMember)
    (host : Option SocketAddr) (v : Verdict)
    → judge_host add_date now expired_hosts m host ≡ some v
    → Becomes m v
judge_host-Becomes add_date now expired_hosts m none v h =
    let q : keep ≡ v = some-injective _ _ h in subst (Becomes m) q tt
judge_host-Becomes add_date now expired_hosts m (some a) v h =
    elim (Bool-cases (any (λ b. b == a) expired_hosts)) [
      | inl hit ↦ judge_state-Becomes add_date now m m.member_state v refl (
          subst (λ b. (if b then judge_state add_date now m m.member_state else some keep) ≡ some v)
            hit h)
      | inr miss ↦
          let q : keep ≡ v = some-injective _ _ (
            subst
              (λ b. (if b then judge_state add_date now m m.member_state else some keep) ≡ some v)
              miss h) in
          subst (Becomes m) q tt
    ]

pub judge-Becomes :
    (add_date : AddDate) (now : DateTime) (expired_hosts : List SocketAddr) (m : ArtilleryMember)
    (v : Verdict)
    → judge add_date now expired_hosts m ≡ some v
    → Becomes m v
unfolding judge
judge-Becomes add_date now expired_hosts m v =
    judge_host-Becomes add_date now expired_hosts m m.remote_host v

judge_nobody :
    (add_date : AddDate) (now : DateTime) (m : ArtilleryMember)
    → judge add_date now [] m ≡ some keep
unfolding judge
judge_nobody add_date now m = elim (Option-cases m.remote_host) [
  | inl absent ↦ rw absent refl
  | inr (h, there) ↦ rw there refl
]

pub time_out_nobody :
    (add_date : AddDate) (now : DateTime) (ms : List ArtilleryMember)
    → time_out_loop add_date now [] ms
      ≡ some (record { members = ms; suspect_members = []; down_members = [] })
unfolding time_out_loop time_out_one
time_out_nobody add_date now [] = refl
time_out_nobody add_date now (m ∷ ms) =
    rw (judge_nobody add_date now m) (rw (time_out_nobody add_date now ms) refl)

tail_at :
    (now : DateTime) (v : Verdict) (m : ArtilleryMember) (r : TimedOut) (i : ℕ)
    → get_elem? (time_out_one now v m r).members (suc i) ≡ get_elem? r.members i
unfolding time_out_one
tail_at now keep m r i = refl
tail_at now suspected m r i = refl
tail_at now went_down m r i = refl

-- A member that is judged to be suspect stands, as a suspect, in its place.
pub time_out_loop-at :
    (add_date : AddDate) (now : DateTime) (expired_hosts : List SocketAddr)
    (pre post : List ArtilleryMember) (m : ArtilleryMember) (r : TimedOut)
    → judge add_date now expired_hosts m ≡ some suspected
    → time_out_loop add_date now expired_hosts (pre ++ m ∷ post) ≡ some r
    → get_elem? r.members (length pre) ≡ some (set_state now suspect m)
unfolding time_out_loop time_out_one
time_out_loop-at add_date now hosts [] post m r e goes =
    let (v, judged, goes') = >>=-eq-some (judge add_date now hosts m) _ goes in
    let (rest, _, last) = >>=-eq-some (time_out_loop add_date now hosts post) _ goes' in
    let same : v ≡ suspected = ground arith in
    let whole : time_out_one now v m rest ≡ r = ground arith in rw (← whole) (rw same refl)
time_out_loop-at add_date now hosts (n ∷ pre) post m r e goes =
    let (v, judged, goes') = >>=-eq-some (judge add_date now hosts n) _ goes in
    let (rest, done, last) =
      >>=-eq-some (time_out_loop add_date now hosts (pre ++ m ∷ post)) _ goes' in
    let whole : time_out_one now v n rest ≡ r = ground arith in
    let ih = time_out_loop-at add_date now hosts pre post m rest e done in
    rw (← whole) (tail_at now v n rest (length pre) ∙ ih)
