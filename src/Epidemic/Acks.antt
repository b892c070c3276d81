-- ===== src/Epidemic/Acks.antt =====
-- artillery-core/src/epidemic/state.rs, `ack_response`: what an answer settles.
use mathlib.Core.List.{append_assoc, append-nil}
use artillery.Base.{
  ◌≡◌, refl, ap, ◌∙◌, inl, inr, Bool, true, false, not, ◌&&◌, ◌||◌, List, [], ◌∷◌, ◌++◌, Option,
  none, some, arith, All, any, retain, ◌==◌, ==-refl, if◌then◌else◌, Bool-cases,
}
use artillery.Member.{SocketAddr, ArtilleryMember, ArtilleryStateChange, same_state}
use artillery.Epidemic.{Pending, ArtilleryEpidemic}
use artillery.Epidemic.Messages.{
  same_key, same_host, same_member, same_changes, same_pending, unacknowledged, ack_loop,
  ack_response,
}

same_state_refl : (m : ArtilleryMember) → same_state m.member_state m.member_state ≡ true
same_state_refl m = ground arith

same_host_refl : (h : Option SocketAddr) → same_host h h ≡ true
same_host_refl none = refl
same_host_refl (some a) = ==-refl a

same_member_refl : (m : ArtilleryMember) → same_member m m ≡ true
same_member_refl m =
    rw
      (
        ==-refl m.host_key,
        same_host_refl m.remote_host,
        ==-refl m.incarnation_number,
        same_state_refl m,
        ==-refl m.last_state_change,
      )
      refl

same_changes_refl : (cs : List ArtilleryStateChange) → same_changes cs cs ≡ true
same_changes_refl [] = refl
same_changes_refl (c ∷ cs) = rw (same_member_refl c.member, same_changes_refl cs) refl

same_pending_refl : (p : Pending) → same_pending p p ≡ true
same_pending_refl p =
    rw (==-refl p.deadline, ==-refl p.host, same_changes_refl p.state_changes) refl

-- The answer is to a message that carried the change.
abbrev pub is_carried : SocketAddr → List Pending → ArtilleryStateChange → Bool
is_carried src_addr ps c =
    any (λ p. p.host == src_addr && any (same_key c.member) p.state_changes) ps

module _ {ℓ} {A : Type ℓ} where
  retain-retain :
      (p q : A → Bool) (xs : List A) → retain p (retain q xs) ≡ retain (λ x. q x && p x) xs
  retain-retain p q [] = refl
  retain-retain p q (x ∷ xs) = ground (arith, retain-retain p q xs)

  retain-congr :
      (p q : A → Bool) (xs : List A) → All (λ x. p x ≡ q x) xs → retain p xs ≡ retain q xs
  retain-congr p q [] h = refl
  retain-congr p q (x ∷ xs) h = ground (arith, h.0, retain-congr p q xs h.1)

  retain_all : (p : A → Bool) (xs : List A) → ((x : A) → p x ≡ true) → retain p xs ≡ xs
  retain_all p [] h = refl
  retain_all p (x ∷ xs) h = rw (h x) (ap (λ t. x ∷ t) (retain_all p xs h))

  All-of : {P : A → Type 0} → ((x : A) → P x) → (xs : List A) → All P xs
  All-of f [] = tt
  All-of f (x ∷ xs) = (f x, All-of f xs)

  All-map : {P Q : A → Type 0} → ((x : A) → P x → Q x) → (xs : List A) → All P xs → All Q xs
  All-map f [] h = tt
  All-map f (x ∷ xs) h = (f x h.0, All-map f xs h.1)

-- The entries for the host that answers.
abbrev of_host : SocketAddr → List Pending → List Pending
of_host src_addr = retain (λ p. p.host == src_addr)

retain_carried :
    (src_addr : SocketAddr) (p : Pending) (ps : List Pending) (cs : List ArtilleryStateChange)
    → retain
        (λ c. not (is_carried src_addr ps c))
        (if p.host == src_addr then unacknowledged p.state_changes cs else cs)
      ≡ retain (λ c. not (is_carried src_addr (p ∷ ps) c)) cs
retain_carried src_addr p ps cs = elim (Bool-cases (p.host == src_addr)) [
  | inl answers ↦ rw answers (
      retain-retain (λ c. not (is_carried src_addr ps c))
        (λ c. not (any (same_key c.member) p.state_changes)) cs
      ∙ retain-congr
          (λ c. not (any (same_key c.member) p.state_changes) && not (is_carried src_addr ps c))
          (λ c. not (any (same_key c.member) p.state_changes || is_carried src_addr ps c)) cs
          (All-of (λ c. ground arith) cs))
  | inr other ↦ rw other refl
]

removed :
    (src_addr : SocketAddr) (p : Pending) (ps to_remove : List Pending)
    → (if p.host == src_addr then to_remove ++ p ∷ [] else to_remove) ++ of_host src_addr ps
      ≡ to_remove ++ of_host src_addr (p ∷ ps)
removed src_addr p ps to_remove = elim (Bool-cases (p.host == src_addr)) [
  | inl answers ↦ rw answers (append_assoc to_remove (p ∷ []) (of_host src_addr ps))
  | inr other ↦ rw other refl
]

pair_path {ℓ κ} :
    {A : Type ℓ} {B : Type κ} {a a' : A} {b b' : B}
    → a ≡ a'
    → b ≡ b'
    → ◌≡◌ {A = A × B} (a, b) (a', b')
pair_path e f = rw (e, f) refl

ack_loop_lem :
    (src_addr : SocketAddr) (ps to_remove : List Pending) (cs : List ArtilleryStateChange)
    → ack_loop src_addr ps to_remove cs
      ≡ (to_remove ++ of_host src_addr ps, retain (λ c. not (is_carried src_addr ps c)) cs)
unfolding ack_loop
ack_loop_lem src_addr [] to_remove cs =
    rw (append-nil to_remove, retain_all (λ c. not (is_carried src_addr [] c)) cs (λ c. refl)) refl
ack_loop_lem src_addr (p ∷ ps) to_remove cs =
    ack_loop_lem src_addr ps (if p.host == src_addr then to_remove ++ p ∷ [] else to_remove)
      (if p.host == src_addr then unacknowledged p.state_changes cs else cs)
    ∙ pair_path (removed src_addr p ps to_remove) (retain_carried src_addr p ps cs)

none_of_host :
    (src_addr : SocketAddr) (op : Pending) (ps : List Pending)
    → (op.host == src_addr) ≡ false
    → any (λ ip. same_pending ip op) (of_host src_addr ps) ≡ false
none_of_host src_addr op [] other = refl
none_of_host src_addr op (p ∷ ps) other = elim (Bool-cases (p.host == src_addr)) [
  | inl answers ↦
      let differ : same_pending p op ≡ false = ground arith in
      rw answers (rw differ (none_of_host src_addr op ps other))
  | inr also ↦ rw also (none_of_host src_addr op ps other)
]

abbrev Found : SocketAddr → List Pending → Pending → Type 0
Found src_addr ps op =
    (op.host == src_addr) ≡ true → any (λ ip. same_pending ip op) (of_host src_addr ps) ≡ true

Found-cons :
    (src_addr : SocketAddr) (p : Pending) (ps : List Pending) (op : Pending)
    → Found src_addr ps op
    → Found src_addr (p ∷ ps) op
Found-cons src_addr p ps op found answers = elim (Bool-cases (p.host == src_addr)) [
  | inl too ↦ rw too (ground (arith, found answers))
  | inr other ↦ rw other (found answers)
]

own_of_host : (src_addr : SocketAddr) (ps : List Pending) → All (Found src_addr ps) ps
own_of_host src_addr [] = tt
own_of_host src_addr (p ∷ ps) = (
  λ answers. rw answers (rw (same_pending_refl p) refl),
  All-map (Found-cons src_addr p ps) ps (own_of_host src_addr ps),
)

-- An entry for the host is found among those for the host, and no other is.
found_of_host :
    (src_addr : SocketAddr) (ps : List Pending)
    → All (λ op. any (λ ip. same_pending ip op) (of_host src_addr ps) ≡ (op.host == src_addr)) ps
found_of_host src_addr ps =
    All-map
      (λ op found. elim (Bool-cases (op.host == src_addr)) [
        | inl answers ↦ rw answers (found answers)
        | inr other ↦ rw other (none_of_host src_addr op ps other)
      ])
      ps (own_of_host src_addr ps)

-- An answer removes exactly the entries of the host that answers, and exactly those of the node's
-- changes whose member is among the changes that one of these entries carried.
pub ack_response_lem :
    (src_addr : SocketAddr) (s : ArtilleryEpidemic)
    → ack_response src_addr s ≡ record s {
      pending_responses = retain (λ p. not (p.host == src_addr)) s.pending_responses;
      state_changes = retain (λ c. not (is_carried src_addr s.pending_responses c)) s.state_changes;
    }
unfolding ack_response
ack_response_lem src_addr s =
    let kept =
      retain-congr
        (λ op. not (any (λ ip. same_pending ip op) (of_host src_addr s.pending_responses)))
        (λ op. not (op.host == src_addr)) s.pending_responses
        (All-map (λ op e. ap not e) s.pending_responses
          (found_of_host src_addr s.pending_responses)) in
    rw (ack_loop_lem src_addr s.pending_responses [] s.state_changes) (rw kept refl)
