-- ===== src/Craq/Startup/Waiting/Attempts.antt =====
-- artillery-ddata/src/craq/node.rs, `connect_to_first`: what one attempt of a node comes to.
use artillery.Base.{
  ℕ, suc, ◌≤◌, ◌<◌, ◌≡◌, ◌≢◌, refl, sym, ◌⊎◌, inl, inr, false, List, ◌∷◌, arith, length, Bool-cases,
  ◌==◌, subst,
}
use artillery.Craq.Chain.{ChainNode, usize_max}
use artillery.Craq.Startup.Waiting.{
  Phase, to_tail, to_successor, serving, stuck, is_serving, attempt, answers, wake,
}
use artillery.Craq.Startup.Waiting.Connecting.{IsLocal, attempt-FromTail, attempt-FromSuccessor}

-- The chain is consistent: behind a node that serves all serve, and nobody is stuck.
abbrev pub Fine : ℕ → (ℕ → Phase) → ℕ → Phase → Type 0
Fine end phases i serving = (j : ℕ) → i ≤ j → j ≤ end → phases j ≡ serving
Fine end phases i to_successor = i < end
Fine end phases i to_tail = Unit
Fine end phases i stuck = ⊥

abbrev pub IsConsistent : ℕ → (ℕ → Phase) → Type 0
IsConsistent end phases = (i : ℕ) → i ≤ end → Fine end phases i (phases i)

nat_split : (j k : ℕ) → j ≤ k → (j ≡ k) ⊎ (j < k)
nat_split j k le = elim (Bool-cases (j == k)) [
  | inl same ↦ inl (ground (arith, same))
  | inr other ↦ inr (ground (arith, other, le))
]

-- What an attempt of the node `i`, which is in phase `q`, comes to.
abbrev pub Next : ℕ → (ℕ → Phase) → ℕ → Phase → Phase → Type 0
Next end phases i q p =
    ((p ≡ serving) × ((j : ℕ) → i < j → j ≤ end → phases j ≡ serving))
    ⊎ ((p ≡ to_successor)
        × (i < end)
        × (((q ≡ to_tail) × (suc i < end)) ⊎ (is_serving (phases (suc i)) ≡ false)))
    ⊎ ((p ≡ to_tail) × (i < end) × (q ≡ to_tail) × (is_serving (phases end) ≡ false))

attempt-Next :
    (first : ChainNode) (behind : List ChainNode) (phases : ℕ → Phase) (i : ℕ) (q : Phase)
    → IsLocal (first ∷ behind)
    → length (first ∷ behind) ≤ usize_max
    → i ≤ length behind
    → IsConsistent (length behind) phases
    → Fine (length behind) phases i q
    → Next (length behind) phases i q (
        attempt
          (answers (first ∷ behind) 0 phases)
          (record { nodes = first ∷ behind; node_idx = i })
          q)
unfolding attempt
attempt-Next first behind phases i stuck own small inside good fine = absurd fine
attempt-Next first behind phases i serving own small inside good fine =
    inl (refl, λ j after within. fine j (omega (arith, after)) within)
attempt-Next first behind phases i to_successor own small inside good fine =
    elim (attempt-FromSuccessor (first ∷ behind) phases i own (omega (arith, fine)) small) [
      | inl (serves, p) ↦ inl (
        p,
        λ j after within.
            subst (Fine (length behind) phases (suc i)) serves (good (suc i) (omega (arith, fine)))
              j (omega (arith, after)) within,
      )
      | inr (idle, p) ↦ inr (inl (p, fine, inr idle))
    ]
attempt-Next first behind phases i to_tail own small inside good fine =
    elim (attempt-FromTail first behind phases i own inside) [
      | inl (same, p) ↦ inl (p, λ j after within. absurd (omega (arith, same, after, within)))
      | inr (inl (more, idle, p)) ↦ inr (inr (p, more, refl, idle))
      | inr (inr (inl (near, serves, p))) ↦ inl (
        p,
        λ j after within.
            subst (λ k. phases k ≡ serving) (omega (arith, near, after, within)) serves,
      )
      | inr (inr (inr (far, serves, p))) ↦ inr (inl (p, omega (arith, far), inl (refl, far)))
    ]

-- A node that serves goes on to serve.
pub wake-serving :
    (nodes : List ChainNode) (i j : ℕ) (phases : ℕ → Phase)
    → phases j ≡ serving
    → wake nodes i phases j ≡ serving
unfolding wake attempt
wake-serving nodes i j phases serves = elim (Bool-cases (j == i)) [
  | inr other ↦ rw other serves
  | inl same ↦
      let here : phases i ≡ serving =
        subst (λ k. phases k ≡ serving) (ground (arith, same)) serves in
      rw same (rw here refl)
]

Fine-mono :
    (end : ℕ) (phases phases' : ℕ → Phase) (i : ℕ) (p : Phase)
    → ((j : ℕ) → phases j ≡ serving → phases' j ≡ serving)
    → Fine end phases i p
    → Fine end phases' i p
Fine-mono end phases phases' i serving more fine = λ j after within. more j (fine j after within)
Fine-mono end phases phases' i to_successor more fine = fine
Fine-mono end phases phases' i to_tail more fine = tt
Fine-mono end phases phases' i stuck more fine = fine

-- What a node is after the node `i` has made its attempt.
abbrev pub Woken : ℕ → (ℕ → Phase) → (ℕ → Phase) → ℕ → ℕ → Type 0
Woken end phases phases' i j =
    ((j ≢ i) × (phases' j ≡ phases j)) ⊎ ((j ≡ i) × Next end phases i (phases i) (phases' j))

pub wake-Woken :
    (first : ChainNode) (behind : List ChainNode) (phases : ℕ → Phase) (i j : ℕ)
    → IsLocal (first ∷ behind)
    → length (first ∷ behind) ≤ usize_max
    → i ≤ length behind
    → IsConsistent (length behind) phases
    → Woken (length behind) phases (wake (first ∷ behind) i phases) i j
unfolding wake
wake-Woken first behind phases i j own small inside good = elim (Bool-cases (j == i)) [
  | inr other ↦ inl (ground (arith, other), rw other refl)
  | inl same ↦
      let next =
        attempt-Next first behind phases i (phases i) own small inside good (good i inside) in
      inr (ground (arith, same), rw same next)
]

pub wake-IsConsistent :
    (first : ChainNode) (behind : List ChainNode) (phases : ℕ → Phase) (i : ℕ)
    → IsLocal (first ∷ behind)
    → length (first ∷ behind) ≤ usize_max
    → i ≤ length behind
    → IsConsistent (length behind) phases
    → IsConsistent (length behind) (wake (first ∷ behind) i phases)
wake-IsConsistent first behind phases i own small inside good j within =
    let end = length behind in
    let phases' = wake (first ∷ behind) i phases in
    let more : (k : ℕ) → phases k ≡ serving → phases' k ≡ serving =
      λ k. wake-serving (first ∷ behind) i k phases in
    elim (wake-Woken first behind phases i j own small inside good) [
      | inl (_, same) ↦
          subst (Fine end phases' j) (sym same)
            (Fine-mono end phases phases' j (phases j) more (good j within))
      | inr (same, inl (p, served)) ↦ subst (Fine end phases' j) (sym p) (λ k after up_to.
          elim (nat_split j k after) [
            | inl here ↦ subst (λ x. phases' x ≡ serving) here p
            | inr behind_it ↦ more k (served k (omega (arith, same, behind_it)) up_to)
          ])
      | inr (same, inr (inl (p, inner, _))) ↦
          subst (Fine end phases' j) (sym p) (omega (arith, same, inner))
      | inr (same, inr (inr (p, _, _, _))) ↦ subst (Fine end phases' j) (sym p) tt
    ]
