-- ===== src/Craq/Startup/Waiting/ComesUp.antt =====
-- artillery-ddata/src/craq/node.rs: a chain whose nodes are started in any order comes up, from its tail
-- to its head.
use artillery.Base.{
  ℕ, suc, ◌+◌, ◌≤◌, ◌<◌, ◌≡◌, ◌≢◌, refl, sym, ◌∙◌, inl, inr, true, List, [], ◌∷◌, arith, length,
  All, Bool-cases, ◌==◌, subst, any,
}
use artillery.Craq.Chain.{ChainNode, usize_max}
use artillery.Craq.Startup.Waiting.{Phase, to_tail, serving, wake, wake_all, rounds, all_started}
use artillery.Craq.Startup.Waiting.Attempts.{
  Fine, IsConsistent, Next, wake-serving, wake-Woken, wake-IsConsistent,
}
use artillery.Craq.Startup.Waiting.Connecting.{IsLocal}

-- The last `k` nodes serve, and from the second round on every node has reached the tail.
abbrev Level : ℕ → ℕ → (ℕ → Phase) → Type 0
Level end k phases =
    ((j : ℕ) → j ≤ end → end < j + k → phases j ≡ serving)
    × (2 ≤ k → (j : ℕ) → j ≤ end → phases j ≢ to_tail)

-- What a round brings the node `j`.
abbrev Reaches : ℕ → ℕ → (ℕ → Phase) → ℕ → Type 0
Reaches end k phases j = (end < j + suc k → phases j ≡ serving) × (1 ≤ k → phases j ≢ to_tail)

-- An attempt at level `k` brings the node where the round is to bring it.
Next-Reaches :
    (end k i : ℕ) (phases : ℕ → Phase) (p : Phase)
    → i ≤ end
    → Level end k phases
    → Next end phases i (phases i) p
    → (end < i + suc k → p ≡ serving) × (1 ≤ k → p ≢ to_tail)
Next-Reaches end k i phases p inside (served, left) (inl (is, _)) =
    ((λ _. is), (λ _ e. absurd (cc)))
Next-Reaches end k i phases p inside (served, left) (inr (inl (is, inner, inl (at, far)))) =
    ((λ near. absurd (left (omega (arith, far, near)) i inside at)), (λ _ e. absurd (cc)))
Next-Reaches end k i phases p inside (served, left) (inr (inl (is, inner, inr idle))) = (
  (λ near. let serves = served (suc i) (omega (arith, inner)) (omega (arith, near)) in absurd (cc)),
  (λ _ e. absurd (cc)),
)
Next-Reaches end k i phases p inside (served, left) (inr (inr (is, inner, at, idle))) =
    let up : 1 ≤ k → ⊥ =
      λ low. let serves = served end (omega arith) (omega (arith, low)) in absurd (cc) in
    ((λ near. absurd (up (omega (arith, near, inner)))), (λ low. absurd (up low)))

-- Every node makes an attempt in the round, some perhaps several, in any order.
abbrev pub IsRound : List ChainNode → List ℕ → Type 0
IsRound nodes order =
    All (λ i. i < length nodes) order
    × ((j : ℕ) → j < length nodes → any (λ i. i == j) order ≡ true)

All-map {ℓ κ μ} :
    {A : Type ℓ} {P : A → Type κ} {Q : A → Type μ} (xs : List A)
    → ((x : A) → P x → Q x)
    → All P xs
    → All Q xs
All-map [] f all = tt
All-map (x ∷ xs) f (p, ps) = (f x p, All-map xs f ps)

module _ (first : ChainNode) (behind : List ChainNode) (own : IsLocal (first ∷ behind))
    (small : length (first ∷ behind) ≤ usize_max) where
  -- A node that has reached the tail does not try it again.
  wake-left :
      (phases : ℕ → Phase) (i j : ℕ)
      → i ≤ length behind
      → IsConsistent (length behind) phases
      → phases j ≢ to_tail
      → wake (first ∷ behind) i phases j ≢ to_tail
  wake-left phases i j inside good left e =
      elim (wake-Woken first behind phases i j own small inside good) [
        | inl (_, same) ↦ left (sym same ∙ e)
        | inr (_, inl (p, _)) ↦ absurd (cc)
        | inr (_, inr (inl (p, _, _))) ↦ absurd (cc)
        | inr (here, inr (inr (p, _, at, _))) ↦ left (subst (λ x. phases x ≡ to_tail) (sym here) at)
      ]

  wake-Level :
      (phases : ℕ → Phase) (k i : ℕ)
      → i ≤ length behind
      → IsConsistent (length behind) phases
      → Level (length behind) k phases
      → Level (length behind) k (wake (first ∷ behind) i phases)
  wake-Level phases k i inside good (served, left) = (
    (λ j within near. wake-serving (first ∷ behind) i j phases (served j within near)),
    (λ low j within. wake-left phases i j inside good (left low j within)),
  )

  wake-Reaches :
      (phases : ℕ → Phase) (k i j : ℕ)
      → i ≤ length behind
      → IsConsistent (length behind) phases
      → Reaches (length behind) k phases j
      → Reaches (length behind) k (wake (first ∷ behind) i phases) j
  wake-Reaches phases k i j inside good (served, left) = (
    (λ near. wake-serving (first ∷ behind) i j phases (served near)),
    (λ low. wake-left phases i j inside good (left low)),
  )

  -- The attempt of the node itself.
  wake-arrives :
      (phases : ℕ → Phase) (k i : ℕ)
      → i ≤ length behind
      → IsConsistent (length behind) phases
      → Level (length behind) k phases
      → Reaches (length behind) k (wake (first ∷ behind) i phases) i
  wake-arrives phases k i inside good level =
      elim (wake-Woken first behind phases i i own small inside good) [
        | inl (other, _) ↦ absurd (other refl)
        | inr (_, next) ↦
            Next-Reaches (length behind) k i phases (wake (first ∷ behind) i phases i) inside level
              next
      ]

  wake_all-IsConsistent :
      (order : List ℕ) (phases : ℕ → Phase)
      → All (λ i. i ≤ length behind) order
      → IsConsistent (length behind) phases
      → IsConsistent (length behind) (wake_all (first ∷ behind) order phases)
  unfolding wake_all
  wake_all-IsConsistent [] phases all good = good
  wake_all-IsConsistent (i ∷ order) phases (inside, all) good =
      wake_all-IsConsistent order (wake (first ∷ behind) i phases) all
        (wake-IsConsistent first behind phases i own small inside good)

  wake_all-keeps :
      (order : List ℕ) (phases : ℕ → Phase) (k j : ℕ)
      → All (λ i. i ≤ length behind) order
      → IsConsistent (length behind) phases
      → Reaches (length behind) k phases j
      → Reaches (length behind) k (wake_all (first ∷ behind) order phases) j
  unfolding wake_all
  wake_all-keeps [] phases k j all good reached = reached
  wake_all-keeps (i ∷ order) phases k j (inside, all) good reached =
      wake_all-keeps order (wake (first ∷ behind) i phases) k j all
        (wake-IsConsistent first behind phases i own small inside good)
        (wake-Reaches phases k i j inside good reached)

  -- A round brings every node that makes an attempt in it where it is to bring it.
  wake_all-Reaches :
      (order : List ℕ) (phases : ℕ → Phase) (k j : ℕ)
      → All (λ i. i ≤ length behind) order
      → any (λ i. i == j) order ≡ true
      → IsConsistent (length behind) phases
      → Level (length behind) k phases
      → Reaches (length behind) k (wake_all (first ∷ behind) order phases) j
  unfolding wake_all
  wake_all-Reaches [] phases k j all visited good level = cc
  wake_all-Reaches (i ∷ order) phases k j (inside, all) visited good level =
      let woken = wake (first ∷ behind) i phases in
      let good' = wake-IsConsistent first behind phases i own small inside good in
      elim (Bool-cases (i == j)) [
        | inl same ↦
            let here : i ≡ j = ground (arith, same) in
            wake_all-keeps order woken k j all good' (
              subst (Reaches (length behind) k woken) here
                (wake-arrives phases k i inside good level))
        | inr other ↦
            wake_all-Reaches order woken k j all (ground (arith, other, visited)) good'
              (wake-Level phases k i inside good level)
      ]

  rounds-Level :
      (orders : List (List ℕ)) (phases : ℕ → Phase) (k : ℕ)
      → All (IsRound (first ∷ behind)) orders
      → IsConsistent (length behind) phases
      → Level (length behind) k phases
      → Level (length behind) (length orders + k) (rounds (first ∷ behind) orders phases)
  unfolding rounds
  rounds-Level [] phases k all good level =
      subst (λ n. Level (length behind) n phases) (omega arith) level
  rounds-Level (order ∷ orders) phases k ((inside, visits), all) good level =
      let nodes = first ∷ behind in
      let within : All (λ i. i ≤ length behind) order =
        All-map order (λ i lt. omega (arith, lt)) inside in
      let after : (j : ℕ)
          → j ≤ length behind
          → Reaches (length behind) k (wake_all nodes order phases) j =
        λ j low.
          wake_all-Reaches order phases k j within (visits j (omega (arith, low))) good level in
      let more : Level (length behind) (suc k) (wake_all nodes order phases) = (
        (λ j low near. (after j low).0 (omega (arith, near))),
        (λ two j low. (after j low).1 (omega (arith, two))),
      ) in
      subst (λ n. Level (length behind) n (rounds nodes orders (wake_all nodes order phases)))
        (omega arith)
        (rounds-Level orders (wake_all nodes order phases) (suc k) all
          (wake_all-IsConsistent order phases within good) more)

-- A chain comes up however its nodes are scheduled: when all nodes are started, and each makes at
-- least one attempt to connect in each of as many rounds as there are nodes, in any order and any
-- number of times, then every node serves, given that all are on one machine, known by its loopback
-- address, have ports of their own, and are no more than a `usize` counts.
pub comes_up :
    (nodes : List ChainNode) (orders : List (List ℕ)) (i : ℕ)
    → IsLocal nodes
    → length nodes ≤ usize_max
    → All (IsRound nodes) orders
    → length nodes ≤ length orders
    → i < length nodes
    → rounds nodes orders all_started i ≡ serving
comes_up [] orders i own small all enough inside = absurd (omega (arith, inside))
comes_up (first ∷ behind) orders i own small all enough inside =
    let nothing : Level (length behind) 0 all_started = (
      (λ j within near. absurd (omega (arith, within, near))),
      (λ two. absurd (omega (arith, two))),
    ) in
    let level =
      rounds-Level first behind own small orders all_started 0 all (λ j within. tt) nothing in
    level.0 i (omega (arith, inside)) (omega (arith, inside, enough))

-- A node that serves has the whole chain behind it: whatever attempts the nodes of a chain have made,
-- in any order, since all were started, every node behind one that serves serves as well, given that
-- all are on one machine, known by its loopback address, have ports of their own, and are no more than
-- a `usize` counts.
pub wake_all-behind :
    (nodes : List ChainNode) (order : List ℕ) (i j : ℕ)
    → IsLocal nodes
    → length nodes ≤ usize_max
    → All (λ k. k < length nodes) order
    → i ≤ j
    → j < length nodes
    → wake_all nodes order all_started i ≡ serving
    → wake_all nodes order all_started j ≡ serving
wake_all-behind [] order i j own small all after within serves = absurd (omega (arith, within))
wake_all-behind (first ∷ behind) order i j own small all after within serves =
    let phases = wake_all (first ∷ behind) order all_started in
    let good =
      wake_all-IsConsistent first behind own small order all_started
        (All-map order (λ k lt. omega (arith, lt)) all) (λ k inside. tt) in
    subst (Fine (length behind) phases i) serves (good i (omega (arith, after, within))) j after
      (omega (arith, within))
