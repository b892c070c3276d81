-- ===== src/Craq/Startup/Waiting/Connecting.antt =====
-- artillery-ddata/src/craq/node.rs, `connect_to_first`: what one call of it comes to.
use Prim.Native.Nat.{min}
use mathlib.Core.Option.{some-injective}
use artillery.Base.{
  ℕ, zero, suc, ◌+◌, ◌≤◌, ◌<◌, ◌≡◌, refl, sym, ap, ◌∙◌, ◌⊎◌, inl, inr, true, false, List, [], ◌∷◌,
  some, arith, length, get_elem?, Bool-cases, ◌==◌, ◌&&◌, subst,
}
use artillery.Craq.Chain.{ChainNode, CraqChain, is_tail, get_tail, get_successor, usize_max, last}
use artillery.Craq.Startup.{before_tail}
use artillery.Craq.Startup.FirstWrite.{get_tail_total, get_successor_total}
use artillery.Craq.Startup.Waiting.{
  Phase, to_tail, to_successor, serving, stuck, is_serving, attempt, answers, server_addr,
}

-- The nodes of a chain are on one machine, known by its loopback address, each with a port of its own.
abbrev pub IsLocal : List ChainNode → Type 0
IsLocal nodes =
    ((i j : ℕ) (m n : ChainNode)
      → get_elem? nodes i ≡ some m
      → get_elem? nodes j ≡ some n
      → m.host ≡ n.host
      → i ≡ j)
    × ((i : ℕ) (n : ChainNode) → get_elem? nodes i ≡ some n → server_addr n ≡ n.host)

-- A server that answers at an address is that of a node that serves.
pub answers-serving :
    (nodes : List ChainNode) (base : ℕ) (phases : ℕ → Phase) (a : ℕ)
    → answers nodes base phases a ≡ true
    → (i : ℕ) × (n : ChainNode) × (get_elem? nodes i ≡ some n)
      × (server_addr n ≡ a)
      × (is_serving (phases (base + i)) ≡ true)
answers-serving [] base phases a h = cc
answers-serving (m ∷ nodes) base phases a h =
    elim (Bool-cases (server_addr m == a && is_serving (phases base))) [
      | inl here ↦
          let base_zero : base ≡ base + 0 = omega arith in
          (
            0,
            m,
            refl,
            ground (arith, here),
            subst (λ k. is_serving (phases k) ≡ true) base_zero (ground (arith, here)),
          )
      | inr there ↦
          let (i, n, at, same, serves) =
            answers-serving nodes (suc base) phases a (ground (arith, there, h)) in
          let shift : suc base + i ≡ base + suc i = omega arith in
          (suc i, n, at, same, subst (λ k. is_serving (phases k) ≡ true) shift serves)
    ]

serving-answers :
    (nodes : List ChainNode) (base i : ℕ) (phases : ℕ → Phase) (n : ChainNode)
    → get_elem? nodes i ≡ some n
    → phases (base + i) ≡ serving
    → answers nodes base phases (server_addr n) ≡ true
serving-answers [] base i phases n at serves = cc
serving-answers (m ∷ nodes) base zero phases n at serves =
    let same : server_addr m ≡ server_addr n = ap server_addr (some-injective m n at) in
    let base_zero : base + 0 ≡ base = omega arith in
    let here : is_serving (phases base) ≡ true =
      ap is_serving (subst (λ k. phases k ≡ serving) base_zero serves) in
    ground (arith, same, here)
serving-answers (m ∷ nodes) base (suc i) phases n at serves =
    let shift : base + suc i ≡ suc base + i = omega arith in
    let rest =
      serving-answers nodes (suc base) i phases n at
        (subst (λ k. phases k ≡ serving) shift serves) in
    ground (arith, rest)

pub last-get_elem? :
    (n : ChainNode) (nodes : List ChainNode)
    → last (n ∷ nodes) ≡ get_elem? (n ∷ nodes) (length nodes)
last-get_elem? n [] = refl
last-get_elem? n (m ∷ nodes) = last-get_elem? m nodes

is_serving-serving : (p : Phase) → is_serving p ≡ true → p ≡ serving
is_serving-serving serving e = refl
is_serving-serving to_tail e = cc
is_serving-serving to_successor e = cc
is_serving-serving stuck e = cc

-- The server of the node `k` answers exactly when the node serves.
Reached : List ChainNode → (ℕ → Phase) → ℕ → ℕ → Type 0
Reached nodes phases a k =
    ((answers nodes 0 phases a ≡ true) × (phases k ≡ serving))
    ⊎ ((answers nodes 0 phases a ≡ false) × (is_serving (phases k) ≡ false))

reach :
    (nodes : List ChainNode) (phases : ℕ → Phase) (k : ℕ) (n : ChainNode)
    → IsLocal nodes
    → get_elem? nodes k ≡ some n
    → Reached nodes phases n.host k
unfolding Reached
reach nodes phases k n own at = elim (Bool-cases (answers nodes 0 phases n.host)) [
  | inl hit ↦
      let (i, m, at', same, serves) = answers-serving nodes 0 phases n.host hit in
      let index : 0 + i ≡ k = omega (arith, own.0 i k m n at' at (sym (own.1 i m at') ∙ same)) in
      inl (
        hit,
        is_serving-serving (phases k) (subst (λ j. is_serving (phases j) ≡ true) index serves),
      )
  | inr miss ↦ inr (
    miss,
    elim (Bool-cases (is_serving (phases k))) [
      | inr idle ↦ idle
      | inl serves ↦
          let same : k ≡ 0 + k = omega arith in
          let up =
            serving-answers nodes 0 k phases n at
              (subst (λ j. phases j ≡ serving) same (is_serving-serving (phases k) serves)) in
          let heard : answers nodes 0 phases n.host ≡ true =
            ap (answers nodes 0 phases) (sym (own.1 k n at)) ∙ up in
          absurd (cc)
    ],
  )
]

-- What becomes of a node that tries to reach the tail, the node `end`.
abbrev FromTail : ℕ → (ℕ → Phase) → ℕ → Phase → Type 0
FromTail end phases i p =
    ((i ≡ end) × (p ≡ serving))
    ⊎ ((i < end) × (is_serving (phases end) ≡ false) × (p ≡ to_tail))
    ⊎ ((suc i ≡ end) × (phases end ≡ serving) × (p ≡ serving))
    ⊎ ((suc i < end) × (phases end ≡ serving) × (p ≡ to_successor))

pub attempt-FromTail :
    (first : ChainNode) (behind : List ChainNode) (phases : ℕ → Phase) (i : ℕ)
    → IsLocal (first ∷ behind)
    → i ≤ length behind
    → FromTail (length behind) phases i (
        attempt
          (answers (first ∷ behind) 0 phases)
          (record { nodes = first ∷ behind; node_idx = i })
          to_tail)
unfolding attempt get_tail Reached
attempt-FromTail first behind phases i own inside =
    let nodes = first ∷ behind in
    let c : CraqChain = record { nodes = nodes; node_idx = i } in
    elim (Bool-cases (is_tail c)) [
      | inl end ↦ inl (ground (arith, end, inside), rw end refl)
      | inr inner ↦
          let more : i < length behind = ground (arith, inner, inside) in
          let (tail, found) = get_tail_total c (omega arith) in
          let at : get_elem? nodes (length behind) ≡ some tail =
            sym (last-get_elem? first behind) ∙ found in
          rw inner (
            rw found (elim (reach nodes phases (length behind) tail own at) [
              | inr (down, idle) ↦ rw down (inr (inl (more, idle, refl)))
              | inl (up, serves) ↦ rw up (elim (Bool-cases (before_tail c)) [
                | inl near ↦ rw near (inr (inr (inl (ground (arith, near, more), serves, refl))))
                | inr far ↦ rw far (inr (inr (inr (ground (arith, far, more), serves, refl))))
              ])
            ]))
    ]

-- What becomes of a node that tries to reach its successor.
abbrev FromSuccessor : (ℕ → Phase) → ℕ → Phase → Type 0
FromSuccessor phases i p =
    ((phases (suc i) ≡ serving) × (p ≡ serving))
    ⊎ ((is_serving (phases (suc i)) ≡ false) × (p ≡ to_successor))

pub attempt-FromSuccessor :
    (nodes : List ChainNode) (phases : ℕ → Phase) (i : ℕ)
    → IsLocal nodes
    → suc i < length nodes
    → length nodes ≤ usize_max
    → FromSuccessor phases i
        (attempt (answers nodes 0 phases) (record { nodes = nodes; node_idx = i }) to_successor)
unfolding attempt get_successor Reached
attempt-FromSuccessor nodes phases i own more small =
    let c : CraqChain = record { nodes = nodes; node_idx = i } in
    let (successor, found) = get_successor_total c more small in
    let inner : is_tail c ≡ false = ground (arith, more) in
    let next : min (i + 1) usize_max ≡ suc i = omega (arith, more, small) in
    let at : get_elem? nodes (suc i) ≡ some successor =
      let names : get_successor c ≡ get_elem? nodes (suc i) = rw inner (rw next refl) in
      sym names ∙ found in
    rw found (elim (reach nodes phases (suc i) successor own at) [
      | inl (up, serves) ↦ rw up (inl (serves, refl))
      | inr (down, idle) ↦ rw down (inr (idle, refl))
    ])
