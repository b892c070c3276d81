-- ===== src/Craq/Startup/Waiting/Remote.antt =====
-- artillery-ddata/src/craq/node.rs: a chain whose tail is on another machine.
use artillery.Base.{
  ℕ, ◌-◌, ◌/◌, ◌^◌, ◌<◌, ◌≡◌, ◌≢◌, refl, sym, ap, ◌∙◌, inl, inr, false, List, [], ◌∷◌, some, arith,
  length, Bool-cases, ◌==◌,
}
use artillery.Craq.Chain.{ChainNode, get_tail}
use artillery.Craq.Startup.Waiting.{Phase, to_tail, attempt, answers, wake, wake_all, all_started}
use artillery.Craq.Startup.Waiting.Connecting.{answers-serving}

-- No server listens at an address that is not on the loopback.
unanswered :
    (nodes : List ChainNode) (phases : ℕ → Phase) (a : ℕ)
    → a / 2 ^ 16 ≢ 2130706433
    → answers nodes 0 phases a ≡ false
unanswered nodes phases a remote = elim (Bool-cases (answers nodes 0 phases a)) [
  | inr silent ↦ silent
  | inl heard ↦
      let (i, n, at, same, serves) = answers-serving nodes 0 phases a heard in
      absurd (remote (omega (arith, same)))
]

wake-to_tail :
    (first : ChainNode) (behind : List ChainNode) (tail : ChainNode) (phases : ℕ → Phase) (i j : ℕ)
    → get_tail (record { nodes = first ∷ behind; node_idx = 0 }) ≡ some tail
    → tail.host / 2 ^ 16 ≢ 2130706433
    → j < length behind
    → phases j ≡ to_tail
    → wake (first ∷ behind) i phases j ≡ to_tail
unfolding wake attempt get_tail
wake-to_tail first behind tail phases i j found remote before waits = elim (Bool-cases (j == i)) [
  | inr other ↦ rw other waits
  | inl same ↦
      let here : j ≡ i = ground (arith, same) in
      let waits' : phases i ≡ to_tail = ap phases (sym here) ∙ waits in
      let inner : (i == length (first ∷ behind) - 1) ≡ false = ground (arith, here, before) in
      let silent = unanswered (first ∷ behind) phases tail.host remote in
      rw same (rw waits' (rw inner (rw found (rw silent refl))))
]

-- A chain whose tail has an address that is not on the loopback never comes up: since a server listens on
-- the loopback alone, no node before the tail ever gets past its first connection, whatever attempts
-- the nodes make.
pub remote_tail :
    (first : ChainNode) (behind : List ChainNode) (tail : ChainNode) (order : List ℕ) (i : ℕ)
    → get_tail (record { nodes = first ∷ behind; node_idx = 0 }) ≡ some tail
    → tail.host / 2 ^ 16 ≢ 2130706433
    → i < length behind
    → wake_all (first ∷ behind) order all_started i ≡ to_tail
unfolding wake_all
remote_tail first behind tail order i found remote before = all order all_started refl
  where
    all :
        (order : List ℕ) (phases : ℕ → Phase)
        → phases i ≡ to_tail
        → wake_all (first ∷ behind) order phases i ≡ to_tail
    all [] phases waits = waits
    all (k ∷ order) phases waits =
        all order (wake (first ∷ behind) k phases)
          (wake-to_tail first behind tail phases k i found remote before waits)
