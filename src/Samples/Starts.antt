-- ===== src/Samples/Starts.antt =====
-- The theorems on starting a chain, on one of three nodes.
use mathlib.Core.Option.{some-injective}
use artillery.Base.{
  ℕ, zero, suc, ◌+◌, ◌*◌, ◌≡◌, refl, sym, ap, true, List, [], ◌∷◌, some, arith, get_elem?, any, ◌<◌,
  ◌==◌,
}
use artillery.Base.Int.{pos}
use artillery.Craq.Chain.{ChainNode, get_tail}
use artillery.Craq.Server.{CraqProtoServer, craq, done, default_object}
use artillery.Craq.Server.Writes.{handle_write}
use artillery.Craq.Startup.{default_craq_config}
use artillery.Craq.Startup.FirstWrite.{launch, first_write}
use artillery.Craq.Startup.Waiting.{to_tail, serving, wake_all, rounds, all_started}
use artillery.Craq.Startup.Waiting.Connecting.{IsLocal}
use artillery.Craq.Startup.Waiting.Remote.{remote_tail}
use artillery.Craq.Startup.Waiting.ComesUp.{IsRound, comes_up, wake_all-behind}
use artillery.Craq.Replication.{Downstream, hops}
use artillery.Craq.Replication.Head.{Committed}

abbrev pub three_nodes : List ChainNode
three_nodes = record { host = 10 } ∷ record { host = 20 } ∷ record { host = 30 } ∷ []

first_write_example :
    (head : CraqProtoServer) × (rest : Downstream) × (launch craq three_nodes default_craq_config 0
        3
      ≡ some (head ∷ rest))
    × (head' : CraqProtoServer) × (rest' : Downstream) × (handle_write
          (hops 3)
          default_object
          head
          rest
        ≡ done head' rest' (pos 0))
    × Committed craq 3 (pos 0) default_object head' rest'
first_write_example =
    first_write craq three_nodes default_craq_config default_object (omega arith) (omega arith)

abbrev local_nodes : List ChainNode
local_nodes =
    record { host = 2130706433 * 65536 + 10 }
    ∷ record { host = 2130706433 * 65536 + 11 }
    ∷ record { host = 2130706433 * 65536 + 12 }
    ∷ []

local_nodes-host :
    (i : ℕ) (m : ChainNode)
    → get_elem? local_nodes i ≡ some m
    → (m.host ≡ 2130706433 * 65536 + 10 + i) × (i < 3)
local_nodes-host zero m at = (sym (ap (λ n. n.host) (some-injective _ m at)), omega arith)
local_nodes-host (suc zero) m at = (sym (ap (λ n. n.host) (some-injective _ m at)), omega arith)
local_nodes-host (suc (suc zero)) m at =
    (sym (ap (λ n. n.host) (some-injective _ m at)), omega arith)
local_nodes-host (suc (suc (suc i))) m at = cc

local_nodes-IsLocal : IsLocal local_nodes
local_nodes-IsLocal = (
  (λ i j m n at at' same.
      omega (arith, (local_nodes-host i m at).0, (local_nodes-host j n at').0, same)),
  (λ i n at. omega (arith, (local_nodes-host i n at).0, (local_nodes-host i n at).1)),
)

abbrev shuffled : List ℕ
shuffled = 1 ∷ 0 ∷ 2 ∷ 1 ∷ []

shuffled-visits : (j : ℕ) → j < 3 → any (λ i. i == j) shuffled ≡ true
shuffled-visits zero lt = refl
shuffled-visits (suc zero) lt = refl
shuffled-visits (suc (suc zero)) lt = refl
shuffled-visits (suc (suc (suc j))) lt = absurd (omega (arith, lt))

shuffled-IsRound : IsRound local_nodes shuffled
shuffled-IsRound = ((omega arith, (omega arith, (omega arith, (omega arith, tt)))), shuffled-visits)

comes_up_example : rounds local_nodes (shuffled ∷ shuffled ∷ shuffled ∷ []) all_started 0 ≡ serving
comes_up_example =
    comes_up local_nodes (shuffled ∷ shuffled ∷ shuffled ∷ []) 0 local_nodes-IsLocal (omega arith)
      (shuffled-IsRound, (shuffled-IsRound, (shuffled-IsRound, tt))) (omega arith) (omega arith)

abbrev tail_first : List ℕ
tail_first = 2 ∷ 1 ∷ 0 ∷ []

tail_first-serves : wake_all local_nodes tail_first all_started 1 ≡ serving
unfolding wake_all
tail_first-serves = refl

wake_all-behind_example : wake_all local_nodes tail_first all_started 2 ≡ serving
wake_all-behind_example =
    wake_all-behind local_nodes tail_first 1 2 local_nodes-IsLocal (omega arith)
      (omega arith, (omega arith, (omega arith, tt))) (omega arith) (omega arith) tail_first-serves

remote_tail_example : wake_all three_nodes (2 ∷ 1 ∷ 0 ∷ 1 ∷ []) all_started 1 ≡ to_tail
unfolding get_tail
remote_tail_example =
    remote_tail (record { host = 10 }) (record { host = 20 } ∷ record { host = 30 } ∷ [])
      (record { host = 30 }) (2 ∷ 1 ∷ 0 ∷ 1 ∷ []) 1 refl (λ e. omega (arith, e)) (omega arith)
