-- ===== src/Craq/Replication/Commit.antt =====
-- artillery-ddata/src/craq: a write from the head of a chain to its tail.
use artillery.Base.{ℕ, zero, suc, ◌+◌, ◌<◌, ◌≡◌, List, [], ◌∷◌, arith, All, length}
use artillery.Base.Int.{ℤ, ◌<ℤ◌}
use artillery.Base.Dict.{int_eq}
use artillery.Craq.Server.{CraqObject, CraqProtoServer, CrMode, answer}
use artillery.Craq.Replication.{hops}
use artillery.Craq.Replication.Node.{
  InSync, Holds, written, written-InSync, written-Holds, handle_write_versioned_middle,
  handle_write_versioned_tail,
}

-- The nodes of a chain from the `i`-th to the last of `n`, all in step at version `v`.
abbrev pub InSyncFrom : CrMode → ℕ → ℕ → ℤ → List CraqProtoServer → Type 0
InSyncFrom mode n i v [] = i ≡ n
InSyncFrom mode n i v (s ∷ ss) = InSync mode n i v s × InSyncFrom mode n (suc i) v ss

pub InSyncFrom-length :
    (mode : CrMode) (n i : ℕ) (v : ℤ) (ss : List CraqProtoServer)
    → InSyncFrom mode n i v ss
    → i + length ss ≡ n
InSyncFrom-length mode n i v [] h = omega arith
InSyncFrom-length mode n i v (s ∷ ss) h = omega (arith, InSyncFrom-length mode n (suc i) v ss h.1)

-- What a delivery down the chain must come to.
abbrev pub Delivered : CrMode → ℕ → ℕ → ℤ → CraqObject → ℕ → List CraqProtoServer → Type 0
Delivered mode n i w obj k ss =
    (ss' : List CraqProtoServer) × ((hops k).write_versioned obj w ss ≡ (answer tt, ss'))
    × InSyncFrom mode n (suc i) w ss'
    × All (Holds w obj) ss'

pub deliver_in_sync :
    (mode : CrMode) (n i k : ℕ) (v w : ℤ) (obj : CraqObject) (s : CraqProtoServer)
    (ss : List CraqProtoServer)
    → v <ℤ w
    → length ss < k
    → InSyncFrom mode n (suc i) v (s ∷ ss)
    → Delivered mode n i w obj k (s ∷ ss)
unfolding hops
deliver_in_sync mode n i zero v w obj s ss lt room h = elim room [ ]
deliver_in_sync mode n i (suc k) v w obj s [] lt room h = (
  written w obj s ∷ [],
  rw (handle_write_versioned_tail (hops k) mode n i v w obj s [] h.0 h.1),
  (written-InSync mode n (suc i) v w obj s lt h.0, h.1),
  (written-Holds mode n (suc i) v w obj s lt h.0, tt),
)
deliver_in_sync mode n i (suc k) v w obj s (t ∷ ss) lt room h =
    let (ss', e, y, holds) = deliver_in_sync mode n (suc i) k v w obj t ss lt (omega arith) h.1 in
    (
      written w obj s ∷ ss',
      rw (
          handle_write_versioned_middle (hops k) mode n i v w obj s (t ∷ ss) ss' h.0
            (omega (arith, InSyncFrom-length mode n (suc (suc i)) v (t ∷ ss) h.1)) e),
      (written-InSync mode n (suc i) v w obj s lt h.0, y),
      (written-Holds mode n (suc i) v w obj s lt h.0, holds),
    )
