-- ===== src/Samples/Links.antt =====
-- A chain of three nodes at version 4 whose link behind the head is broken.
use artillery.Base.{ℕ, ◌<◌, ◌≡◌, refl, ◌∷◌, arith}
use artillery.Base.Int.{ℤ, pos, ◌≤ℤ◌}
use artillery.Base.Dict.{lookup}
use artillery.Craq.Server.{CraqProtoServer, failed}
use artillery.Craq.Server.Writes.{handle_write}
use artillery.Craq.Replication.{Downstream, hops}
use artillery.Craq.Replication.Node.{Holds}
use artillery.Craq.Replication.Broken.{broken}
use artillery.Craq.Register.Partial.{PartlyRead, failed_write-PartlyRead}
use artillery.Samples.Chains.{object_of, node_at, node_at-InSync, behind}

node_at-Holds : (i : ℕ) → Holds (pos 4) (object_of 7) (node_at i)
unfolding lookup
node_at-Holds i = refl

failed_write-PartlyRead_example :
    (head' : CraqProtoServer) × (rest' : Downstream) × (handle_write
        (hops 0)
        (object_of 9)
        (node_at 0)
        behind
      ≡ failed head' rest' broken)
    × ((j m : ℕ) (bound : ℤ)
        → j < 3
        → pos 0 ≤ℤ bound
        → PartlyRead 1 j m bound (object_of 7) (object_of 9) (head' ∷ rest'))
failed_write-PartlyRead_example =
    failed_write-PartlyRead 3 0 (pos 4) (object_of 7) (object_of 9) (node_at 0) behind (omega arith)
      (omega arith)
      (
        (node_at-InSync 0, (refl, refl), node_at-Holds 0, omega arith),
        ((node_at-InSync 1, (node_at-InSync 2, refl)), (node_at-Holds 1, (node_at-Holds 2, tt))),
      )
