-- ===== src/Samples/Writers.antt =====
-- Writes that take turns at the head of a chain, and series of versioned writes.
use artillery.Base.{ℕ, suc, ◌+◌, ◌≡◌, refl, List, [], ◌∷◌, arith, length}
use artillery.Base.Int.{ℤ, pos}
use artillery.Craq.Server.{CraqObject, CraqProtoServer, done, successor_channel}
use artillery.Craq.Interleaving.{checked, System, run}
use artillery.Craq.Interleaving.Versions.{run-IsOrderly}
use artillery.Craq.Interleaving.Order.{IsOrderly}
use artillery.Craq.Interleaving.CleanVersion.{overtaken, GoesBack, run-GoesBack}
use artillery.Craq.Replication.Storage.{Accepts, deliveries, deliveries-middle}
use artillery.Samples.Chains.{object_of, node_at, answering}

abbrev two_writes : System ℕ
two_writes = record {
  server = node_at 0;
  others = 0;
  writers =
      record { object = object_of 8; pc = checked }
      ∷ record { object = object_of 9; pc = checked }
      ∷ [];
}

run-IsOrderly_example :
    IsOrderly
      (run answering (0 ∷ 1 ∷ 1 ∷ 0 ∷ []) two_writes).server
      (run answering (0 ∷ 1 ∷ 1 ∷ 0 ∷ []) two_writes).writers
run-IsOrderly_example =
    run-IsOrderly answering (0 ∷ 1 ∷ 1 ∷ 0 ∷ []) two_writes
      (omega arith, omega arith, (tt, (tt, tt)), ((tt, tt), (tt, tt)))

run-GoesBack_example :
    GoesBack (object_of 8) (object_of 9) (pos 5) (run answering overtaken two_writes)
run-GoesBack_example =
    run-GoesBack answering successor_channel (object_of 8) (object_of 9) (node_at 0) 0 1 2
      (refl, refl, refl) refl (omega arith) (omega arith) refl refl

abbrev series : List (ℤ × CraqObject)
series = (pos 5, object_of 1) ∷ (pos 6, object_of 2) ∷ (pos 8, object_of 3) ∷ []

answering-Accepts : Accepts answering
answering-Accepts obj version others = (suc others, refl)

deliveries-middle_example :
    (s' : CraqProtoServer) × (others' : ℕ) × (deliveries answering series (node_at 1) 0
      ≡ done s' others' tt)
    × (length s'.objects ≡ 1 + 3)
deliveries-middle_example =
    deliveries-middle answering (pos 4) series (node_at 1) 0 answering-Accepts refl refl
      (successor_channel, refl, refl, omega arith) (omega arith) (omega arith, tt)
      (omega arith, (omega arith, (omega arith, tt)))
