-- ===== src/Samples/Requests.antt =====
-- The register that a chain implements, on a chain of three nodes that has just been started.
use artillery.Base.{◌≡◌, refl, inl, inr, List, [], ◌∷◌, some, arith}
use artillery.Base.Int.{pos}
use artillery.Craq.Server.{CraqProtoServer, craq, default_object, strong, eventual}
use artillery.Craq.Startup.{default_craq_config}
use artillery.Craq.Startup.FirstWrite.{launch}
use artillery.Craq.Register.{Op, write, test_and_set, read, empty_register}
use artillery.Craq.Register.Refinement.{ServesAll, launch-ServesAll}
use artillery.Samples.Starts.{three_nodes}

abbrev requests : List Op
requests =
    read 1 strong (pos 0)
    ∷ write default_object
    ∷ test_and_set default_object (pos 3)
    ∷ test_and_set default_object (pos 0)
    ∷ read 2 eventual (pos 0)
    ∷ []

launch-ServesAll_example :
    (ss : List CraqProtoServer) × (launch craq three_nodes default_craq_config 0 3 ≡ some ss)
    × ServesAll craq 3 3 requests empty_register ss
launch-ServesAll_example =
    launch-ServesAll craq three_nodes default_craq_config requests (omega arith) (omega arith)
      (omega arith)
      (
        (omega arith, inl refl, omega arith),
        (tt, (tt, (tt, ((omega arith, inr (inl refl), omega arith), tt)))),
      )
