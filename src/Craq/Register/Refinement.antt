-- ===== src/Craq/Register/Refinement.antt =====
-- artillery-ddata/src/craq: a chain and the register that its clients see.
use artillery.Base.{ℕ, ◌^◌, ◌≤◌, ◌<◌, ◌≡◌, refl, inl, List, [], ◌∷◌, some, arith, All, length}
use artillery.Craq.Chain.{ChainNode, usize_max}
use artillery.Craq.Server.{default_object, CraqProtoServer, CrMode, no_version}
use artillery.Craq.Startup.{CraqConfig}
use artillery.Craq.Startup.FirstWrite.{launch, launch-InSyncFrom}
use artillery.Craq.Register.{Op, Register, empty_register, spec, spec_each, serve_each}
use artillery.Craq.Register.Reading.{Stores}
use artillery.Craq.Register.Requests.{Represents, IsAllowed, HasRoom, spec-HasRoom, serve-Serves}

-- What a sequence of requests must come to.
abbrev pub ServesAll : CrMode → ℕ → ℕ → List Op → Register → List CraqProtoServer → Type 0
ServesAll mode n k ops g ss =
    (ss' : List CraqProtoServer) × (serve_each k ops ss ≡ ((spec_each mode n ops g).0, ss'))
    × Represents mode n (spec_each mode n ops g).1 ss'

-- A chain of at least two nodes that holds what a register holds answers any sequence of allowed
-- requests, with as many hops allowed as there are nodes, exactly as the register does, and holds
-- afterwards what the register holds, provided that the versions do not run out.
pub serve_each-ServesAll :
    (mode : CrMode) (n k : ℕ) (ops : List Op) (g : Register) (ss : List CraqProtoServer)
    → 1 < n
    → n ≤ k
    → HasRoom g.at_version (length ops)
    → All (IsAllowed n) ops
    → Represents mode n g ss
    → ServesAll mode n k ops g ss
unfolding serve_each spec_each
serve_each-ServesAll mode n k [] g ss more room top allowed h = (ss, refl, h)
serve_each-ServesAll mode n k (op ∷ ops) g ss more room top allowed h =
    let (ss1, e1, h1) = serve-Serves mode n k (length ops) op g ss more room top allowed.0 h in
    let (ss2, e2, h2) =
      serve_each-ServesAll mode n k ops (spec mode n op g).1 ss1 more room
        (spec-HasRoom mode n (length ops) op g top) allowed.1 h1 in
    (ss2, rw e1 (rw e2 refl), h2)

Stores-empty :
    (ss : List CraqProtoServer)
    → All (λ s. s.objects ≡ []) ss
    → All (Stores no_version default_object) ss
Stores-empty [] h = tt
Stores-empty (s ∷ ss) h = (inl (refl, refl, rw (h.0) refl), Stores-empty ss h.1)

-- The nodes of a chain of at least two, once they have all been started, answer any sequence of at
-- most 2 ^ 63 allowed requests, writes and test-and-sets sent to the head and reads to any of the
-- nodes, exactly as one register that is empty at first: every write gets the next version, a test-
-- and-set is refused unless it expects the latest version or -1, which asks for no test, and a read
-- returns the object written last, in the mode `Cr` from the tail alone.
pub launch-ServesAll :
    (mode : CrMode) (nodes : List ChainNode) (config : CraqConfig) (ops : List Op)
    → 1 < length nodes
    → length nodes ≤ usize_max
    → length ops ≤ 2 ^ 63
    → All (IsAllowed (length nodes)) ops
    → (ss : List CraqProtoServer) × (launch mode nodes config 0 (length nodes) ≡ some ss)
      × ServesAll mode (length nodes) (length nodes) ops empty_register ss
launch-ServesAll mode nodes config ops more small top allowed =
    let (ss, launched, y, nothing) =
      launch-InSyncFrom mode nodes config 0 (length nodes) (omega arith) small in
    (
      ss,
      launched,
      serve_each-ServesAll mode (length nodes) (length nodes) ops empty_register ss more
          (omega arith) (omega (arith, top)) allowed (omega arith, y, Stores-empty ss nothing),
    )
