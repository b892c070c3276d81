-- ===== src/Craq/Register.antt =====
-- artillery-ddata/src/craq: what a chain promises to its clients, a single register with a version;
-- and the chain itself under a sequence of their requests, which go to any of its nodes.
pub mod Reading
pub mod Requests
pub mod Refinement
pub mod Partial
use Prim.Native.String.{String}
use artillery.Base.{
  ℕ, zero, suc, ◌+◌, ◌≤◌, ◌<◌, ◌≡◌, ◌⊎◌, Bool, false, not, ◌&&◌, ◌||◌, List, [], ◌∷◌, Option, none,
  some, length, ◌==◌, if◌then◌else◌, ◌>>=◌,
}
use artillery.Base.Int.{ℤ, eqb_ℤ, next_i64}
use artillery.Craq.Chain.{ThriftError, invalid_state, transport}
use artillery.Craq.Server.{
  CraqObject, default_object, CraqProtoServer, CrMode, is_cr, CraqConsistencyModel, Reply, answer,
  refusal, M, no_version, copy_object,
}
use artillery.Craq.Server.Writes.{handle_write, handle_test_and_set}
use artillery.Craq.Server.Reads.{handle_read}
use artillery.Craq.Replication.{Downstream, reply_of, hops}

-- Writes go to the head, a read to the node with the index given.
pub data Op : Type 0 where
  write : CraqObject → Op
  test_and_set : CraqObject → ℤ → Op
  read : ℕ → CraqConsistencyModel → ℤ → Op

pub data Answer : Type 0 where
  version : Reply ℤ → Answer
  object : Reply CraqObject → Answer
  no_node : Answer

-- The register: a version, and the object stored last, or the default object before the first write.
pub record Register : Type 0 where
  pub at_version : ℤ
  pub value : CraqObject

abbrev pub empty_register : Register
empty_register = record { at_version = no_version; value = default_object }

abbrev pub store : CraqObject → Register → Register
store obj g = record { at_version = next_i64 g.at_version; value = obj }

abbrev pub wrong_mode : ThriftError
wrong_mode = invalid_state "Cannot read from non-tail node in CR mode!"

-- In the mode `Cr` the last of the `n` nodes alone answers reads.
abbrev pub may_not_read : CrMode → ℕ → ℕ → Bool
may_not_read mode n i = is_cr mode && not (suc i == n)

abbrev pub read_register : CrMode → ℕ → ℕ → CraqObject → Reply CraqObject
read_register mode n i obj =
    if may_not_read mode n i then refusal wrong_mode else answer (copy_object obj false)

-- One request to the register.
unfoldable pub spec : CrMode → ℕ → Op → Register → Answer × Register
spec mode n (write obj) g = (version (answer (next_i64 g.at_version)), store obj g)
spec mode n (test_and_set obj expected) g =
    if eqb_ℤ expected no_version || eqb_ℤ expected g.at_version
    then (version (answer (next_i64 g.at_version)), store obj g)
    else (version (answer no_version), g)
spec mode n (read i model bound) g = (object (read_register mode n i g.value), g)

unfoldable pub spec_each : CrMode → ℕ → List Op → Register → List Answer × Register
unfolding spec
spec_each mode n [] g = ([], g)
spec_each mode n (op ∷ ops) g =
    let (a, g') = spec mode n op g in
    let (replies, g'') = spec_each mode n ops g' in (a ∷ replies, g'')

-- A request to the node with the index given, whose connections lead to the nodes behind it.
unfoldable pub call_at :
    {A : Type 0}
    → ℕ
    → M Downstream A
    → List CraqProtoServer
    → Option (Reply A × List CraqProtoServer)
call_at i f [] = none
call_at zero f (s ∷ rest) = some (reply_of (f s rest))
call_at (suc i) f (s ∷ rest) = do (a, rest') ← call_at i f rest; some (a, s ∷ rest')

abbrev pub answered :
    {A : Type 0}
    → (Reply A → Answer)
    → Option (Reply A × List CraqProtoServer)
    → List CraqProtoServer
    → Answer × List CraqProtoServer
answered f none chain = (no_node, chain)
answered f (some (a, chain')) chain = (f a, chain')

-- One request to the chain, with so many hops allowed.
unfoldable pub serve : ℕ → Op → List CraqProtoServer → Answer × List CraqProtoServer
unfolding call_at handle_write handle_test_and_set handle_read
serve k (write obj) chain = answered version (call_at 0 (handle_write (hops k) obj) chain) chain
serve k (test_and_set obj expected) chain =
    answered version (call_at 0 (handle_test_and_set (hops k) obj expected) chain) chain
serve k (read i model bound) chain =
    answered object (call_at i (handle_read (hops k) model bound) chain) chain

unfoldable pub serve_each : ℕ → List Op → List CraqProtoServer → List Answer × List CraqProtoServer
unfolding serve
serve_each k [] chain = ([], chain)
serve_each k (op ∷ ops) chain =
    let (a, chain') = serve k op chain in
    let (replies, chain'') = serve_each k ops chain' in (a ∷ replies, chain'')
