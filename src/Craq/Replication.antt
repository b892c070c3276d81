-- ===== src/Craq/Replication.antt =====
-- artillery-ddata/src/craq: the nodes of a chain at work together. The connections of a node lead to
-- the nodes behind it, whose handlers answer its calls: `CraqServiceSyncClient` hands a call to the
-- handler of the server that it is connected to, and a handler that panics drops the connection.
pub mod Node
pub mod Commit
pub mod Head
pub mod Reads
pub mod Consistency
pub mod Storage
pub mod Broken
use Prim.Native.String.{String}
use artillery.Base.{ℕ, zero, suc, List, [], ◌∷◌}
use artillery.Base.Int.{ℤ}
use artillery.Craq.Chain.{ThriftError, transport}
use artillery.Craq.Server.{
  CraqObject, CraqProtoServer, Reply, answer, refusal, Remote, Outcome, done, failed, panicked,
}
use artillery.Craq.Server.Writes.{handle_write_versioned, handle_version_query}

-- The nodes behind a node, its successor first.
abbrev pub Downstream : Type 0
Downstream = List CraqProtoServer

abbrev pub reply_of : {A : Type 0} → Outcome Downstream A → Reply A × Downstream
reply_of (done s rest a) = (answer a, s ∷ rest)
reply_of (failed s rest e) = (refusal e, s ∷ rest)
reply_of (panicked s rest) = (refusal (transport "connection closed"), s ∷ rest)

abbrev pub deliver : Remote Downstream → CraqObject → ℤ → Downstream → Reply (Unit {0}) × Downstream
deliver r obj version [] = (refusal (transport "no successor"), [])
deliver r obj version (s ∷ rest) = reply_of (handle_write_versioned r obj version s rest)

-- The last node answers; no node changes.
abbrev pub query_tail : Remote Downstream → Downstream → Reply ℤ
query_tail r [] = refusal (transport "no tail")
query_tail r (s ∷ []) = (reply_of (handle_version_query s [])).0
query_tail r (s ∷ t ∷ rest) = query_tail r (t ∷ rest)

-- The nodes that are reached by at most so many hops; a chain has fewer hops than nodes.
unfoldable pub hops : ℕ → Remote Downstream
unfolding handle_write_versioned handle_version_query
hops zero = record {
  write_versioned = λ obj version rest. (refusal (transport "too many hops"), rest);
  version_query = λ rest. (refusal (transport "too many hops"), rest);
}
hops (suc n) = record {
  write_versioned = deliver (hops n);
  version_query = λ rest. (query_tail (hops n) rest, rest);
}
