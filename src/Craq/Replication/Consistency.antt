-- ===== src/Craq/Replication/Consistency.antt =====
-- artillery-ddata/src/craq: a read anywhere on the chain after a write at its head.
use artillery.Base.{ℕ, suc, ◌≤◌, ◌≡◌, refl, inl, List, [], ◌∷◌, arith, All, false}
use artillery.Base.Int.{ℤ, pos, ◌<ℤ◌, ◌≤ℤ◌, i64_max, next_i64}
use artillery.Craq.Server.{
  CraqObject, CraqProtoServer, craq, Remote, done, no_version, copy_object, strong, eventual,
  eventual_max_bounded,
}
use artillery.Craq.Server.Writes.{handle_write}
use artillery.Craq.Server.Reads.{handle_read}
use artillery.Craq.Replication.{Downstream, hops}
use artillery.Craq.Replication.Node.{Holds}
use artillery.Craq.Replication.Commit.{InSyncFrom, InSyncFrom-length}
use artillery.Craq.Replication.Head.{IsChain, handle_write-Committed}
use artillery.Craq.Replication.Reads.{IsVersion, handle_read-InSync}

-- Reads of the node under each model, for a given bound, return the object as a clean one, and
-- change nothing.
abbrev pub Reads : Remote Downstream → Downstream → ℤ → CraqObject → CraqProtoServer → Type 0
Reads r rest bound obj s =
    (handle_read r strong bound s rest ≡ done s rest (copy_object obj false))
    × (handle_read r eventual bound s rest ≡ done s rest (copy_object obj false))
    × (handle_read r eventual_max_bounded bound s rest ≡ done s rest (copy_object obj false))

pub next-IsVersion : (v : ℤ) → no_version ≤ℤ v → v <ℤ i64_max → IsVersion (next_i64 v)
next-IsVersion v low high = ground arith

Reads-from :
    (n i : ℕ) (v bound : ℤ) (obj : CraqObject) (ss : List CraqProtoServer) (r : Remote Downstream)
    (rest : Downstream)
    → IsVersion v
    → pos 0 ≤ℤ bound
    → InSyncFrom craq n i v ss
    → All (Holds v obj) ss
    → All (Reads r rest bound obj) ss
Reads-from n i v bound obj [] r rest x b y h = tt
Reads-from n i v bound obj (s ∷ ss) r rest x b y h = (
  handle_read-InSync r craq n i v bound obj s rest y.0 (inl refl)
      (omega (arith, InSyncFrom-length craq n (suc i) v ss y.1)) x b h.0,
  Reads-from n (suc i) v bound obj ss r rest x b y.1 h.1,
)

-- On a chain of at least two nodes in the mode `Craq` that are in step at a version from -1 to
-- below the top of the `i64`s, with as many hops allowed as there are nodes, a write at the head
-- succeeds, and afterwards a strong, an eventual or a bounded read at any node, with any bound that
-- is not negative, returns the written object, marked as clean.
pub write_then_read :
    (n k : ℕ) (v bound : ℤ) (obj : CraqObject) (head : CraqProtoServer) (rest : Downstream)
    (r : Remote Downstream) (others : Downstream)
    → no_version ≤ℤ v
    → v <ℤ i64_max
    → n ≤ k
    → pos 0 ≤ℤ bound
    → IsChain craq n v head rest
    → (head' : CraqProtoServer) × (rest' : Downstream) × (handle_write (hops k) obj head rest
        ≡ done head' rest' (next_i64 v))
      × All (Reads r others bound obj) (head' ∷ rest')
write_then_read n k v bound obj head rest r others low top room b chain =
    let (head', rest', e, c) = handle_write-Committed craq n k v obj head rest top room chain in
    (
      head',
      rest',
      e,
      Reads-from n 0 (next_i64 v) bound obj (head' ∷ rest') r others (next-IsVersion v low top) b
          c.in_sync c.held,
    )
