-- ===== src/Craq/Server/Faults.antt =====
-- artillery-ddata/src/craq/server.rs: the ends of the writing handlers, and the reads under `Debug`.
use artillery.Base.{◌≡◌, ◌≢◌, false, arith, if◌then◌else◌}
use artillery.Base.Int.{ℤ, ltb_ℤ}
use artillery.Craq.Chain.{is_tail}
use artillery.Craq.Server.{
  CraqObject, CraqProtoServer, debug, Remote, done, mark_clean, old_clean_ver, remove_old_versions,
}
use artillery.Craq.Server.Writes.{settle, commit}
use artillery.Craq.Server.Reads.{handle_read, is_empty}

-- Old versions are removed on the tail and nowhere else: the test for a newer version, at the end
-- of a write and of a versioned write, fails whatever the version and the state of the node.
pub settle-commit_lem :
    (version : ℤ) (s : CraqProtoServer)
    → (settle version s ≡ mark_clean version s)
      × (commit version s ≡ (
          let marked = mark_clean version s in
          if is_tail s.chain_ref
          then remove_old_versions marked.latest_clean_version marked
          else marked))
unfolding settle commit
settle-commit_lem version s =
    let never : ltb_ℤ (old_clean_ver version s) version ≡ false = ground arith in
    (rw never, rw never)

-- On a node that is not the tail and stores an object, no read under the model `Debug` succeeds,
-- whatever the other nodes answer.
pub debug_read_fails :
    {W : Type 0} (r : Remote W) (bound : ℤ) (s s' : CraqProtoServer) (w w' : W) (obj : CraqObject)
    → is_tail s.chain_ref ≡ false
    → is_empty s.objects ≡ false
    → handle_read r debug bound s w ≢ done s' w' obj
unfolding handle_read
debug_read_fails r bound s s' w w' obj inner stored e = ground arith
