-- ===== src/Craq/Server/Writes.antt =====
-- artillery-ddata/src/craq/server.rs: the handlers that write, and the version query of the tail.
use artillery.Base.{Bool, not, ◌&&◌, ◌||◌, if◌then◌else◌}
use artillery.Base.Int.{ℤ, ltb_ℤ, eqb_ℤ, next_i64}
use artillery.Craq.Chain.{is_head, is_tail}
use artillery.Craq.Server.{
  CraqObject, CraqProtoServer, Remote, M, ◌>>=◌, ◌>>◌, pure, get, modify, state_error, no_version,
  is_connected, send_down, store_object, old_clean_ver, mark_clean, remove_old_versions,
}

-- The end of `write`.
unfoldable pub settle : ℤ → CraqProtoServer → CraqProtoServer
settle version s =
    let marked = mark_clean version s in
    if ltb_ℤ (old_clean_ver version s) version
    then remove_old_versions marked.latest_clean_version marked
    else marked

-- The part of `write` behind its checks: the new version is recorded, sent down the chain and
-- marked as clean.
unfoldable pub accept_write : {W : Type 0} → Remote W → CraqObject → M W ℤ
accept_write r obj = do
  before ← get
  let new_version = next_i64 before.latest_version
  modify (λ s. store_object new_version obj (record s { latest_version = new_version }))
  send_down r obj new_version
  modify (settle new_version)
  pure new_version

-- The request is rejected where the latest version is not the expected one, or where there are
-- uncommitted writes.
abbrev pub is_stale : ℤ → CraqProtoServer → Bool
is_stale expected_version s =
    not (eqb_ℤ expected_version no_version)
    && (not (eqb_ℤ s.latest_clean_version expected_version)
        || not (eqb_ℤ s.latest_version s.latest_clean_version))

unfoldable pub write : {W : Type 0} → Remote W → CraqObject → ℤ → M W ℤ
write r obj expected_version = do
  s ← get
  if not (is_connected s)
      then state_error "Chain is not initialized!"
      else if not (is_head s.chain_ref)
      then state_error "Cannot write to non-head!"
      else if is_stale expected_version s
      then pure no_version
      else accept_write r obj

unfoldable pub handle_version_query : {W : Type 0} → M W ℤ
handle_version_query = do
  s ← get
  if not (is_tail s.chain_ref)
      then state_error "Cannot make a version query to a non-tail node!"
      else pure s.latest_clean_version

-- The latest version, raised where the new one is greater.
unfoldable pub raise_latest : ℤ → CraqProtoServer → CraqProtoServer
raise_latest version s = record s {
  latest_version = if ltb_ℤ s.latest_version version then version else s.latest_version;
}

-- The end of `handle_write_versioned`.
unfoldable pub commit : ℤ → CraqProtoServer → CraqProtoServer
commit version s =
    let marked = mark_clean version s in
    if ltb_ℤ (old_clean_ver version s) version || is_tail s.chain_ref
    then remove_old_versions marked.latest_clean_version marked
    else marked

unfoldable pub handle_write_versioned : {W : Type 0} → Remote W → CraqObject → ℤ → M W (Unit {0})
handle_write_versioned r obj version = do
  s ← get
  if is_head s.chain_ref then state_error "Cannot make a versioned write to the head!" else do
    modify (λ s. raise_latest version (store_object version obj s))
    if is_tail s.chain_ref then pure tt else send_down r obj version
    modify (commit version)

unfoldable pub handle_test_and_set : {W : Type 0} → Remote W → CraqObject → ℤ → M W ℤ
unfolding write
handle_test_and_set r obj expected_version = write r obj expected_version

unfoldable pub handle_write : {W : Type 0} → Remote W → CraqObject → M W ℤ
unfolding write
handle_write r obj = write r obj no_version
