-- ===== src/Craq/Server/Reads.antt =====
-- artillery-ddata/src/craq/server.rs: the handler of reads, under each consistency model.
use Prim.Native.String.{String}
use artillery.Base.{Bool, true, false, not, ◌&&◌, List, [], ◌∷◌, Option, none, some, if◌then◌else◌}
use artillery.Base.Int.{ℤ, pos, ltb_ℤ, min_ℤ, saturating_add, saturating_sub}
use artillery.Base.Dict.{lookup, int_eq}
use artillery.Craq.Chain.{is_tail}
use artillery.Craq.Server.{
  CraqObject, default_object, CraqConsistencyModel, strong, eventual, eventual_max_bounded, debug,
  is_cr, CraqProtoServer, Remote, M, ◌>>=◌, ◌>>◌, pure, get, state_error, is_connected, copy_object,
  unwrap_pool, try_recv, try_send, call,
}

-- An object, or the state error for a missing one.
abbrev pub or_error : {W : Type 0} → Option CraqObject → String → M W CraqObject
or_error none reason = state_error reason
or_error (some obj) reason = pure obj

abbrev pub object_at : ℤ → CraqProtoServer → Option CraqObject
object_at version s = lookup version s.objects

-- The clean object that stands in for one that was erased since.
abbrev pub or_latest_clean : Option CraqObject → CraqProtoServer → Option CraqObject
or_latest_clean none s = object_at s.latest_clean_version s
or_latest_clean (some obj) s = some obj

unfoldable pub get_obj_from_version_query : {W : Type 0} → Remote W → M W CraqObject
unfolding lookup
get_obj_from_version_query r = do
  s ← get
  unwrap_pool s.tp_rx s.tp_tx
  try_recv s.tp_rx
  tail_version ← call r.version_query
  try_send s.tp_tx
  s ← get
  if ltb_ℤ tail_version (pos 0)
      then pure default_object
      else or_error (or_latest_clean (object_at tail_version s) s)
          "Returning empty object after a version query!"

-- The object that an action finds, marked as dirty or clean.
abbrev pub copied : {W : Type 0} → M W CraqObject → Bool → M W CraqObject
copied m dirty = do obj ← m; pure (copy_object obj dirty)

unfoldable pub read_strong : {W : Type 0} → Remote W → M W CraqObject
unfolding get_obj_from_version_query
read_strong r = do
  s ← get
  if ltb_ℤ s.latest_clean_version s.latest_version && not (is_tail s.chain_ref)
      then copied (get_obj_from_version_query r) true
      else if ltb_ℤ s.latest_clean_version (pos 0)
      then pure default_object
      else if is_tail s.chain_ref
      then copied (or_error (object_at s.latest_version s) "Returning null object from the tail")
          false
      else copied
          (or_error (object_at s.latest_clean_version s) "Returning null object from a clean read!")
          false

unfoldable pub read_eventual : {W : Type 0} → M W CraqObject
unfolding lookup
read_eventual = do
  s ← get
  copied (or_error (object_at s.latest_version s) "Returning null object for an eventual read!")
      false

abbrev pub bounded_version : ℤ → CraqProtoServer → ℤ
bounded_version version_bound s =
    saturating_add s.latest_clean_version
      (min_ℤ version_bound (saturating_sub s.latest_version s.latest_clean_version))

unfoldable pub read_bounded : {W : Type 0} → ℤ → M W CraqObject
unfolding lookup
read_bounded version_bound = do
  s ← get
  copied
      (or_error (object_at (bounded_version version_bound s) s)
        "Returning null object for a bounded eventual read!")
      false

-- On a node that is not the tail the object of the version query is dropped, and control falls
-- through to the error behind the `match`.
unfoldable pub read_debug : {W : Type 0} → Remote W → M W CraqObject
unfolding get_obj_from_version_query
read_debug r = do
  s ← get
  if is_tail s.chain_ref
      then pure default_object
      else (do _ ← get_obj_from_version_query r; state_error "Fatal state error.")

abbrev pub read_model : {W : Type 0} → Remote W → CraqConsistencyModel → ℤ → M W CraqObject
read_model r strong version_bound = read_strong r
read_model r eventual version_bound = read_eventual
read_model r eventual_max_bounded version_bound = read_bounded version_bound
read_model r debug version_bound = read_debug r

abbrev pub is_empty {ℓ} : {A : Type ℓ} → List A → Bool
is_empty [] = true
is_empty (x ∷ xs) = false

unfoldable pub handle_read : {W : Type 0} → Remote W → CraqConsistencyModel → ℤ → M W CraqObject
unfolding read_strong read_eventual read_bounded read_debug
handle_read r model version_bound = do
  s ← get
  if not (is_tail s.chain_ref) && not (is_connected s)
      then state_error "Chain is not initialized!"
      else if is_cr s.cr_mode && not (is_tail s.chain_ref)
      then state_error "Cannot read from non-tail node in CR mode!"
      else if is_empty s.objects
      then pure default_object
      else read_model r model version_bound
