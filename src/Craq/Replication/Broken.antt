-- ===== src/Craq/Replication/Broken.antt =====
-- artillery-ddata/src/craq: a write at the head of a chain in which a link is broken. `hops k` is that
-- chain: a call travels `k` nodes down, and the next link refuses it. The connections to the tail are
-- others, and still work.
use artillery.Base.{
  ℕ, zero, suc, ◌-◌, ◌<◌, ◌≡◌, refl, ap, ◌∙◌, true, false, List, [], ◌∷◌, some, arith, All, length,
}
use artillery.Base.Int.{ℤ, ◌<ℤ◌, ltb_ℤ, eqb_ℤ, eqb_ℤ_iff, i64_max, next_i64, lt-next_i64}
use artillery.Base.Dict.{insert, int_eq, lookup-insert}
use artillery.Craq.Chain.{ThriftError, transport, is_head, is_tail}
use artillery.Craq.Server.{
  CraqObject, CraqProtoServer, CrMode, tail_channel, successor_channel, refusal, Remote, failed,
  ◌>>◌, modify, pure, is_connected, send_down, store_object,
}
use artillery.Craq.Server.Writes.{
  raise_latest, accept_write, handle_write_versioned, handle_write, settle, commit,
}
use artillery.Craq.Server.Failures.{bind_failed}
use artillery.Craq.Replication.{Downstream, hops}
use artillery.Craq.Replication.Node.{InSync, IsPool, IsPool-Untouched, Holds}
use artillery.Craq.Replication.Commit.{InSyncFrom}
use artillery.Craq.Replication.Head.{is_connected_of}

-- A node before the last link: its two pools are two channels.
abbrev pub HasTwoPools : CraqProtoServer → Type 0
HasTwoPools s = (s.sp_rx ≡ some successor_channel) × (s.tp_rx ≡ some tail_channel)

-- A node in step that holds an object as its version, and whose pools are two channels.
abbrev pub IsReady : CrMode → ℕ → ℕ → ℤ → CraqObject → CraqProtoServer → Type 0
IsReady mode n i v old s = InSync mode n i v s × HasTwoPools s × Holds v old s × (suc i < n)

-- The node has recorded version `w`, and does not have it as clean: it holds both objects.
pub record IsDirty (mode : CrMode) (n i : ℕ) (v w : ℤ) (old obj : CraqObject) (s : CraqProtoServer)
    : Type 0 where
  pub index : s.chain_ref.node_idx ≡ i
  pub size : length s.chain_ref.nodes ≡ n
  pub in_mode : s.cr_mode ≡ mode
  pub latest : s.latest_version ≡ w
  pub clean : s.latest_clean_version ≡ v
  pub inner : suc i < n
  pub connected : is_connected s ≡ true
  pub tails : IsPool s s.tp_rx s.tp_tx
  pub holds_old : Holds v old s
  pub holds_new : Holds w obj s

-- The connection that a refused call went through is not put back.
abbrev spent : CraqProtoServer → CraqProtoServer
spent s = record s { successor_idle = s.successor_idle - 1 }

send_down-spent :
    {W : Type 0} (r : Remote W) (obj : CraqObject) (version : ℤ) (e : ThriftError)
    (s : CraqProtoServer) (w w' : W)
    → s.sp_rx ≡ some successor_channel
    → IsPool s s.sp_rx s.sp_tx
    → r.write_versioned obj version w ≡ (refusal e, w')
    → send_down r obj version s w ≡ failed (spent s) w' e
unfolding send_down
send_down-spent r obj version e s w w' two (tail_channel, rx, tx, pos) refusing =
    absurd (ground arith)
send_down-spent r obj version e s w w' two (successor_channel, rx, tx, pos) refusing = ground arith

-- A node that records a version, as the head does and as a node behind it does.
abbrev recorded_at : ℤ → CraqObject → CraqProtoServer → CraqProtoServer
recorded_at w obj s = record s { objects = insert w obj s.objects; latest_version = w }

recorded_at-IsPool :
    (w : ℤ) (obj : CraqObject) (s : CraqProtoServer)
    → IsPool s s.sp_rx s.sp_tx
    → IsPool (recorded_at w obj s) s.sp_rx s.sp_tx
recorded_at-IsPool w obj s =
    IsPool-Untouched s (recorded_at w obj s) s.sp_rx s.sp_tx s.sp_rx s.sp_tx
      (refl, refl, refl, refl, refl, refl, refl, refl) refl refl

spent-IsPool :
    (w : ℤ) (obj : CraqObject) (s : CraqProtoServer)
    → s.tp_rx ≡ some tail_channel
    → IsPool s s.tp_rx s.tp_tx
    → IsPool (spent (recorded_at w obj s)) s.tp_rx s.tp_tx
spent-IsPool w obj s tp (tail_channel, rx, tx, more) = (tail_channel, rx, tx, more)
spent-IsPool w obj s tp (successor_channel, rx, tx, more) = absurd (cc (tp, rx))

spent-IsDirty :
    (mode : CrMode) (n i : ℕ) (v w : ℤ) (old obj : CraqObject) (s : CraqProtoServer)
    → v <ℤ w
    → IsReady mode n i v old s
    → IsDirty mode n i v w old obj (spent (recorded_at w obj s))
spent-IsDirty mode n i v w old obj s lt (y, (sp, tp), held, more) =
    let other : eqb_ℤ w v ≡ false = ground (arith, lt) in
    record {
      index = y.index;
      size = y.size;
      in_mode = y.in_mode;
      latest = refl;
      clean = y.clean;
      inner = more;
      connected = is_connected_of mode n i v s y more;
      tails = spent-IsPool w obj s tp (y.tails more);
      holds_old = lookup-insert w v obj s.objects ∙ rw other held;
      holds_new = lookup-insert w w obj s.objects ∙ rw ((eqb_ℤ_iff w w).1 refl) refl;
    }

-- The first `k` nodes of a chain from the `i`-th are ready, and the others in step.
abbrev pub ReadyFrom : CrMode → ℕ → ℕ → ℕ → ℤ → CraqObject → List CraqProtoServer → Type 0
ReadyFrom mode n i zero v old ss = InSyncFrom mode n i v ss × All (Holds v old) ss
ReadyFrom mode n i (suc k) v old [] = ⊥
ReadyFrom mode n i (suc k) v old (s ∷ ss) =
    IsReady mode n i v old s × ReadyFrom mode n (suc i) k v old ss

-- The first `k` nodes of a chain from the `i`-th are dirty, and the others in step.
abbrev pub DirtyFrom :
    CrMode → ℕ → ℕ → ℕ → ℤ → ℤ → CraqObject → CraqObject → List CraqProtoServer → Type 0
DirtyFrom mode n i zero v w old obj ss = InSyncFrom mode n i v ss × All (Holds v old) ss
DirtyFrom mode n i (suc k) v w old obj [] = ⊥
DirtyFrom mode n i (suc k) v w old obj (s ∷ ss) =
    IsDirty mode n i v w old obj s × DirtyFrom mode n (suc i) k v w old obj ss

abbrev pub broken : ThriftError
broken = transport "too many hops"

recorded-raise_latest :
    (v w : ℤ) (obj : CraqObject) (s : CraqProtoServer)
    → v <ℤ w
    → s.latest_version ≡ v
    → raise_latest w (store_object w obj s) ≡ recorded_at w obj s
unfolding raise_latest
recorded-raise_latest v w obj s lt latest =
    let newer : ltb_ℤ s.latest_version w ≡ true = ground (arith, latest, lt) in rw newer refl

handle_write_versioned_breaks :
    {W : Type 0} (r : Remote W) (mode : CrMode) (n i : ℕ) (v w : ℤ) (old obj : CraqObject)
    (e : ThriftError) (s : CraqProtoServer) (rest rest' : W)
    → v <ℤ w
    → IsReady mode n (suc i) v old s
    → r.write_versioned obj w rest ≡ (refusal e, rest')
    → handle_write_versioned r obj w s rest ≡ failed (spent (recorded_at w obj s)) rest' e
unfolding handle_write_versioned
handle_write_versioned_breaks r mode n i v w old obj e s rest rest' lt (y, (sp, tp), held, more)
      refusing =
    let head : is_head s.chain_ref ≡ false = ground (arith, y.index) in
    let tail : is_tail s.chain_ref ≡ false = ground (arith, y.index, y.size, more) in
    rw (head, tail)
      (rw (recorded-raise_latest v w obj s lt y.latest) (
        bind_failed (send_down r obj w) (λ _. modify (commit w))
          (send_down-spent r obj w e (recorded_at w obj s) rest rest' sp
            (recorded_at-IsPool w obj s (y.successors more)) refusing)))

delivery_breaks :
    (mode : CrMode) (n i k : ℕ) (v w : ℤ) (old obj : CraqObject) (ss : List CraqProtoServer)
    → v <ℤ w
    → ReadyFrom mode n (suc i) k v old ss
    → (ss' : List CraqProtoServer) × ((hops k).write_versioned obj w ss ≡ (refusal broken, ss'))
      × DirtyFrom mode n (suc i) k v w old obj ss'
unfolding hops
delivery_breaks mode n i zero v w old obj ss lt h = (ss, refl, h)
delivery_breaks mode n i (suc k) v w old obj [] lt h = absurd h
delivery_breaks mode n i (suc k) v w old obj (s ∷ ss) lt (ready, h) =
    let (ss', e, d) = delivery_breaks mode n (suc i) k v w old obj ss lt h in
    (
      spent (recorded_at w obj s) ∷ ss',
      rw (handle_write_versioned_breaks (hops k) mode n i v w old obj broken s ss ss' lt ready e)
          refl,
      (spent-IsDirty mode n (suc i) v w old obj s lt ready, d),
    )

-- On a chain in step whose link behind the `k`-th node after the head is broken, a write at the head
-- fails, and leaves the version with the head and those `k` nodes alone, as a dirty one.
pub handle_write-DirtyFrom :
    (mode : CrMode) (n k : ℕ) (v : ℤ) (old obj : CraqObject) (head : CraqProtoServer)
    (rest : Downstream)
    → v <ℤ i64_max
    → ReadyFrom mode n 0 (suc k) v old (head ∷ rest)
    → (head' : CraqProtoServer) × (rest' : Downstream) × (handle_write (hops k) obj head rest
        ≡ failed head' rest' broken)
      × DirtyFrom mode n 0 (suc k) v (next_i64 v) old obj (head' ∷ rest')
unfolding handle_write accept_write
handle_write-DirtyFrom mode n k v old obj head rest top ((y, (sp, tp), held, more), h) =
    let w = next_i64 v in
    let lt : v <ℤ w = (lt-next_i64 v top).0 in
    let (rest', e, d) = delivery_breaks mode n 0 k v w old obj rest lt h in
    let first : is_head head.chain_ref ≡ true = ground (arith, y.index) in
    (
      spent (recorded_at w obj head),
      rest',
      rw (is_connected_of mode n 0 v head y more, first)
          (rw (ap next_i64 y.latest) (
            bind_failed (send_down (hops k) obj w) (λ _. modify (settle w) >> pure w)
              (send_down-spent (hops k) obj w broken (recorded_at w obj head) rest rest' sp
                (recorded_at-IsPool w obj head (y.successors more)) e))),
      (spent-IsDirty mode n 0 v w old obj head lt (y, (sp, tp), held, more), d),
    )
