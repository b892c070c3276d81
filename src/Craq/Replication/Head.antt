-- ===== src/Craq/Replication/Head.antt =====
-- artillery-ddata/src/craq: what a client's write at the head of a chain comes to.
use artillery.Base.{
  ℕ, suc, ◌≤◌, ◌<◌, ◌≡◌, ◌≢◌, refl, sym, ap, ◌∙◌, true, false, [], ◌∷◌, arith, All,
}
use artillery.Base.Int.{ℤ, ◌<ℤ◌, ltb_ℤ, eqb_ℤ, eqb_ℤ_iff, eqb_ℤ_ne, i64_max, next_i64, lt-next_i64}
use artillery.Base.Dict.{insert, int_eq, lookup-insert}
use artillery.Craq.Chain.{is_head}
use artillery.Craq.Server.{
  CraqObject, CraqProtoServer, CrMode, answer, Remote, done, ◌>>◌, modify, pure, is_connected,
  no_version, send_down, store_object,
}
use artillery.Craq.Server.Writes.{handle_write, handle_test_and_set, accept_write, is_stale, settle}
use artillery.Craq.Replication.{Downstream, hops}
use artillery.Craq.Replication.Node.{
  InSync, Holds, Untouched, IsPool-Untouched, bind_done, send_down_answered,
}
use artillery.Craq.Replication.Commit.{InSyncFrom, InSyncFrom-length, deliver_in_sync}

recorded : ℤ → CraqObject → CraqProtoServer → CraqProtoServer
recorded w obj s = store_object w obj (record s { latest_version = w })

-- What the head is after a write that goes through: it keeps its old objects.
pub headed : ℤ → CraqObject → CraqProtoServer → CraqProtoServer
unfolding recorded
headed w obj s = record s {
  objects = insert w obj s.objects;
  latest_version = w;
  latest_clean_version = w;
}

recorded-Untouched :
    (w : ℤ) (obj : CraqObject) (s : CraqProtoServer) → Untouched s (recorded w obj s)
unfolding recorded
recorded-Untouched w obj s = (refl, refl, refl, refl, refl, refl, refl, refl)

settle-recorded :
    (mode : CrMode) (n : ℕ) (v w : ℤ) (obj : CraqObject) (s : CraqProtoServer)
    → v <ℤ w
    → InSync mode n 0 v s
    → settle w (recorded w obj s) ≡ headed w obj s
unfolding settle recorded headed
settle-recorded mode n v w obj s lt y =
    let newer : ltb_ℤ s.latest_clean_version w ≡ true = ground (arith, y.clean) in
    let same : ltb_ℤ w w ≡ false = ground arith in rw (newer, same)

accept_write-InSync :
    {W : Type 0} (r : Remote W) (mode : CrMode) (n : ℕ) (v w : ℤ) (obj : CraqObject)
    (s : CraqProtoServer) (rest rest' : W)
    → next_i64 s.latest_version ≡ w
    → v <ℤ w
    → InSync mode n 0 v s
    → 1 < n
    → r.write_versioned obj w rest ≡ (answer tt, rest')
    → accept_write r obj s rest ≡ done (headed w obj s) rest' w
unfolding accept_write recorded
accept_write-InSync r mode n v w obj s rest rest' next lt y more e = rw (next) (
    bind_done (send_down r obj w) (λ _. modify (settle w) >> pure w)
      (send_down_answered r obj w (recorded w obj s) rest rest'
        (IsPool-Untouched s (recorded w obj s) s.sp_rx s.sp_tx _ _ (recorded-Untouched w obj s)
          (recorded-Untouched w obj s).3 (recorded-Untouched w obj s).4 (y.successors more))
        e)
    ∙ ap (λ t. done t rest' w) (settle-recorded mode n v w obj s lt y))

headed-Untouched : (w : ℤ) (obj : CraqObject) (s : CraqProtoServer) → Untouched s (headed w obj s)
unfolding headed
headed-Untouched w obj s = (refl, refl, refl, refl, refl, refl, refl, refl)

headed-InSync :
    (mode : CrMode) (n : ℕ) (v w : ℤ) (obj : CraqObject) (s : CraqProtoServer)
    → InSync mode n 0 v s
    → InSync mode n 0 w (headed w obj s)
unfolding headed
headed-InSync mode n v w obj s y = record {
  index = y.index;
  size = y.size;
  in_mode = y.in_mode;
  latest = refl;
  clean = refl;
  successors = λ h.
      IsPool-Untouched s (headed w obj s) s.sp_rx s.sp_tx _ _ (headed-Untouched w obj s) refl refl
        (y.successors h);
  tails = λ h.
      IsPool-Untouched s (headed w obj s) s.tp_rx s.tp_tx _ _ (headed-Untouched w obj s) refl refl
        (y.tails h);
}

headed-Holds : (w : ℤ) (obj : CraqObject) (s : CraqProtoServer) → Holds w obj (headed w obj s)
unfolding headed
headed-Holds w obj s = lookup-insert w w obj s.objects ∙ rw ((eqb_ℤ_iff w w).1 refl)

-- A chain of at least two nodes, all in step at version `v`.
abbrev pub IsChain : CrMode → ℕ → ℤ → CraqProtoServer → Downstream → Type 0
IsChain mode n v head rest = (1 < n) × InSyncFrom mode n 0 v (head ∷ rest)

-- The write of `obj` as version `w` has reached every node of the chain.
pub record Committed (mode : CrMode) (n : ℕ) (w : ℤ) (obj : CraqObject) (head : CraqProtoServer)
    (rest : Downstream) : Type 0 where
  pub in_sync : InSyncFrom mode n 0 w (head ∷ rest)
  pub held : All (Holds w obj) (head ∷ rest)

accept_write-Committed :
    (mode : CrMode) (n k : ℕ) (v : ℤ) (obj : CraqObject) (head : CraqProtoServer)
    (rest : Downstream)
    → v <ℤ i64_max
    → n ≤ k
    → IsChain mode n v head rest
    → (head' : CraqProtoServer) × (rest' : Downstream) × (accept_write (hops k) obj head rest
        ≡ done head' rest' (next_i64 v))
      × Committed mode n (next_i64 v) obj head' rest'
accept_write-Committed mode n k v obj head [] top room (more, h) = absurd (omega (arith, h))
accept_write-Committed mode n k v obj head (s ∷ ss) top room (more, h) =
    let w = next_i64 v in
    let lt : v <ℤ w = (lt-next_i64 v top).0 in
    let (rest', e, y, holds) =
      deliver_in_sync mode n 0 k v w obj s ss lt
        (omega (arith, InSyncFrom-length mode n 1 v (s ∷ ss) h.1)) h.1 in
    (
      headed w obj head,
      rest',
      accept_write-InSync (hops k) mode n v w obj head (s ∷ ss) rest' (ap next_i64 h.0.latest) lt
          h.0 more e,
      record {
        in_sync = (headed-InSync mode n v w obj head h.0, y);
        held = (headed-Holds w obj head, holds);
      },
    )

pub is_connected_of :
    (mode : CrMode) (n i : ℕ) (v : ℤ) (s : CraqProtoServer)
    → InSync mode n i v s
    → suc i < n
    → is_connected s ≡ true
is_connected_of mode n i v s y more = ground (arith, y.successors more, y.tails more)

-- On a chain of at least two nodes that are in step at a version below the top of the `i64`s, with
-- as many hops allowed as there are nodes, a write at the head succeeds and returns the next
-- version, and leaves every node in step at that version and in possession of the object.
pub handle_write-Committed :
    (mode : CrMode) (n k : ℕ) (v : ℤ) (obj : CraqObject) (head : CraqProtoServer)
    (rest : Downstream)
    → v <ℤ i64_max
    → n ≤ k
    → IsChain mode n v head rest
    → (head' : CraqProtoServer) × (rest' : Downstream) × (handle_write (hops k) obj head rest
        ≡ done head' rest' (next_i64 v))
      × Committed mode n (next_i64 v) obj head' rest'
unfolding handle_write
handle_write-Committed mode n k v obj head rest top room (more, h) =
    let (head', rest', e, c) = accept_write-Committed mode n k v obj head rest top room (more, h) in
    let first : is_head head.chain_ref ≡ true = ground (arith, h.0.index) in
    (head', rest', rw (is_connected_of mode n 0 v head h.0 more, first) e, c)

-- On a chain of at least two nodes that are in step, a test-and-set that expects a version other
-- than the one the chain is at, and not -1, which asks for no test, returns -1 and changes no node.
pub handle_test_and_set_rejects :
    (mode : CrMode) (n k : ℕ) (v expected : ℤ) (obj : CraqObject) (head : CraqProtoServer)
    (rest : Downstream)
    → IsChain mode n v head rest
    → expected ≢ v
    → expected ≢ no_version
    → handle_test_and_set (hops k) obj expected head rest ≡ done head rest no_version
unfolding handle_test_and_set
handle_test_and_set_rejects mode n k v expected obj head rest (more, h) other asks =
    let first : is_head head.chain_ref ≡ true = ground (arith, h.0.index) in
    let connected = is_connected_of mode n 0 v head h.0 more in
    let wrong : eqb_ℤ head.latest_clean_version expected ≡ false =
      eqb_ℤ_ne head.latest_clean_version expected (λ e. other (sym e ∙ h.0.clean)) in
    rw (connected, first, eqb_ℤ_ne expected no_version asks, wrong)

handle_test_and_set-handle_write :
    (mode : CrMode) (n k : ℕ) (v : ℤ) (obj : CraqObject) (head : CraqProtoServer)
    (rest : Downstream)
    → IsChain mode n v head rest
    → handle_test_and_set (hops k) obj v head rest ≡ handle_write (hops k) obj head rest
unfolding handle_test_and_set handle_write
handle_test_and_set-handle_write mode n k v obj head rest (more, h) =
    let first : is_head head.chain_ref ≡ true = ground (arith, h.0.index) in
    let connected = is_connected_of mode n 0 v head h.0 more in
    let right : eqb_ℤ head.latest_clean_version v ≡ true = (eqb_ℤ_iff _ _).1 h.0.clean in
    let settled : eqb_ℤ head.latest_version head.latest_clean_version ≡ true =
      (eqb_ℤ_iff _ _).1 (h.0.latest ∙ sym h.0.clean) in
    let fresh : is_stale v head ≡ false = ground (arith, right, settled) in
    rw (connected, first, fresh)

-- On a chain of at least two nodes that are in step at a version below the top of the `i64`s, with
-- as many hops allowed as there are nodes, a test-and-set that expects the version of the chain
-- writes the object to every node and returns the next version.
pub handle_test_and_set-Committed :
    (mode : CrMode) (n k : ℕ) (v : ℤ) (obj : CraqObject) (head : CraqProtoServer)
    (rest : Downstream)
    → v <ℤ i64_max
    → n ≤ k
    → IsChain mode n v head rest
    → (head' : CraqProtoServer) × (rest' : Downstream) × (handle_test_and_set
          (hops k)
          obj
          v
          head
          rest
        ≡ done head' rest' (next_i64 v))
      × Committed mode n (next_i64 v) obj head' rest'
handle_test_and_set-Committed mode n k v obj head rest top room chain =
    let (head', rest', e, c) = handle_write-Committed mode n k v obj head rest top room chain in
    (head', rest', handle_test_and_set-handle_write mode n k v obj head rest chain ∙ e, c)
