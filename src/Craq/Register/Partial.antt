-- ===== src/Craq/Register/Partial.antt =====
-- artillery-ddata/src/craq: what reads return after a write that has failed on its way down the chain.
use artillery.Base.{
  ℕ, zero, suc, ◌+◌, ◌<◌, ◌≡◌, refl, ap, ◌∙◌, inl, inr, Bool, true, false, not, ◌&&◌, List, [], ◌∷◌,
  some, arith, All, length, ltb, if◌then◌else◌,
}
use artillery.Base.Int.{ℤ, pos, ◌≤ℤ◌, ◌<ℤ◌, ltb_ℤ, i64_max, next_i64, lt-next_i64}
use artillery.Base.Dict.{lookup, int_eq}
use artillery.Craq.Chain.{is_tail}
use artillery.Craq.Server.{
  CraqObject, CraqProtoServer, CrMode, craq, is_cr, tail_channel, successor_channel, Remote, answer,
  done, failed, strong, eventual, copy_object, is_connected, CraqConsistencyModel, M, pure,
}
use artillery.Craq.Server.Writes.{handle_version_query, handle_write}
use artillery.Craq.Server.Reads.{handle_read, get_obj_from_version_query, copied}
use artillery.Craq.Replication.{Downstream, hops, query_tail, reply_of}
use artillery.Craq.Replication.Node.{IsPool, Holds, bind_done}
use artillery.Craq.Replication.Commit.{InSyncFrom-length}
use artillery.Craq.Replication.Reads.{IsVersion, nonempty_of_lookup}
use artillery.Craq.Replication.Broken.{
  IsDirty, DirtyFrom, ReadyFrom, broken, handle_write-DirtyFrom,
}
use artillery.Craq.Client.RoundTrip.{IsServed}
use artillery.Craq.Register.{call_at}
use artillery.Craq.Register.Reading.{Stores, read_chain}

-- The last node is in step, so that a version query returns the old version.
query_tail-DirtyFrom :
    (r : Remote Downstream) (mode : CrMode) (n i k : ℕ) (v w : ℤ) (old obj : CraqObject)
    (ss : List CraqProtoServer)
    → DirtyFrom mode n i k v w old obj ss
    → i < n
    → query_tail r ss ≡ answer v
unfolding handle_version_query
query_tail-DirtyFrom r mode n i zero v w old obj [] h lt = absurd (omega (arith, h.0, lt))
query_tail-DirtyFrom r mode n i zero v w old obj (s ∷ []) ((y, last), _) lt =
    let tail : is_tail s.chain_ref ≡ true = ground (arith, y.index, y.size, last) in
    rw (tail, query_tail) (ap answer y.clean)
query_tail-DirtyFrom r mode n i zero v w old obj (s ∷ t ∷ ss) ((y, z), (_, held)) lt =
    query_tail-DirtyFrom r mode n (suc i) zero v w old obj (t ∷ ss) (z, held)
      (omega (arith, InSyncFrom-length mode n (suc i) v (t ∷ ss) z))
query_tail-DirtyFrom r mode n i (suc k) v w old obj [] h lt = absurd h
query_tail-DirtyFrom r mode n i (suc zero) v w old obj (s ∷ []) (d, (last, _)) lt =
    absurd (omega (arith, d.inner, last))
query_tail-DirtyFrom r mode n i (suc (suc k)) v w old obj (s ∷ []) (d, h) lt = absurd h
query_tail-DirtyFrom r mode n i (suc k) v w old obj (s ∷ t ∷ ss) (d, h) lt =
    query_tail-DirtyFrom r mode n (suc i) k v w old obj (t ∷ ss) h d.inner

-- A version query that is answered leaves the node as it was, and finds the object of that version.
query_found :
    {W : Type 0} (r : Remote W) (v : ℤ) (old : CraqObject) (s : CraqProtoServer) (w : W)
    → IsPool s s.tp_rx s.tp_tx
    → pos 0 ≤ℤ v
    → Holds v old s
    → r.version_query w ≡ (answer v, w)
    → get_obj_from_version_query r s w ≡ done s w old
unfolding get_obj_from_version_query
query_found r v old s w (tail_channel, rx, tx, more) valid held answers =
    let fits : ltb_ℤ v (pos 0) ≡ false = ground (arith, valid) in ground arith
query_found r v old s w (successor_channel, rx, tx, more) valid held answers =
    let fits : ltb_ℤ v (pos 0) ≡ false = ground (arith, valid) in ground arith

copied_done :
    {W : Type 0} (m : M W CraqObject) (dirty : Bool) (obj : CraqObject) (s : CraqProtoServer)
    (w : W)
    → m s w ≡ done s w obj
    → copied m dirty s w ≡ done s w (copy_object obj dirty)
copied_done m dirty obj s w e = bind_done m (λ o. pure (copy_object o dirty)) e

-- The reads of a node that a write has reached which failed behind it.
read_dirty :
    {W : Type 0} (r : Remote W) (n i : ℕ) (v x bound : ℤ) (old obj : CraqObject)
    (s : CraqProtoServer) (w : W)
    → IsDirty craq n i v x old obj s
    → v <ℤ x
    → pos 0 ≤ℤ v
    → r.version_query w ≡ (answer v, w)
    → (handle_read r strong bound s w ≡ done s w (copy_object old true))
      × (handle_read r eventual bound s w ≡ done s w (copy_object obj false))
unfolding handle_read
read_dirty r n i v x bound old obj s w d lt valid answers =
    let tail : is_tail s.chain_ref ≡ false = ground (arith, d.index, d.size, d.inner) in
    let stored = nonempty_of_lookup v old s.objects d.holds_old in
    let behind : ltb_ℤ s.latest_clean_version s.latest_version ≡ true =
      ground (arith, d.latest, d.clean, lt) in
    let latest = ap (λ k. lookup k s.objects) d.latest ∙ d.holds_new in
    let ready : (not (is_tail s.chain_ref) && not (is_connected s)) ≡ false =
      ground (arith, d.connected) in
    let allowed : (is_cr s.cr_mode && not (is_tail s.chain_ref)) ≡ false =
      ground (arith, d.in_mode) in
    let asks : (ltb_ℤ s.latest_clean_version s.latest_version && not (is_tail s.chain_ref)) ≡ true =
      ground (arith, behind, tail) in
    (
      rw (ready, allowed, stored)
          (rw asks (
            copied_done (get_obj_from_version_query r) true old s w
              (query_found r v old s w d.tails valid d.holds_old answers))),
      rw (ready, allowed, stored) (rw latest refl),
    )

-- A strong and an eventual read at the node `j` of a chain that a write has reached up to its `k`-th node.
abbrev pub PartlyRead : ℕ → ℕ → ℕ → ℤ → CraqObject → CraqObject → List CraqProtoServer → Type 0
PartlyRead k j m bound old obj ss =
    (call_at j (handle_read (hops (suc m)) strong bound) ss
      ≡ some (answer (copy_object old (ltb j k)), ss))
    × (call_at j (handle_read (hops (suc m)) eventual bound) ss
        ≡ some (answer (copy_object (if ltb j k then obj else old) false), ss))

DirtyFrom-length :
    (mode : CrMode) (n i k : ℕ) (v w : ℤ) (old obj : CraqObject) (ss : List CraqProtoServer)
    → DirtyFrom mode n i k v w old obj ss
    → i + length ss ≡ n
DirtyFrom-length mode n i zero v w old obj ss h = InSyncFrom-length mode n i v ss h.0
DirtyFrom-length mode n i (suc k) v w old obj [] h = absurd h
DirtyFrom-length mode n i (suc k) v w old obj (s ∷ ss) (d, h) =
    omega (arith, DirtyFrom-length mode n (suc i) k v w old obj ss h)

read_partly :
    (n i k j m : ℕ) (v w bound : ℤ) (old obj : CraqObject) (ss : List CraqProtoServer)
    → IsVersion v
    → v <ℤ w
    → pos 0 ≤ℤ bound
    → DirtyFrom craq n i k v w old obj ss
    → i + length ss ≡ n
    → j < length ss
    → PartlyRead k j m bound old obj ss
unfolding call_at hops
read_partly n i zero j m v w bound old obj ss version lt b (y, held) whole inside =
    let fresh : ltb j 0 ≡ false = ground arith in
    let read : (model : CraqConsistencyModel)
        → IsServed model
        → call_at j (handle_read (hops (suc m)) model bound) ss
          ≡ some (answer (copy_object old false), ss) =
      λ model served.
        read_chain (hops (suc m)) craq n i j v bound model old ss y (held_stores ss held) inside
          (omega (arith, whole, inside)) served b in
    rw fresh (read strong (inl refl), read eventual (inr (inl refl)))
  where
    held_stores : (ts : List CraqProtoServer) → All (Holds v old) ts → All (Stores v old) ts
    held_stores [] h = tt
    held_stores (t ∷ ts) h = (inr (version, h.0), held_stores ts h.1)
read_partly n i (suc k) j m v w bound old obj [] version lt b h whole inside = absurd h
read_partly n i (suc k) zero m v w bound old obj (s ∷ ss) version lt b (d, h) whole inside =
    let found = read_dirty (hops (suc m)) n i v w bound old obj s ss d lt version.0 (
      ap (λ a. (a, ss))
        (query_tail-DirtyFrom (hops m) craq n (suc i) k v w old obj ss h d.inner)) in
    let reached : ltb 0 (suc k) ≡ true = ground arith in
    rw reached (ap (λ o. some (reply_of o)) (found.0), ap (λ o. some (reply_of o)) (found.1))
read_partly n i (suc k) (suc j) m v w bound old obj (s ∷ ss) version lt b (d, h) whole inside =
    let (strongly, eventually) =
      read_partly n (suc i) k j m v w bound old obj ss version lt b h (omega (arith, whole))
        (omega (arith, inside)) in
    let same : ltb (suc j) (suc k) ≡ ltb j k = ground arith in
    rw same (rw strongly refl, rw eventually refl)

-- A write that fails on its way down: on a chain in the mode `Craq` that is in step at a version from 0 to
-- below the top of the `i64`s, whose first nodes have two pools each, and whose link behind the `k`-th node
-- after the head is broken, a write at the head fails. Afterwards a strong read at any node returns the old
-- object, as a dirty one at the nodes that the write has reached; an eventual read returns the new object
-- at those nodes, and the old one at the others.
pub failed_write-PartlyRead :
    (n k : ℕ) (v : ℤ) (old obj : CraqObject) (head : CraqProtoServer) (rest : Downstream)
    → pos 0 ≤ℤ v
    → v <ℤ i64_max
    → ReadyFrom craq n 0 (suc k) v old (head ∷ rest)
    → (head' : CraqProtoServer) × (rest' : Downstream) × (handle_write (hops k) obj head rest
        ≡ failed head' rest' broken)
      × ((j m : ℕ) (bound : ℤ)
          → j < n
          → pos 0 ≤ℤ bound
          → PartlyRead (suc k) j m bound old obj (head' ∷ rest'))
failed_write-PartlyRead n k v old obj head rest low top ready =
    let (head', rest', fails, d) = handle_write-DirtyFrom craq n k v old obj head rest top ready in
    let whole = DirtyFrom-length craq n 0 (suc k) v (next_i64 v) old obj (head' ∷ rest') d in
    (
      head',
      rest',
      fails,
      λ j m bound inside b.
          read_partly n 0 (suc k) j m v (next_i64 v) bound old obj (head' ∷ rest')
            (low, omega (arith, top)) (lt-next_i64 v top).0 b d whole
            (omega (arith, inside, whole)),
    )
