-- ===== src/Craq/Replication/Node.antt =====
-- artillery-ddata/src/craq/server.rs: one node's part in a write that the nodes behind it accept.
use artillery.Base.{
  ℕ, suc, ◌<◌, ◌≡◌, refl, ◌⊎◌, inl, inr, true, false, List, [], ◌∷◌, Option, some, arith, length,
  retain, Bool-cases, ◌∙◌, ap,
}
use artillery.Base.Int.{ℤ, ◌<ℤ◌, ltb_ℤ, leb_ℤ, eqb_ℤ, eqb_ℤ_iff}
use artillery.Base.Dict.{lookup, insert, int_eq, lookup-insert}
use artillery.Craq.Chain.{is_head, is_tail}
use artillery.Craq.Server.{
  CraqObject, CraqProtoServer, CrMode, Channel, tail_channel, successor_channel, answer, Remote,
  done, M, ◌>>=◌, modify, idle, send_down, store_object,
}
use artillery.Craq.Server.Writes.{raise_latest, commit, handle_write_versioned}

-- A pool: both ends are there, and a connection is idle.
abbrev pub IsPool : CraqProtoServer → Option Channel → Option Channel → Type 0
IsPool s rx tx = (c : Channel) × (rx ≡ some c) × (tx ≡ some c) × (0 < idle c s)

-- Node `i` of `n` knows version `v` as the latest and as clean, and has its connections.
pub record InSync (mode : CrMode) (n i : ℕ) (v : ℤ) (s : CraqProtoServer) : Type 0 where
  pub index : s.chain_ref.node_idx ≡ i
  pub size : length s.chain_ref.nodes ≡ n
  pub in_mode : s.cr_mode ≡ mode
  pub latest : s.latest_version ≡ v
  pub clean : s.latest_clean_version ≡ v
  pub successors : suc i < n → IsPool s s.sp_rx s.sp_tx
  pub tails : suc i < n → IsPool s s.tp_rx s.tp_tx

abbrev pub Holds : ℤ → CraqObject → CraqProtoServer → Type 0
Holds v obj s = lookup v s.objects ≡ some obj

pub bind_done :
    {W A B : Type 0} (m : M W A) (f : A → M W B) {s s' : CraqProtoServer} {w w' : W} {a : A}
    → m s w ≡ done s' w' a
    → (m >>= f) s w ≡ f a s' w'
bind_done m f e = rw (e, ◌>>=◌)

-- A call down the chain that is answered leaves the node as it was: its connection is put back.
pub send_down_answered :
    {W : Type 0} (r : Remote W) (obj : CraqObject) (version : ℤ) (s : CraqProtoServer) (w w' : W)
    → IsPool s s.sp_rx s.sp_tx
    → r.write_versioned obj version w ≡ (answer tt, w')
    → send_down r obj version s w ≡ done s w' tt
unfolding send_down
send_down_answered r obj version s w w' (tail_channel, rx, tx, pos) e = ground arith
send_down_answered r obj version s w w' (successor_channel, rx, tx, pos) e = ground arith

lookup-retain :
    {V : Type 0} (w : ℤ) (m : List (ℤ × V)) → lookup w (retain (λ e. leb_ℤ w e.0) m) ≡ lookup w m
unfolding lookup
lookup-retain w [] = refl
lookup-retain w ((k, x) ∷ m) = elim (Bool-cases (leb_ℤ w k)) [
  | inl kept ↦ rw kept (ground (arith, lookup-retain w m))
  | inr gone ↦ let other : eqb_ℤ k w ≡ false = ground arith in rw (gone, other) (lookup-retain w m)
]

pub stored : ℤ → CraqObject → CraqProtoServer → CraqProtoServer
stored w obj s = raise_latest w (store_object w obj s)

-- What a node is after a versioned write that goes through.
pub written : ℤ → CraqObject → CraqProtoServer → CraqProtoServer
written w obj s = commit w (stored w obj s)

-- A write touches no connection and not the chain.
abbrev pub Untouched : CraqProtoServer → CraqProtoServer → Type 0
Untouched s t =
    (t.chain_ref ≡ s.chain_ref)
    × (t.tp_rx ≡ s.tp_rx)
    × (t.tp_tx ≡ s.tp_tx)
    × (t.sp_rx ≡ s.sp_rx)
    × (t.sp_tx ≡ s.sp_tx)
    × (t.tail_idle ≡ s.tail_idle)
    × (t.successor_idle ≡ s.successor_idle)
    × (t.cr_mode ≡ s.cr_mode)

stored-Untouched : (w : ℤ) (obj : CraqObject) (s : CraqProtoServer) → Untouched s (stored w obj s)
unfolding stored raise_latest
stored-Untouched w obj s = (refl, refl, refl, refl, refl, refl, refl, refl)

written-Untouched : (w : ℤ) (obj : CraqObject) (s : CraqProtoServer) → Untouched s (written w obj s)
unfolding written stored commit raise_latest
written-Untouched w obj s = ground arith

pub IsPool-Untouched :
    (s t : CraqProtoServer) (rx tx rx' tx' : Option Channel)
    → Untouched s t
    → rx' ≡ rx
    → tx' ≡ tx
    → IsPool s rx tx
    → IsPool t rx' tx'
IsPool-Untouched s t rx tx rx' tx' u e f (tail_channel, p, q, pos) =
    (tail_channel, e ∙ p, f ∙ q, omega (arith, u))
IsPool-Untouched s t rx tx rx' tx' u e f (successor_channel, p, q, pos) =
    (successor_channel, e ∙ p, f ∙ q, omega (arith, u))

written-versions :
    (mode : CrMode) (n i : ℕ) (v w : ℤ) (obj : CraqObject) (s : CraqProtoServer)
    → v <ℤ w
    → InSync mode n i v s
    → ((written w obj s).latest_version ≡ w) × ((written w obj s).latest_clean_version ≡ w)
unfolding written stored commit raise_latest
written-versions mode n i v w obj s lt y = ground (arith, y.latest, y.clean)

pub written-InSync :
    (mode : CrMode) (n i : ℕ) (v w : ℤ) (obj : CraqObject) (s : CraqProtoServer)
    → v <ℤ w
    → InSync mode n i v s
    → InSync mode n i w (written w obj s)
written-InSync mode n i v w obj s lt y =
    let u = written-Untouched w obj s in
    let (latest, clean) = written-versions mode n i v w obj s lt y in
    record {
      index = ap (λ c. c.node_idx) u.0 ∙ y.index;
      size = ap (λ c. length c.nodes) u.0 ∙ y.size;
      in_mode = u.7 ∙ y.in_mode;
      latest = latest;
      clean = clean;
      successors =
          λ h. IsPool-Untouched s (written w obj s) s.sp_rx s.sp_tx _ _ u u.3 u.4 (y.successors h);
      tails = λ h. IsPool-Untouched s (written w obj s) s.tp_rx s.tp_tx _ _ u u.1 u.2 (y.tails h);
    }

written-objects :
    (mode : CrMode) (n i : ℕ) (v w : ℤ) (obj : CraqObject) (s : CraqProtoServer)
    → v <ℤ w
    → InSync mode n i v s
    → ((written w obj s).objects ≡ insert w obj s.objects)
      ⊎ ((written w obj s).objects ≡ retain (λ e. leb_ℤ w e.0) (insert w obj s.objects))
unfolding written stored commit raise_latest
written-objects mode n i v w obj s lt y =
    let newer : ltb_ℤ s.latest_clean_version w ≡ true = ground (arith, y.clean) in
    let same : ltb_ℤ w w ≡ false = ground arith in
    elim (Bool-cases (is_tail s.chain_ref)) [
      | inl tail ↦ inr (rw (newer, same, tail))
      | inr tail ↦ inl (rw (newer, same, tail))
    ]

pub written-Holds :
    (mode : CrMode) (n i : ℕ) (v w : ℤ) (obj : CraqObject) (s : CraqProtoServer)
    → v <ℤ w
    → InSync mode n i v s
    → Holds w obj (written w obj s)
written-Holds mode n i v w obj s lt y =
    let found : lookup w (insert w obj s.objects) ≡ some obj =
      lookup-insert w w obj s.objects ∙ rw ((eqb_ℤ_iff w w).1 refl) in
    elim (written-objects mode n i v w obj s lt y) [
      | inl e ↦ rw e found
      | inr e ↦ rw e (lookup-retain w (insert w obj s.objects) ∙ found)
    ]

pub handle_write_versioned_middle :
    {W : Type 0} (r : Remote W) (mode : CrMode) (n i : ℕ) (v w : ℤ) (obj : CraqObject)
    (s : CraqProtoServer) (rest rest' : W)
    → InSync mode n (suc i) v s
    → suc (suc i) < n
    → r.write_versioned obj w rest ≡ (answer tt, rest')
    → handle_write_versioned r obj w s rest ≡ done (written w obj s) rest' tt
unfolding handle_write_versioned written stored
handle_write_versioned_middle r mode n i v w obj s rest rest' y more e =
    let head : is_head s.chain_ref ≡ false = ground (arith, y.index) in
    let tail : is_tail s.chain_ref ≡ false = ground (arith, y.index, y.size) in
    rw (head, tail)
      (bind_done (send_down r obj w) (λ _. modify (commit w))
        (send_down_answered r obj w (stored w obj s) rest rest'
          (IsPool-Untouched s (stored w obj s) s.sp_rx s.sp_tx _ _ (stored-Untouched w obj s)
            (stored-Untouched w obj s).3 (stored-Untouched w obj s).4 (y.successors more))
          e))

pub handle_write_versioned_tail :
    {W : Type 0} (r : Remote W) (mode : CrMode) (n i : ℕ) (v w : ℤ) (obj : CraqObject)
    (s : CraqProtoServer) (rest : W)
    → InSync mode n (suc i) v s
    → suc (suc i) ≡ n
    → handle_write_versioned r obj w s rest ≡ done (written w obj s) rest tt
unfolding handle_write_versioned written stored
handle_write_versioned_tail r mode n i v w obj s rest y more =
    let head : is_head s.chain_ref ≡ false = ground (arith, y.index) in
    let tail : is_tail s.chain_ref ≡ true = ground (arith, y.index, y.size) in rw (head, tail) refl
