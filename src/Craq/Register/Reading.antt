-- ===== src/Craq/Register/Reading.antt =====
-- artillery-ddata/src/craq/server.rs: a read at any node of a chain whose nodes are in step.
use artillery.Base.{
  ℕ, zero, suc, ◌+◌, ◌<◌, ◌≡◌, refl, ap, ◌∙◌, ◌⊎◌, inl, inr, true, false, not, ◌&&◌, List, [], ◌∷◌,
  some, arith, All, length, ◌==◌, Bool-cases,
}
use artillery.Base.Int.{ℤ, pos, ◌≤ℤ◌}
use artillery.Craq.Chain.{is_tail}
use artillery.Craq.Server.{
  CraqObject, default_object, CraqProtoServer, CrMode, cr, craq, is_cr, CraqConsistencyModel,
  Remote, done, no_version, copy_object,
}
use artillery.Craq.Server.Reads.{handle_read, is_empty}
use artillery.Craq.Replication.{Downstream, reply_of}
use artillery.Craq.Replication.Node.{InSync, Holds}
use artillery.Craq.Replication.Commit.{InSyncFrom}
use artillery.Craq.Replication.Reads.{IsVersion, MayRead, handle_read-InSync, passes_connected}
use artillery.Craq.Client.RoundTrip.{IsServed}
use artillery.Craq.Register.{may_not_read, read_register, call_at}

-- A node in step at version `v` stores `x` as that version, or nothing before the first write.
abbrev pub Stores : ℤ → CraqObject → CraqProtoServer → Type 0
Stores v x s =
    ((v ≡ no_version) × (x ≡ default_object) × (is_empty s.objects ≡ true))
    ⊎ (IsVersion v × Holds v x s)

tail_test :
    (mode : CrMode) (n i : ℕ) (v : ℤ) (s : CraqProtoServer)
    → InSync mode n i v s
    → i < n
    → (is_cr s.cr_mode && not (is_tail s.chain_ref)) ≡ may_not_read mode n i
tail_test mode n i v s y lt =
    let t : is_tail s.chain_ref ≡ (suc i == n) = ground (arith, y.index, y.size) in
    rw (y.in_mode, t) refl

MayRead-of : (mode : CrMode) (n i : ℕ) → may_not_read mode n i ≡ false → MayRead mode n i
MayRead-of craq n i h = inl refl
MayRead-of cr n i h = inr (ground arith)

answers_held :
    (r : Remote Downstream) (mode : CrMode) (n i : ℕ) (v bound : ℤ) (model : CraqConsistencyModel)
    (x : CraqObject) (s : CraqProtoServer) (w : Downstream)
    → InSync mode n i v s
    → MayRead mode n i
    → i < n
    → IsServed model
    → pos 0 ≤ℤ bound
    → IsVersion v
    → Holds v x s
    → handle_read r model bound s w ≡ done s w (copy_object x false)
answers_held r mode n i v bound model x s w y may lt served b version held =
    let reads = handle_read-InSync r mode n i v bound x s w y may lt version b held in
    elim served [
      | inl e ↦ rw e (reads.0)
      | inr (inl e) ↦ rw e (reads.1)
      | inr (inr e) ↦ rw e (reads.2)
    ]

-- What a node answers to a read: the value of the register, or a refusal, and nothing changes.
read_node :
    (r : Remote Downstream) (mode : CrMode) (n i : ℕ) (v bound : ℤ) (model : CraqConsistencyModel)
    (x : CraqObject) (s : CraqProtoServer) (w : Downstream)
    → InSync mode n i v s
    → i < n
    → IsServed model
    → pos 0 ≤ℤ bound
    → Stores v x s
    → reply_of (handle_read r model bound s w) ≡ (read_register mode n i x, s ∷ w)
unfolding handle_read
read_node r mode n i v bound model x s w y lt served b stored =
    let connected = passes_connected mode n i v s y lt in
    let test = tail_test mode n i v s y lt in
    elim (Bool-cases (may_not_read mode n i)) [
      | inl barred ↦ rw (connected, test ∙ barred, barred) refl
      | inr free ↦ elim stored [
        | inl (_, e, empty) ↦ rw (connected, test ∙ free, free, empty, e) refl
        | inr (version, held) ↦ rw (free) (
            ap reply_of (
              answers_held r mode n i v bound model x s w y (MayRead-of mode n i free) lt served b
                version held))
      ]
    ]

-- A read at the node `j` behind the node `i` of the chain.
pub read_chain :
    (r : Remote Downstream) (mode : CrMode) (n i j : ℕ) (v bound : ℤ) (model : CraqConsistencyModel)
    (x : CraqObject) (ss : List CraqProtoServer)
    → InSyncFrom mode n i v ss
    → All (Stores v x) ss
    → j < length ss
    → i + j < n
    → IsServed model
    → pos 0 ≤ℤ bound
    → call_at j (handle_read r model bound) ss ≡ some (read_register mode n (i + j) x, ss)
unfolding call_at
read_chain r mode n i j v bound model x [] y h lt room served b = absurd (omega (arith, lt))
read_chain r mode n i zero v bound model x (s ∷ ss) y h lt room served b =
    let here : i + zero ≡ i = omega arith in
    rw here
      (ap some (read_node r mode n i v bound model x s ss y.0 (omega (arith, room)) served b h.0))
read_chain r mode n i (suc j) v bound model x (s ∷ ss) y h lt room served b =
    let behind : i + suc j ≡ suc i + j = omega arith in
    rw behind (
      rw
        (read_chain r mode n (suc i) j v bound model x ss y.1 h.1 (omega (arith, lt))
          (omega (arith, room)) served b)
        refl)
