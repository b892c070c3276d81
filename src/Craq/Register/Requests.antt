-- ===== src/Craq/Register/Requests.antt =====
-- artillery-ddata/src/craq: one request to a chain, and to the register that its clients see.
use artillery.Base.{
  ℕ, suc, ◌+◌, ◌-◌, ◌^◌, ◌≤◌, ◌<◌, ◌≡◌, refl, ◌⊎◌, inl, inr, true, ◌||◌, List, [], ◌∷◌, arith, All,
  Bool-cases,
}
use artillery.Base.Int.{ℤ, pos, pos_part, neg_part, ◌<ℤ◌, ◌≤ℤ◌, eqb_ℤ, eqb_ℤ_iff, i64_max, next_i64}
use artillery.Craq.Server.{
  CraqObject, CraqProtoServer, CrMode, CraqConsistencyModel, done, no_version,
}
use artillery.Craq.Server.Writes.{handle_write, handle_test_and_set}
use artillery.Craq.Replication.{Downstream, hops}
use artillery.Craq.Replication.Node.{Holds}
use artillery.Craq.Replication.Commit.{InSyncFrom, InSyncFrom-length}
use artillery.Craq.Replication.Head.{
  Committed, handle_write-Committed, handle_test_and_set_rejects, handle_test_and_set-Committed,
}
use artillery.Craq.Replication.Reads.{IsVersion}
use artillery.Craq.Replication.Consistency.{next-IsVersion}
use artillery.Craq.Client.RoundTrip.{IsServed}
use artillery.Craq.Register.{Op, write, test_and_set, read, Register, store, spec, call_at, serve}
use artillery.Craq.Register.Reading.{Stores, read_chain}

-- The nodes of a chain of `n` hold what the register holds.
abbrev pub Represents : CrMode → ℕ → Register → List CraqProtoServer → Type 0
Represents mode n g ss =
    (no_version ≤ℤ g.at_version)
    × InSyncFrom mode n 0 g.at_version ss
    × All (Stores g.at_version g.value) ss

-- A request that a client may make: a read names a node of the chain, a model that is served and a
-- bound that is not negative.
abbrev pub IsAllowed : ℕ → Op → Type 0
IsAllowed n (write obj) = Unit
IsAllowed n (test_and_set obj expected) = Unit
IsAllowed n (read i model bound) = (i < n) × IsServed model × (pos 0 ≤ℤ bound)

-- So many more versions fit an `i64`.
abbrev pub HasRoom : ℤ → ℕ → Type 0
HasRoom v m = pos_part v + m ≤ 2 ^ 63 - 1 + neg_part v

HasRoom-next : (v : ℤ) (m : ℕ) → HasRoom v (suc m) → HasRoom (next_i64 v) m
HasRoom-next v m h = ground (arith, h)

HasRoom-less : (v : ℤ) (m : ℕ) → HasRoom v (suc m) → HasRoom v m
HasRoom-less v m h = omega (arith, h)

lt_of_room : (v : ℤ) (m : ℕ) → HasRoom v (suc m) → v <ℤ i64_max
lt_of_room v m h = ground (arith, h)

Stores-Holds :
    (v : ℤ) (x : CraqObject) (ss : List CraqProtoServer)
    → IsVersion v
    → All (Holds v x) ss
    → All (Stores v x) ss
Stores-Holds v x [] valid h = tt
Stores-Holds v x (s ∷ ss) valid h = (inr (valid, h.0), Stores-Holds v x ss valid h.1)

-- What one request must come to.
abbrev pub Serves : CrMode → ℕ → ℕ → Op → Register → List CraqProtoServer → Type 0
Serves mode n k op g ss =
    (ss' : List CraqProtoServer) × (serve k op ss ≡ ((spec mode n op g).0, ss'))
    × Represents mode n (spec mode n op g).1 ss'

Committed-Represents :
    (mode : CrMode) (n : ℕ) (obj : CraqObject) (g : Register) (head : CraqProtoServer)
    (rest : Downstream)
    → no_version ≤ℤ g.at_version
    → g.at_version <ℤ i64_max
    → Committed mode n (next_i64 g.at_version) obj head rest
    → Represents mode n (store obj g) (head ∷ rest)
Committed-Represents mode n obj g head rest low top c =
    let valid = next-IsVersion g.at_version low top in
    (
      ground (arith, valid),
      c.in_sync,
      Stores-Holds (next_i64 g.at_version) obj (head ∷ rest) valid c.held,
    )

serve-write :
    (mode : CrMode) (n k : ℕ) (obj : CraqObject) (g : Register) (ss : List CraqProtoServer)
    → 1 < n
    → n ≤ k
    → g.at_version <ℤ i64_max
    → Represents mode n g ss
    → Serves mode n k (write obj) g ss
unfolding serve spec call_at
serve-write mode n k obj g [] more room top (low, y, h) = absurd (omega (arith, y, more))
serve-write mode n k obj g (head ∷ rest) more room top (low, y, h) =
    let (head', rest', e, c) =
      handle_write-Committed mode n k g.at_version obj head rest top room (more, y) in
    (head' ∷ rest', rw e refl, Committed-Represents mode n obj g head' rest' low top c)

-- A test-and-set that stores: the test is waived, or it succeeds.
test_and_set_stores :
    (mode : CrMode) (n k : ℕ) (obj : CraqObject) (expected : ℤ) (g : Register)
    (head : CraqProtoServer) (rest : Downstream)
    → 1 < n
    → n ≤ k
    → g.at_version <ℤ i64_max
    → Represents mode n g (head ∷ rest)
    → (expected ≡ no_version) ⊎ (expected ≡ g.at_version)
    → (head' : CraqProtoServer) × (rest' : Downstream) × (handle_test_and_set
          (hops k)
          obj
          expected
          head
          rest
        ≡ done head' rest' (next_i64 g.at_version))
      × Represents mode n (store obj g) (head' ∷ rest')
unfolding handle_test_and_set handle_write
test_and_set_stores mode n k obj expected g head rest more room top (low, y, h) (inl waived) =
    let (head', rest', e, c) =
      handle_write-Committed mode n k g.at_version obj head rest top room (more, y) in
    (head', rest', rw waived e, Committed-Represents mode n obj g head' rest' low top c)
test_and_set_stores mode n k obj expected g head rest more room top (low, y, h) (inr same) =
    let (head', rest', e, c) =
      handle_test_and_set-Committed mode n k g.at_version obj head rest top room (more, y) in
    (head', rest', rw same e, Committed-Represents mode n obj g head' rest' low top c)

either_of :
    (expected v : ℤ)
    → (eqb_ℤ expected no_version || eqb_ℤ expected v) ≡ true
    → (expected ≡ no_version) ⊎ (expected ≡ v)
either_of expected v h = elim (Bool-cases (eqb_ℤ expected no_version)) [
  | inl waived ↦ inl ((eqb_ℤ_iff expected no_version).0 waived)
  | inr asked ↦ inr ((eqb_ℤ_iff expected v).0 (ground arith))
]

serve-test_and_set :
    (mode : CrMode) (n k : ℕ) (obj : CraqObject) (expected : ℤ) (g : Register)
    (ss : List CraqProtoServer)
    → 1 < n
    → n ≤ k
    → g.at_version <ℤ i64_max
    → Represents mode n g ss
    → Serves mode n k (test_and_set obj expected) g ss
unfolding serve spec call_at
serve-test_and_set mode n k obj expected g [] more room top (low, y, h) =
    absurd (omega (arith, y, more))
serve-test_and_set mode n k obj expected g (head ∷ rest) more room top (low, y, h) =
    elim (Bool-cases (eqb_ℤ expected no_version || eqb_ℤ expected g.at_version)) [
      | inl stores ↦
          let (head', rest', e, represents) =
            test_and_set_stores mode n k obj expected g head rest more room top (low, y, h)
              (either_of expected g.at_version stores) in
          rw stores (head' ∷ rest', rw e refl, represents)
      | inr rejects ↦
          let e =
            handle_test_and_set_rejects mode n k g.at_version expected obj head rest (more, y)
              (λ same. ground (arith, eqb_ℤ_iff expected g.at_version, same))
              (λ same. ground (arith, eqb_ℤ_iff expected no_version, same)) in
          rw rejects (head ∷ rest, rw e refl, (low, y, h))
    ]

serve-read :
    (mode : CrMode) (n k i : ℕ) (model : CraqConsistencyModel) (bound : ℤ) (g : Register)
    (ss : List CraqProtoServer)
    → IsAllowed n (read i model bound)
    → Represents mode n g ss
    → Serves mode n k (read i model bound) g ss
unfolding serve spec
serve-read mode n k i model bound g ss (within, served, b) (low, y, h) =
    let e =
      read_chain (hops k) mode n 0 i g.at_version bound model g.value ss y h
        (omega (arith, InSyncFrom-length mode n 0 g.at_version ss y, within))
        (omega (arith, within)) served b in
    let here : 0 + i ≡ i = omega arith in (ss, rw (e, here) refl, (low, y, h))

pub spec-HasRoom :
    (mode : CrMode) (n m : ℕ) (op : Op) (g : Register)
    → HasRoom g.at_version (suc m)
    → HasRoom (spec mode n op g).1.at_version m
unfolding spec
spec-HasRoom mode n m (write obj) g h = HasRoom-next g.at_version m h
spec-HasRoom mode n m (test_and_set obj expected) g h =
    elim (Bool-cases (eqb_ℤ expected no_version || eqb_ℤ expected g.at_version)) [
      | inl stores ↦ rw stores (HasRoom-next g.at_version m h)
      | inr rejects ↦ rw rejects (HasRoom-less g.at_version m h)
    ]
spec-HasRoom mode n m (read i model bound) g h = HasRoom-less g.at_version m h

pub serve-Serves :
    (mode : CrMode) (n k m : ℕ) (op : Op) (g : Register) (ss : List CraqProtoServer)
    → 1 < n
    → n ≤ k
    → HasRoom g.at_version (suc m)
    → IsAllowed n op
    → Represents mode n g ss
    → Serves mode n k op g ss
serve-Serves mode n k m (write obj) g ss more room top allowed h =
    serve-write mode n k obj g ss more room (lt_of_room g.at_version m top) h
serve-Serves mode n k m (test_and_set obj expected) g ss more room top allowed h =
    serve-test_and_set mode n k obj expected g ss more room (lt_of_room g.at_version m top) h
serve-Serves mode n k m (read i model bound) g ss more room top allowed h =
    serve-read mode n k i model bound g ss allowed h
