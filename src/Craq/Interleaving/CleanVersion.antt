-- ===== src/Craq/Interleaving/CleanVersion.antt =====
-- artillery-ddata/src/craq/server.rs, `write`: "TODO: It should be CAS." The clean version is loaded
-- in one step and stored in another.
use artillery.Base.{ℕ, ◌≡◌, refl, ap, List, [], ◌∷◌, ◌++◌, some, arith, ◌∙◌}
use artillery.Base.Int.{ℤ, ◌<ℤ◌, i64_max, next_i64, lt-next_i64}
use artillery.Craq.Server.{
  CraqObject, CraqProtoServer, Channel, tail_channel, successor_channel, answer, Remote, idle,
  store_object,
}
use artillery.Craq.Interleaving.{
  checked, loaded, finished, micro, Writer, System, step_list, step, run,
}

-- The pool of the successor and its one connection.
abbrev pub HasPool : Channel → CraqProtoServer → Type 0
HasPool c s = (s.sp_rx ≡ some c) × (s.sp_tx ≡ some c) × (idle c s ≡ 1)

-- A write up to the step behind which it holds the clean version that it has loaded.
to_loaded :
    {W : Type 0} (r : Remote W) (c : Channel) (obj : CraqObject) (s : CraqProtoServer) (w w' : W)
    (b : Writer)
    → HasPool c s
    → r.write_versioned obj (next_i64 s.latest_version) w ≡ (answer tt, w')
    → run r (0 ∷ 0 ∷ 0 ∷ 0 ∷ 0 ∷ 0 ∷ []) (record {
      server = s;
      others = w;
      writers = record { object = obj; pc = checked } ∷ b ∷ [];
    })
      ≡ record {
        server =
            store_object
              (next_i64 s.latest_version)
              obj
              (record s { latest_version = next_i64 s.latest_version });
        others = w';
        writers =
            record { object = obj; pc = loaded (next_i64 s.latest_version) s.latest_clean_version }
            ∷ b
            ∷ [];
      }
unfolding run step step_list micro
to_loaded r tail_channel obj s w w' b (rx, tx, one) e = ground arith
to_loaded r successor_channel obj s w w' b (rx, tx, one) e = ground arith

-- The other write from its start to its end, which stores its version as clean.
whole_write :
    {W : Type 0} (r : Remote W) (c : Channel) (obj : CraqObject) (s : CraqProtoServer) (w w' : W)
    (a : Writer)
    → HasPool c s
    → r.write_versioned obj (next_i64 s.latest_version) w ≡ (answer tt, w')
    → s.latest_clean_version <ℤ next_i64 s.latest_version
    → run r (1 ∷ 1 ∷ 1 ∷ 1 ∷ 1 ∷ 1 ∷ 1 ∷ 1 ∷ []) (record {
      server = s;
      others = w;
      writers = a ∷ record { object = obj; pc = checked } ∷ [];
    })
      ≡ record {
        server = store_object (next_i64 s.latest_version) obj (record s {
          latest_version = next_i64 s.latest_version;
          latest_clean_version = next_i64 s.latest_version;
        });
        others = w';
        writers = a ∷ record { object = obj; pc = finished (next_i64 s.latest_version) } ∷ [];
      }
unfolding run step step_list micro
whole_write r tail_channel obj s w w' a (rx, tx, one) e lt = ground arith
whole_write r successor_channel obj s w w' a (rx, tx, one) e lt = ground arith

-- The rest of a write that has loaded a clean version below its own.
from_loaded :
    {W : Type 0} (r : Remote W) (obj : CraqObject) (v clean : ℤ) (s : CraqProtoServer) (w : W)
    (b : Writer)
    → clean <ℤ v
    → run r (0 ∷ 0 ∷ []) (record {
      server = s;
      others = w;
      writers = record { object = obj; pc = loaded v clean } ∷ b ∷ [];
    })
      ≡ record {
        server = record s { latest_clean_version = v };
        others = w;
        writers = record { object = obj; pc = finished v } ∷ b ∷ [];
      }
unfolding run step step_list micro
from_loaded r obj v clean s w b lt = ground arith

run-append :
    {W : Type 0} (r : Remote W) (first second : List ℕ) (y : System W)
    → run r (first ++ second) y ≡ run r second (run r first y)
unfolding run
run-append r [] second y = refl
run-append r (i ∷ first) second y = run-append r first second (step r i y)

-- The first write loads the clean version, the second is done as a whole, the first goes on.
abbrev until_loaded : List ℕ
until_loaded = 0 ∷ 0 ∷ 0 ∷ 0 ∷ 0 ∷ 0 ∷ []

abbrev whole : List ℕ
whole = 1 ∷ 1 ∷ 1 ∷ 1 ∷ 1 ∷ 1 ∷ 1 ∷ 1 ∷ []

abbrev pub overtaken : List ℕ
overtaken = until_loaded ++ (whole ++ 0 ∷ 0 ∷ [])

abbrev numbered_as : CraqObject → CraqProtoServer → CraqProtoServer
numbered_as obj s =
    store_object (next_i64 s.latest_version) obj
      (record s { latest_version = next_i64 s.latest_version })

HasPool-numbered_as :
    (c : Channel) (obj : CraqObject) (s : CraqProtoServer)
    → HasPool c s
    → HasPool c (numbered_as obj s)
HasPool-numbered_as tail_channel obj s pool = pool
HasPool-numbered_as successor_channel obj s pool = pool

-- Both writes succeed, and the head takes the older version for the clean one.
abbrev pub GoesBack : {W : Type 0} → CraqObject → CraqObject → ℤ → System W → Type 0
GoesBack obj later v y =
    (y.writers
      ≡ record { object = obj; pc = finished v }
        ∷ record { object = later; pc = finished (next_i64 v) }
        ∷ [])
    × (y.server.latest_version ≡ next_i64 v)
    × (y.server.latest_clean_version ≡ v)

-- On a head with one connection whose clean version is its latest one, and whose latest version leaves
-- room for two more, two writes that the successor accepts can take turns so that both succeed and the
-- head is left with the older of the two versions as its clean version, below its latest one.
pub run-GoesBack :
    {W : Type 0} (r : Remote W) (c : Channel) (obj later : CraqObject) (s : CraqProtoServer)
    (w w1 w2 : W)
    → HasPool c s
    → s.latest_clean_version ≡ s.latest_version
    → s.latest_version <ℤ i64_max
    → next_i64 s.latest_version <ℤ i64_max
    → r.write_versioned obj (next_i64 s.latest_version) w ≡ (answer tt, w1)
    → r.write_versioned later (next_i64 (next_i64 s.latest_version)) w1 ≡ (answer tt, w2)
    → GoesBack obj later (next_i64 s.latest_version) (
        run r overtaken (record {
          server = s;
          others = w;
          writers =
              record { object = obj; pc = checked } ∷ record { object = later; pc = checked } ∷ [];
        }))
run-GoesBack r c obj later s w w1 w2 pool clean room more e f =
    let v = next_i64 s.latest_version in
    let s1 = numbered_as obj s in
    let newer = (lt-next_i64 s.latest_version room).0 in
    let newest = (lt-next_i64 v more).0 in
    let ends =
      run-append r until_loaded (whole ++ 0 ∷ 0 ∷ []) _
      ∙ ap (run r (whole ++ 0 ∷ 0 ∷ []))
          (to_loaded r c obj s w w1 (record { object = later; pc = checked }) pool e)
      ∙ run-append r whole (0 ∷ 0 ∷ []) _
      ∙ ap (run r (0 ∷ 0 ∷ [])) (
          whole_write r c later s1 w1 w2
            (record { object = obj; pc = loaded v s.latest_clean_version })
            (HasPool-numbered_as c obj s pool) f (rw clean (omega (arith, newer, newest))))
      ∙ from_loaded r obj v s.latest_clean_version _ w2 _ (rw clean newer) in
    (
      ap (λ y. y.writers) ends,
      ap (λ y. y.server.latest_version) ends,
      ap (λ y. y.server.latest_clean_version) ends,
    )
