-- ===== src/Craq/Interleaving/Versions.antt =====
-- artillery-ddata/src/craq/server.rs, `write`: the versions that writes at one head are given,
-- whatever the order of their steps.
use artillery.Base.{ℕ, zero, suc, ◌≤◌, ◌<◌, refl, sym, subst, inl, inr, List, [], ◌∷◌, arith, All}
use artillery.Base.Int.{ℤ, ◌<ℤ◌, next_i64, lt-next_i64}
use artillery.Craq.Server.{CraqProtoServer, Remote}
use artillery.Craq.Interleaving.{micro, Writer, System, step_list, step, run}
use artillery.Craq.Register.Requests.{HasRoom}
use artillery.Craq.Interleaving.Order.{
  version_of, AtMost, Effect, micro-Effect, waiting, IsBelow, AllApart, IsOrderly, Moved, Kept,
  Kept-numbered, Kept-same, Kept-cons,
}

Stepped : CraqProtoServer → List Writer → CraqProtoServer → List Writer → Type 0
unfolding Moved Kept
Stepped s xs s' xs' =
    Moved s.latest_version s.latest_clean_version xs s'.latest_version s'.latest_clean_version xs'
    × Kept s.latest_version xs s'.latest_version xs'

lt_next_of_room : (l : ℤ) (m : ℕ) → HasRoom l m → 0 < m → l <ℤ next_i64 l
lt_next_of_room l m h some_room = (lt-next_i64 l (ground (arith, h, some_room))).0

moved_head :
    (s s' : CraqProtoServer) (x x' : Writer) (xs : List Writer) (m : ℕ)
    → Effect x.pc s (x'.pc, s')
    → HasRoom s.latest_version m
    → waiting (x ∷ xs) ≤ m
    → All (IsBelow s.latest_version) (x ∷ xs)
    → AllApart (x ∷ xs)
    → Stepped s (x ∷ xs) s' (x' ∷ xs)
unfolding Stepped
moved_head s s' x x' xs m (inl (before, given, after, latest, clean)) room few below apart = (
  inl (latest, clean, omega (arith, before, after)),
  Kept-numbered s.latest_version s'.latest_version x x' xs (rw latest given)
      (rw latest (lt_next_of_room s.latest_version m room (omega (arith, before, few)))) below
      apart,
)
moved_head s s' x x' xs m (inr (before, given, after, latest, clean)) room few below apart = (
  inr (
    latest,
    omega (arith, before, after),
    elim clean [
      | inl same ↦ inl same
      | inr marked ↦
          inr (let b : AtMost s.latest_version (version_of x.pc) = below.0 in rw (← marked) at b)
    ],
  ),
  subst (λ l. Kept s.latest_version (x ∷ xs) l (x' ∷ xs)) (sym latest)
      (Kept-same s.latest_version x x' xs given below apart),
)

moved_tail :
    (s s' : CraqProtoServer) (x : Writer) (xs xs' : List Writer) (m : ℕ)
    → Stepped s xs s' xs'
    → HasRoom s.latest_version m
    → waiting (x ∷ xs) ≤ m
    → All (IsBelow s.latest_version) (x ∷ xs)
    → AllApart (x ∷ xs)
    → Stepped s (x ∷ xs) s' (x ∷ xs')
unfolding Stepped
moved_tail s s' x xs xs' m (inl (latest, clean, fewer), kept) room few below apart = (
  inl (latest, clean, omega (arith, fewer)),
  Kept-cons s.latest_version s'.latest_version x xs xs'
      (rw latest (
        let lt = lt_next_of_room s.latest_version m room (omega (arith, fewer, few)) in
        omega (arith, lt)))
      kept below apart,
)
moved_tail s s' x xs xs' m (inr (latest, as_many, clean), kept) room few below apart = (
  inr (latest, omega (arith, as_many), clean),
  Kept-cons s.latest_version s'.latest_version x xs xs' (rw latest (omega arith)) kept below apart,
)

step_list-Stepped :
    {W : Type 0} (r : Remote W) (i : ℕ) (s : CraqProtoServer) (w : W) (xs : List Writer) (m : ℕ)
    → HasRoom s.latest_version m
    → waiting xs ≤ m
    → All (IsBelow s.latest_version) xs
    → AllApart xs
    → let (sw, xs') = step_list r i s w xs in Stepped s xs sw.0 xs'
unfolding step_list Stepped
step_list-Stepped r i s w [] m room few below apart =
    (inr (refl, refl, inl refl), (tt, tt, λ z low others. tt))
step_list-Stepped r zero s w (x ∷ xs) m room few below apart =
    let y = micro r x.object x.pc s w in
    moved_head s y.0.1 x (record x { pc = y.0.0 }) xs m (micro-Effect r x.object x.pc s w) room few
      below apart
step_list-Stepped r (suc i) s w (x ∷ xs) m room few below apart =
    moved_tail s (step_list r i s w xs).0.0 x xs (step_list r i s w xs).1 m
      (step_list-Stepped r i s w xs m room (omega (arith, few)) below.1 apart.1) room few below
      apart

IsOrderly-after :
    (s s' : CraqProtoServer) (xs xs' : List Writer)
    → IsOrderly s xs
    → Stepped s xs s' xs'
    → IsOrderly s' xs'
unfolding Stepped
IsOrderly-after s s' xs xs' (room, clean_low, below, apart) (inl (latest, clean, fewer), kept) = (
  ground (arith, room, latest, fewer),
  ground (arith, room, latest, clean, fewer, clean_low),
  kept.0,
  kept.1,
)
IsOrderly-after s s' xs xs' (room, clean_low, below, apart) (inr (latest, as_many, clean), kept) = (
  rw (latest, as_many) room,
  rw latest (elim clean [ inl same ↦ rw same clean_low | inr low ↦ low ]),
  kept.0,
  kept.1,
)

-- Whatever the order of the steps of any number of writes at one head, no two writes are ever given
-- the same version, those that the successor refuses and those that panic included, no version is
-- above the head's latest one, and its clean version is never above its latest one, provided that this
-- holds at first and the versions do not run out.
pub run-IsOrderly :
    {W : Type 0} (r : Remote W) (schedule : List ℕ) (y : System W)
    → IsOrderly y.server y.writers
    → IsOrderly (run r schedule y).server (run r schedule y).writers
unfolding run step
run-IsOrderly r [] y h = h
run-IsOrderly r (i ∷ schedule) y (room, clean, below, apart) =
    run-IsOrderly r schedule (step r i y) (
      IsOrderly-after y.server (step r i y).server y.writers (step r i y).writers
        (room, clean, below, apart)
        (step_list-Stepped r i y.server y.others y.writers (waiting y.writers) room (omega arith)
          below apart))
