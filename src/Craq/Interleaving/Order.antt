-- ===== src/Craq/Interleaving/Order.antt =====
-- artillery-ddata/src/craq/server.rs, `write`: the versions that writes at one head have, and what one
-- step does to them.
use artillery.Base.{
  ℕ, suc, ◌+◌, ◌≡◌, ◌≢◌, refl, sym, ◌⊎◌, inl, inr, List, [], ◌∷◌, Option, none, some, arith, All,
}
use artillery.Base.Int.{ℤ, ◌<ℤ◌, ◌≤ℤ◌, next_i64}
use artillery.Craq.Server.{CraqObject, CraqProtoServer, Remote}
use artillery.Craq.Interleaving.{
  Pc, checked, numbered, recorded, connected, answered, returned, loaded, updated, finished,
  refused, crashed, micro, Writer,
}
use artillery.Craq.Register.Requests.{HasRoom}

-- The version that a write has been given.
abbrev pub version_of : Pc → Option ℤ
version_of checked = none
version_of (numbered v) = some v
version_of (recorded v) = some v
version_of (connected v) = some v
version_of (answered v) = some v
version_of (returned v) = some v
version_of (loaded v clean) = some v
version_of (updated v clean) = some v
version_of (finished v) = some v
version_of (refused v e) = some v
version_of (crashed v) = some v

abbrev pub AtMost : ℤ → Option ℤ → Type 0
AtMost l none = Unit
AtMost l (some v) = v ≤ℤ l

abbrev pub Apart : Option ℤ → Option ℤ → Type 0
Apart none b = Unit
Apart (some v) none = Unit
Apart (some v) (some w) = v ≢ w

abbrev pub waits : Pc → ℕ
waits checked = 1
waits _ = 0

-- What a step may do to the version of its write and to the server's versions.
abbrev pub Effect : Pc → CraqProtoServer → Pc × CraqProtoServer → Type 0
Effect pc s (pc', s') =
    ((waits pc ≡ 1)
      × (version_of pc' ≡ some (next_i64 s.latest_version))
      × (waits pc' ≡ 0)
      × (s'.latest_version ≡ next_i64 s.latest_version)
      × (s'.latest_clean_version ≡ s.latest_clean_version))
    ⊎ ((waits pc ≡ 0)
        × ((version_of pc' ≡ version_of pc) ⊎ (version_of pc' ≡ none))
        × (waits pc' ≡ 0)
        × (s'.latest_version ≡ s.latest_version)
        × ((s'.latest_clean_version ≡ s.latest_clean_version)
            ⊎ (some s'.latest_clean_version ≡ version_of pc)))

pub micro-Effect :
    {W : Type 0} (r : Remote W) (obj : CraqObject) (pc : Pc) (s : CraqProtoServer) (w : W)
    → Effect pc s (micro r obj pc s w).0
unfolding micro
micro-Effect r obj checked s w = inl (refl, refl, refl, refl, refl)
micro-Effect r obj (numbered v) s w = inr (refl, inl refl, refl, refl, inl refl)
micro-Effect r obj (recorded v) s w = inr (ground arith)
micro-Effect r obj (connected v) s w = inr (ground arith)
micro-Effect r obj (answered v) s w = inr (ground arith)
micro-Effect r obj (returned v) s w = inr (refl, inl refl, refl, refl, inl refl)
micro-Effect r obj (loaded v clean) s w = inr (ground arith)
micro-Effect r obj (updated v clean) s w = inr (ground arith)
micro-Effect r obj (finished v) s w = inr (refl, inl refl, refl, refl, inl refl)
micro-Effect r obj (refused v e) s w = inr (refl, inl refl, refl, refl, inl refl)
micro-Effect r obj (crashed v) s w = inr (refl, inl refl, refl, refl, inl refl)

-- The writes that have no version yet.
abbrev pub waiting : List Writer → ℕ
waiting [] = 0
waiting (x ∷ xs) = waits x.pc + waiting xs

abbrev pub IsBelow : ℤ → Writer → Type 0
IsBelow l x = AtMost l (version_of x.pc)

abbrev pub IsApart : Writer → Writer → Type 0
IsApart x y = Apart (version_of x.pc) (version_of y.pc)

-- No two writes have the same version.
abbrev pub AllApart : List Writer → Type 0
AllApart [] = Unit
AllApart (x ∷ xs) = All (IsApart x) xs × AllApart xs

-- What holds between two steps.
abbrev pub IsOrderly : CraqProtoServer → List Writer → Type 0
IsOrderly s xs =
    HasRoom s.latest_version (waiting xs)
    × (s.latest_clean_version ≤ℤ s.latest_version)
    × All (IsBelow s.latest_version) xs
    × AllApart xs

-- What a step of one of the writes does to the writes and to the server's versions.
abbrev pub Moved : ℤ → ℤ → List Writer → ℤ → ℤ → List Writer → Type 0
Moved l c xs l' c' xs' =
    ((l' ≡ next_i64 l) × (c' ≡ c) × (suc (waiting xs') ≡ waiting xs))
    ⊎ ((l' ≡ l) × (waiting xs' ≡ waiting xs) × ((c' ≡ c) ⊎ (c' ≤ℤ l)))

-- What a step keeps of the writes; a write that is not in the list stays apart from them.
abbrev pub Kept : ℤ → List Writer → ℤ → List Writer → Type 0
Kept l xs l' xs' =
    All (IsBelow l') xs'
    × AllApart xs'
    × ((z : Writer) → IsBelow l z → All (IsApart z) xs → All (IsApart z) xs')

AtMost-mono : (l l' : ℤ) (o : Option ℤ) → l ≤ℤ l' → AtMost l o → AtMost l' o
AtMost-mono l l' none le h = tt
AtMost-mono l l' (some v) le h = omega (arith, le, h)

IsBelow-mono : (l l' : ℤ) (xs : List Writer) → l ≤ℤ l' → All (IsBelow l) xs → All (IsBelow l') xs
IsBelow-mono l l' [] le h = tt
IsBelow-mono l l' (x ∷ xs) le h =
    (AtMost-mono l l' (version_of x.pc) le h.0, IsBelow-mono l l' xs le h.1)

Apart-fresh : (l v : ℤ) (o : Option ℤ) → AtMost l o → l <ℤ v → Apart (some v) o
Apart-fresh l v none h lt = tt
Apart-fresh l v (some w) h lt = λ e. ground (arith, h, lt, e)

Apart-symm : (a b : Option ℤ) → Apart a b → Apart b a
Apart-symm none none h = tt
Apart-symm none (some w) h = tt
Apart-symm (some v) none h = tt
Apart-symm (some v) (some w) h = λ e. h (sym e)

fresh-IsApart :
    (l v : ℤ) (x : Writer) (xs : List Writer)
    → version_of x.pc ≡ some v
    → l <ℤ v
    → All (IsBelow l) xs
    → All (IsApart x) xs
fresh-IsApart l v x [] e lt h = tt
fresh-IsApart l v x (y ∷ xs) e lt h =
    (rw e (Apart-fresh l v (version_of y.pc) h.0 lt), fresh-IsApart l v x xs e lt h.1)

pub Kept-numbered :
    (l l' : ℤ) (x x' : Writer) (xs : List Writer)
    → version_of x'.pc ≡ some l'
    → l <ℤ l'
    → All (IsBelow l) (x ∷ xs)
    → AllApart (x ∷ xs)
    → Kept l (x ∷ xs) l' (x' ∷ xs)
Kept-numbered l l' x x' xs e lt below apart = (
  (rw e (omega arith), IsBelow-mono l l' xs (omega (arith, lt)) below.1),
  (fresh-IsApart l l' x' xs e lt below.1, apart.1),
  λ z low others. (
    rw e (Apart-symm (some l') (version_of z.pc) (Apart-fresh l l' (version_of z.pc) low lt)),
    others.1,
  ),
)

-- A version that is kept or lost.
abbrev Keeps : Option ℤ → Option ℤ → Type 0
Keeps a b = (b ≡ a) ⊎ (b ≡ none)

AtMost-Keeps : (l : ℤ) (a b : Option ℤ) → Keeps a b → AtMost l a → AtMost l b
AtMost-Keeps l a b (inl e) h = rw e h
AtMost-Keeps l a b (inr e) h = rw e tt

Apart-Keeps : (a b o : Option ℤ) → Keeps a b → Apart a o → Apart b o
Apart-Keeps a b o (inl e) h = rw e h
Apart-Keeps a b o (inr e) h = rw e tt

IsApart-All :
    (x x' : Writer) (xs : List Writer)
    → Keeps (version_of x.pc) (version_of x'.pc)
    → All (IsApart x) xs
    → All (IsApart x') xs
IsApart-All x x' [] k h = tt
IsApart-All x x' (y ∷ xs) k h = (
  Apart-Keeps (version_of x.pc) (version_of x'.pc) (version_of y.pc) k h.0,
  IsApart-All x x' xs k h.1,
)

pub Kept-same :
    (l : ℤ) (x x' : Writer) (xs : List Writer)
    → Keeps (version_of x.pc) (version_of x'.pc)
    → All (IsBelow l) (x ∷ xs)
    → AllApart (x ∷ xs)
    → Kept l (x ∷ xs) l (x' ∷ xs)
Kept-same l x x' xs k below apart = (
  (AtMost-Keeps l (version_of x.pc) (version_of x'.pc) k below.0, below.1),
  (IsApart-All x x' xs k apart.0, apart.1),
  λ z low others. (
    Apart-symm (version_of x'.pc) (version_of z.pc) (
        Apart-Keeps (version_of x.pc) (version_of x'.pc) (version_of z.pc) k
          (Apart-symm (version_of z.pc) (version_of x.pc) others.0)),
    others.1,
  ),
)

pub Kept-cons :
    (l l' : ℤ) (x : Writer) (xs xs' : List Writer)
    → l ≤ℤ l'
    → Kept l xs l' xs'
    → All (IsBelow l) (x ∷ xs)
    → AllApart (x ∷ xs)
    → Kept l (x ∷ xs) l' (x ∷ xs')
Kept-cons l l' x xs xs' le (below', apart', outside) below apart = (
  (AtMost-mono l l' (version_of x.pc) le below.0, below'),
  (outside x below.0 apart.0, apart'),
  λ z low others. (others.0, outside z low others.1),
)
