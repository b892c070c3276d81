-- ===== src/Craq/Startup/Lock.antt =====
-- artillery-ddata/src/craq/erwlock.rs: the lock of a node, which spins on the library's lock. A thread that
-- panics while it writes leaves that one poisoned, and it stays so.
use artillery.Base.{
  ℕ, suc, ◌≡◌, refl, inl, inr, true, false, Bool, List, [], ◌∷◌, ◌++◌, Option, none, some, All,
  Bool-cases, ◌==◌, ◌||◌, not, if◌then◌else◌,
}

-- Who holds the library's `RwLock`.
pub record RwLock : Type 0 where
  pub readers : ℕ
  pub writer : Bool
  pub poisoned : Bool

-- What `try_read` and `try_write` return: a guard, with the lock as it is then, or one of the two errors.
pub data TryLock : Type 0 where
  guarded : RwLock → TryLock
  would_block poison_error : TryLock

unfoldable pub try_read : RwLock → TryLock
try_read l =
    if l.writer
    then would_block
    else if l.poisoned
    then poison_error
    else guarded (record l { readers = suc l.readers })

unfoldable pub try_write : RwLock → TryLock
try_write l =
    if l.writer || not (l.readers == 0)
    then would_block
    else if l.poisoned
    then poison_error
    else guarded (record l { writer = true })

-- The loop: each round finds the lock in one of the states given, and any error is a reason to go on.
unfoldable pub spin : (RwLock → TryLock) → List RwLock → Option RwLock
spin try [] = none
spin try (l ∷ later) = elim (try l) [
  | guarded l' ↦ some l'
  | would_block ↦ spin try later
  | poison_error ↦ spin try later
]

abbrev pub lock_read : List RwLock → Option RwLock
lock_read = spin try_read

abbrev pub lock_write : List RwLock → Option RwLock
lock_write = spin try_write

-- Whoever reads a poisoned lock spins for ever, in whatever states of it the rounds find it.
lock_read-poisoned :
    (found : List RwLock) → All (λ l. l.poisoned ≡ true) found → lock_read found ≡ none
unfolding spin try_read
lock_read-poisoned [] all = refl
lock_read-poisoned (l ∷ found) (poisoned, all) = elim (Bool-cases l.writer) [
  | inl held ↦ rw held (lock_read-poisoned found all)
  | inr free ↦ rw free (rw poisoned (lock_read-poisoned found all))
]

-- A read returns in the first round that finds the lock sound and without a writer.
lock_read_free :
    (held : List RwLock) (l : RwLock) (later : List RwLock)
    → All (λ x. x.writer ≡ true) held
    → l.writer ≡ false
    → l.poisoned ≡ false
    → lock_read (held ++ l ∷ later) ≡ some (record l { readers = suc l.readers })
unfolding spin try_read
lock_read_free [] l later all free sound = rw free (rw sound refl)
lock_read_free (x ∷ held) l later (busy, all) free sound =
    rw busy (lock_read_free held l later all free sound)
