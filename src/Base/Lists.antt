-- ===== src/Base/Lists.antt =====
-- Lists measured by native numbers and filtered by Boolean tests, under the library's names, and
-- the dictionaries that stand for the program's hash maps.
use Prim.Native.Nat.{ℕ, zero, suc, ◌+◌, ◌-◌}
use mathlib.Core.Path.{◌≡◌, refl, subst, ap, sym, ◌∙◌}
use mathlib.Core.Logic.{inl, inr}
use mathlib.Core.Bool.{Bool, false, ◌||◌}
use mathlib.Core.List.{List, [], ◌∷◌, ◌++◌, Permᴰ}
use mathlib.Core.Option.{Option, none, some}
use native.Mathlib.Omega.{arith}
use artillery.Base.Tests.{Bool-cases, if◌then◌else◌}

module _ {ℓ} {A : Type ℓ} where
  abbrev pub length : List A → ℕ
  length [] = 0
  length (x ∷ xs) = suc (length xs)

  abbrev pub get_elem? : List A → ℕ → Option A
  get_elem? [] i = none
  get_elem? (x ∷ xs) zero = some x
  get_elem? (x ∷ xs) (suc i) = get_elem? xs i

  abbrev pub take : ℕ → List A → List A
  take zero xs = []
  take (suc n) [] = []
  take (suc n) (x ∷ xs) = x ∷ take n xs

  abbrev pub drop : ℕ → List A → List A
  drop zero xs = xs
  drop (suc n) [] = []
  drop (suc n) (x ∷ xs) = drop n xs

  -- `Iterator::filter` and `Vec::retain`.
  abbrev pub retain : (A → Bool) → List A → List A
  retain p [] = []
  retain p (x ∷ xs) = if p x then x ∷ retain p xs else retain p xs

  -- `Iterator::any`.
  abbrev pub any : (A → Bool) → List A → Bool
  any p [] = false
  any p (x ∷ xs) = p x || any p xs

  -- `Iterator::find`.
  abbrev pub find : (A → Bool) → List A → Option A
  find p [] = none
  find p (x ∷ xs) = if p x then some x else find p xs

  pub length-append : (xs ys : List A) → length (xs ++ ys) ≡ length xs + length ys
  length-append [] ys = omega arith
  length-append (x ∷ xs) ys = omega (arith, length-append xs ys)

  pub take-length : (xs : List A) → take (length xs) xs ≡ xs
  take-length [] = refl
  take-length (x ∷ xs) = ap (λ t. x ∷ t) (take-length xs)

  pub drop-length : (xs : List A) → drop (length xs) xs ≡ []
  drop-length [] = refl
  drop-length (x ∷ xs) = drop-length xs

  pub length-drop : (n : ℕ) (xs : List A) → length (drop n xs) ≡ length xs - n
  length-drop zero xs = omega arith
  length-drop (suc n) [] = omega arith
  length-drop (suc n) (x ∷ xs) = omega (arith, length-drop n xs)

-- A predicate by recursion computes to tuples, which the tactics read and build.
abbrev pub All {ℓ κ} : {A : Type ℓ} → (A → Type κ) → List A → Type κ
All P [] = Unit
All P (x ∷ xs) = P x × All P xs

module _ {ℓ κ} {A : Type ℓ} (P : A → Type κ) where
  pub All-append : (xs ys : List A) → All P xs → All P ys → All P (xs ++ ys)
  All-append [] ys hx hy = hy
  All-append (x ∷ xs) ys hx hy = (hx.0, All-append xs ys hx.1 hy)

  pub All-perm : {xs ys : List A} → Permᴰ xs ys → All P xs → All P ys
  All-perm Permᴰ.nil h = tt
  All-perm (Permᴰ.cons e p) h = (subst P e h.0, All-perm p h.1)
  All-perm (Permᴰ.swap e f) h = (subst P f h.1.0, (subst P e h.0, h.1.1))
  All-perm (Permᴰ.trans p q) h = All-perm q (All-perm p h)

module _ {ℓ} {A : Type ℓ} where
  pub any-append : (p : A → Bool) (xs ys : List A) → any p (xs ++ ys) ≡ any p xs || any p ys
  any-append p [] ys = refl
  any-append p (x ∷ xs) ys = ground (arith, any-append p xs ys)

  pub any-perm : (p : A → Bool) {xs ys : List A} → Permᴰ xs ys → any p xs ≡ any p ys
  any-perm p Permᴰ.nil = refl
  any-perm p (Permᴰ.cons e q) = ground (arith, ap p e, any-perm p q)
  any-perm p (Permᴰ.swap e f) = ground (arith, ap p e, ap p f)
  any-perm p (Permᴰ.trans q r) = any-perm p q ∙ any-perm p r

  pub perm-refl : (xs : List A) → Permᴰ xs xs
  perm-refl [] = Permᴰ.nil
  perm-refl (x ∷ xs) = Permᴰ.cons refl (perm-refl xs)

  pub retain-perm :
      (p : A → Bool) {xs ys : List A} → Permᴰ xs ys → Permᴰ (retain p xs) (retain p ys)
  retain-perm p Permᴰ.nil = Permᴰ.nil
  retain-perm p (Permᴰ.cons {a = a} e q) = elim (Bool-cases (p a)) [
    | inl h ↦ rw (h, sym (ap p e) ∙ h) (Permᴰ.cons e (retain-perm p q))
    | inr h ↦ rw (h, sym (ap p e) ∙ h) (retain-perm p q)
  ]
  retain-perm p (Permᴰ.swap {a = a} {b = b} {l = l} e f) = elim (Bool-cases (p a)) [
    | inl h ↦ elim (Bool-cases (p b)) [
      | inl k ↦ rw (h, k, sym (ap p e) ∙ h, sym (ap p f) ∙ k) (Permᴰ.swap e f)
      | inr k ↦
          rw (h, k, sym (ap p e) ∙ h, sym (ap p f) ∙ k) (Permᴰ.cons e (perm-refl (retain p l)))
    ]
    | inr h ↦ elim (Bool-cases (p b)) [
      | inl k ↦
          rw (h, k, sym (ap p e) ∙ h, sym (ap p f) ∙ k) (Permᴰ.cons f (perm-refl (retain p l)))
      | inr k ↦ rw (h, k, sym (ap p e) ∙ h, sym (ap p f) ∙ k) (perm-refl (retain p l))
    ]
  ]
  retain-perm p (Permᴰ.trans q r) = Permᴰ.trans (retain-perm p q) (retain-perm p r)

  pub length-perm : {xs ys : List A} → Permᴰ xs ys → length xs ≡ length ys
  length-perm Permᴰ.nil = refl
  length-perm (Permᴰ.cons e q) = ap suc (length-perm q)
  length-perm (Permᴰ.swap e f) = refl
  length-perm (Permᴰ.trans q r) = length-perm q ∙ length-perm r

  -- The head may go to the end.
  pub perm-append_one : (x : A) (xs : List A) → Permᴰ (x ∷ xs) (xs ++ x ∷ [])
  perm-append_one x [] = perm-refl (x ∷ [])
  perm-append_one x (y ∷ xs) =
      Permᴰ.trans (Permᴰ.swap refl refl) (Permᴰ.cons refl (perm-append_one x xs))

  pub perm-symm : {xs ys : List A} → Permᴰ xs ys → Permᴰ ys xs
  perm-symm Permᴰ.nil = Permᴰ.nil
  perm-symm (Permᴰ.cons e q) = Permᴰ.cons (sym e) (perm-symm q)
  perm-symm (Permᴰ.swap e f) = Permᴰ.swap (sym f) (sym e)
  perm-symm (Permᴰ.trans q r) = Permᴰ.trans (perm-symm r) (perm-symm q)

  pub get_elem?-append : (xs ys : List A) (y : A) → get_elem? (xs ++ y ∷ ys) (length xs) ≡ some y
  get_elem?-append [] ys y = refl
  get_elem?-append (x ∷ xs) ys y = get_elem?-append xs ys y

-- The elements to which a partial function gives a value, `Iterator::filter_map`.
abbrev pub filter_map {ℓ κ} : {A : Type ℓ} {B : Type κ} → (A → Option B) → List A → List B
filter_map f [] = []
filter_map f (x ∷ xs) = elim (f x) [ none ↦ filter_map f xs | some y ↦ y ∷ filter_map f xs ]
