-- ===== src/Prelude/Lists.antt =====
-- Lists measured by native numbers, membership tests, and predicates by recursion.
use Prim.Native.Nat.{ℕ, zero, suc, ◌+◌, ◌≤◌, ◌<◌}
use mathlib.Core.Path.{◌≡◌, refl, ap}
use mathlib.Core.Logic.{inl, inr}
use mathlib.Core.Bool.{Bool, true, false, ◌||◌}
use mathlib.Core.Option.{Option, none, some}
use mathlib.Core.List.{List, [], ◌∷◌, ◌++◌}
use native.Mathlib.Omega.{arith}
use opencode_optimised_tooli.Prelude.Tests.{Eq, ◌==◌, Bool-cases, if◌then◌else◌}

module _ {ℓ} {A : Type ℓ} where
  abbrev pub length : List A → ℕ
  length [] = 0
  length (x ∷ xs) = suc (length xs)

  abbrev pub is_empty : List A → Bool
  is_empty [] = true
  is_empty (x ∷ xs) = false

  abbrev pub snoc : List A → A → List A
  snoc xs x = xs ++ x ∷ []

  -- `l.insert(i, v)`: past the end it appends.
  unfoldable pub insert_at : List A → ℕ → A → List A
  insert_at xs zero v = v ∷ xs
  insert_at [] (suc i) v = v ∷ []
  insert_at (x ∷ xs) (suc i) v = x ∷ insert_at xs i v

  -- `[x for x in l if p(x)]`
  unfoldable pub keep : (A → Bool) → List A → List A
  keep p [] = []
  keep p (x ∷ xs) = let rest = keep p xs in if p x then x ∷ rest else rest

  unfoldable pub any : (A → Bool) → List A → Bool
  any p [] = false
  any p (x ∷ xs) = p x || any p xs

  abbrev pub All {κ} : (A → Type κ) → List A → Type κ
  All P [] = Unit
  All P (x ∷ xs) = P x × All P xs

  pub length-append : (xs ys : List A) → length (xs ++ ys) ≡ length xs + length ys
  length-append [] ys = omega arith
  length-append (x ∷ xs) ys = omega (arith, length-append xs ys)

  pub length-insert_at : (xs : List A) (i : ℕ) (v : A) → length (insert_at xs i v) ≡ suc (length xs)
  unfolding insert_at
  length-insert_at xs zero v = refl
  length-insert_at [] (suc i) v = refl
  length-insert_at (x ∷ xs) (suc i) v = ap suc (length-insert_at xs i v)

  pub length-keep-le : (p : A → Bool) (xs : List A) → length (keep p xs) ≤ length xs
  unfolding keep
  length-keep-le p [] = omega arith
  length-keep-le p (x ∷ xs) = ground (arith, length-keep-le p xs)

  pub All-append {κ} : (P : A → Type κ) (xs ys : List A) → All P xs → All P ys → All P (xs ++ ys)
  All-append P [] ys h k = k
  All-append P (x ∷ xs) ys (p, h) k = (p, All-append P xs ys h k)

  pub All-keep : (p : A → Bool) (xs : List A) → All (λ x. p x ≡ true) (keep p xs)
  unfolding keep
  All-keep p [] = tt
  All-keep p (x ∷ xs) = elim (Bool-cases (p x)) [
    | inl e ↦ rw e (e, All-keep p xs)
    | inr e ↦ rw e (All-keep p xs)
  ]

module _ {ℓ} {A : Type ℓ} ⦃e : Eq A⦄ where
  -- `a in l`
  unfoldable pub contains : A → List A → Bool
  contains a [] = false
  contains a (x ∷ xs) = (x == a) || contains a xs

  -- `s.add(a)` on a set kept as a list without repetitions
  unfoldable pub add_new : A → List A → List A
  add_new a xs = if contains a xs then xs else snoc xs a

  pub contains-append :
      (a : A) (xs ys : List A) → contains a (xs ++ ys) ≡ (contains a xs || contains a ys)
  unfolding contains
  contains-append a [] ys = refl
  contains-append a (x ∷ xs) ys = ground (arith, contains-append a xs ys)

  pub contains-add_new :
      (a b : A) (xs : List A) → contains b (add_new a xs) ≡ ((a == b) || contains b xs)
  unfolding add_new contains
  contains-add_new a b xs =
      ground (arith, contains-append b xs (a ∷ []), e.eqb_iff a b, ap (λ c. contains c xs))

module _ {ℓ} {A : Type ℓ} where
  abbrev pub get_elem? : List A → ℕ → Option A
  get_elem? [] i = none
  get_elem? (x ∷ xs) zero = some x
  get_elem? (x ∷ xs) (suc i) = get_elem? xs i

  -- `get_elem?` after `insert_at`: before the place, at it, and behind it.
  pub get_elem?-insert_at_lt :
      (l : List A) (i j : ℕ) (a : A) {x : A}
      → j < i
      → get_elem? l j ≡ some x
      → get_elem? (insert_at l i a) j ≡ some x
  unfolding insert_at
  get_elem?-insert_at_lt l zero j a h e = elim h [ ]
  get_elem?-insert_at_lt [] (suc i) j a h e = ground arith
  get_elem?-insert_at_lt (y ∷ l) (suc i) zero a h e = e
  get_elem?-insert_at_lt (y ∷ l) (suc i) (suc j) a h e =
      get_elem?-insert_at_lt l i j a (omega arith) e

  pub get_elem?-insert_at_self :
      (l : List A) (i : ℕ) (a : A) → i ≤ length l → get_elem? (insert_at l i a) i ≡ some a
  unfolding insert_at
  get_elem?-insert_at_self l zero a h = refl
  get_elem?-insert_at_self [] (suc i) a h = absurd (omega arith)
  get_elem?-insert_at_self (y ∷ l) (suc i) a h = get_elem?-insert_at_self l i a (omega arith)

  pub get_elem?-insert_at_gt :
      (l : List A) (i j : ℕ) (a : A) {x : A}
      → i ≤ j
      → get_elem? l j ≡ some x
      → get_elem? (insert_at l i a) (suc j) ≡ some x
  unfolding insert_at
  get_elem?-insert_at_gt l zero j a h e = e
  get_elem?-insert_at_gt [] (suc i) j a h e = ground arith
  get_elem?-insert_at_gt (y ∷ l) (suc i) zero a h e = absurd (omega arith)
  get_elem?-insert_at_gt (y ∷ l) (suc i) (suc j) a h e =
      get_elem?-insert_at_gt l i j a (omega arith) e

  pub get_elem?-lt : (l : List A) (j : ℕ) {x : A} → get_elem? l j ≡ some x → j < length l
  get_elem?-lt [] j h = absurd (ground arith)
  get_elem?-lt (y ∷ l) zero h = omega arith
  get_elem?-lt (y ∷ l) (suc j) h = omega (arith, get_elem?-lt l j h)

  pub get_elem?-snoc :
      (l : List A) (j : ℕ) (a : A) {x : A}
      → get_elem? l j ≡ some x
      → get_elem? (snoc l a) j ≡ some x
  get_elem?-snoc [] j a h = ground arith
  get_elem?-snoc (y ∷ l) zero a h = h
  get_elem?-snoc (y ∷ l) (suc j) a h = get_elem?-snoc l j a h

  pub get_elem?-snoc_self : (l : List A) (a : A) → get_elem? (snoc l a) (length l) ≡ some a
  get_elem?-snoc_self [] a = refl
  get_elem?-snoc_self (y ∷ l) a = get_elem?-snoc_self l a
