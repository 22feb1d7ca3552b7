-- ===== src/Base/Lists.antt =====
-- Lists measured by native numbers.
use Prim.Native.Nat.{ℕ, zero, suc, ◌+◌, ◌-◌}
use mathlib.Core.Path.{◌≡◌, refl}
use mathlib.Core.List.{List, [], ◌∷◌, ◌++◌, map}
use mathlib.Core.Bool.{Bool, true}
use mathlib.Core.Option.{Option, none, some}
use mathlib.Core.Logic.{inl, inr}
use sybline.Base.Tests.{if◌then◌else◌, Bool-cases, Option-cases}
use native.Mathlib.Omega.{arith}

module _ {ℓ} {A : Type ℓ} where
  abbrev pub length : List A → ℕ
  length [] = 0
  length (x ∷ xs) = suc (length xs)

  pub length-append : (xs ys : List A) → length (xs ++ ys) ≡ length xs + length ys
  length-append [] ys = omega arith
  length-append (x ∷ xs) ys = omega (arith, length-append xs ys)

pub length-map {ℓ κ} :
    {A : Type ℓ} {B : Type κ} (f : A → B) (xs : List A) → length (map f xs) ≡ length xs
length-map f [] = omega arith
length-map f (x ∷ xs) = omega (arith, length-map f xs)

abbrev pub one_if : Bool → ℕ
one_if b = if b then 1 else 0

module _ {ℓ} {A : Type ℓ} where
  abbrev pub get_elem? : List A → ℕ → Option A
  get_elem? [] i = none
  get_elem? (x ∷ xs) zero = some x
  get_elem? (x ∷ xs) (suc i) = get_elem? xs i

  -- `s[i] = v`
  abbrev pub set : List A → ℕ → A → List A
  set [] i v = []
  set (x ∷ xs) zero v = v ∷ xs
  set (x ∷ xs) (suc i) v = x ∷ set xs i v

  -- `s[len(s)-1]`, of a slice with the head `x`
  abbrev pub last_of : A → List A → A
  last_of x [] = x
  last_of x (y ∷ ys) = last_of y ys

  -- `s[:len(s)-1]`
  abbrev pub drop_last : List A → List A
  drop_last [] = []
  drop_last (x ∷ []) = []
  drop_last (x ∷ y ∷ ys) = x ∷ drop_last (y ∷ ys)

  -- `s[i] = s[len(s)-1]; s[:len(s)-1]`
  unfoldable pub swap_remove : List A → ℕ → List A
  swap_remove [] i = []
  swap_remove (x ∷ xs) i = drop_last (set (x ∷ xs) i (last_of x xs))

  -- The first index at which a test holds.
  unfoldable pub index_where : (A → Bool) → List A → Option ℕ
  index_where f [] = none
  index_where f (x ∷ xs) =
      let rest = index_where f xs in
      if f x then some 0 else elim rest [ none ↦ none | some i ↦ some (suc i) ]

  unfoldable pub count : (A → Bool) → List A → ℕ
  count f [] = 0
  count f (x ∷ xs) = one_if (f x) + count f xs

module _ {ℓ} {A : Type ℓ} (f : A → Bool) where
  count-drop_last :
      (x : A) (xs : List A)
      → count f (drop_last (x ∷ xs)) + one_if (f (last_of x xs)) ≡ count f (x ∷ xs)
  unfolding count
  count-drop_last x [] = omega arith
  count-drop_last x (y ∷ ys) = omega (arith, count-drop_last y ys)

  count-set :
      (xs : List A) (i : ℕ) (y v : A)
      → get_elem? xs i ≡ some y
      → count f (set xs i v) + one_if (f y) ≡ count f xs + one_if (f v)
  unfolding count
  count-set [] i y v h = cc
  count-set (x ∷ xs) zero y v h = ground arith
  count-set (x ∷ xs) (suc i) y v h = omega (arith, count-set xs i y v h)

  -- Writing the last element somewhere leaves it last.
  count-drop_last-set :
      (x v : A) (xs : List A) (i : ℕ)
      → last_of x xs ≡ v
      → count f (drop_last (set (x ∷ xs) i v)) + one_if (f v) ≡ count f (set (x ∷ xs) i v)
  unfolding count
  count-drop_last-set x v [] zero h = omega arith
  count-drop_last-set x v [] (suc i) h = rw (← h) (omega arith)
  count-drop_last-set x v (y ∷ ys) zero h = rw (← h) (omega (arith, count-drop_last y ys))
  count-drop_last-set x v (y ∷ ys) (suc zero) h = omega (arith, count-drop_last-set y v ys zero h)
  count-drop_last-set x v (y ∷ ys) (suc (suc i)) h =
      omega (arith, count-drop_last-set y v ys (suc i) h)

  -- One occurrence of the element at `i` goes, and nothing else.
  pub count-swap_remove :
      (xs : List A) (i : ℕ) (y : A)
      → get_elem? xs i ≡ some y
      → count f (swap_remove xs i) + one_if (f y) ≡ count f xs
  unfolding swap_remove
  count-swap_remove [] i y h = cc
  count-swap_remove (x ∷ xs) i y h = omega (
    arith,
    count-set (x ∷ xs) i y (last_of x xs) h,
    count-drop_last-set x (last_of x xs) xs i refl,
  )

  -- Where `index_where` stops the test holds, and where it does not stop no element passes.
  pub index_where-some :
      (xs : List A) (i : ℕ)
      → index_where f xs ≡ some i
      → (y : A) × (get_elem? xs i ≡ some y) × (f y ≡ true)
  unfolding index_where
  index_where-some [] i h = cc
  index_where-some (x ∷ xs) i h = elim (Bool-cases (f x)) [
    | inl e ↦ (x, ground arith, e)
    | inr e ↦ elim (Option-cases (index_where f xs)) [
      | inl n ↦ absurd (ground arith)
      | inr (j, r) ↦ let (y, at, holds) = index_where-some xs j r in (y, ground arith, holds)
    ]
  ]

  pub index_where-none : (xs : List A) → index_where f xs ≡ none → count f xs ≡ 0
  unfolding index_where count
  index_where-none [] h = refl
  index_where-none (x ∷ xs) h = ground (arith, index_where-none xs)

  pub count-append : (xs ys : List A) → count f (xs ++ ys) ≡ count f xs + count f ys
  unfolding count
  count-append [] ys = omega arith
  count-append (x ∷ xs) ys = omega (arith, count-append xs ys)

module _ {ℓ} {A : Type ℓ} where
  length-set : (xs : List A) (i : ℕ) (v : A) → length (set xs i v) ≡ length xs
  length-set [] i v = refl
  length-set (x ∷ xs) zero v = refl
  length-set (x ∷ xs) (suc i) v = omega (arith, length-set xs i v)

  length-drop_last : (x : A) (xs : List A) → length (drop_last (x ∷ xs)) ≡ length xs
  length-drop_last x [] = refl
  length-drop_last x (y ∷ ys) = omega (arith, length-drop_last y ys)

  pub length-swap_remove : (xs : List A) (i : ℕ) → length (swap_remove xs i) ≡ length xs - 1
  unfolding swap_remove
  length-swap_remove [] i = omega arith
  length-swap_remove (x ∷ xs) zero = omega (arith, length-drop_last (last_of x xs) xs)
  length-swap_remove (x ∷ xs) (suc i) =
      omega (arith, length-drop_last x (set xs i (last_of x xs)), length-set xs i (last_of x xs))
