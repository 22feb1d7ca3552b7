-- ===== src/Core/Refine/Search.antt =====
-- The first node at which a test holds, and where the loops of Unlock and `unlockAndEmpty` stop.
use sybline.Base.{◌≡◌, refl, inl, inr, ◌⊎◌, Bool, true, false, List, [], ◌∷◌, ◌++◌, Bool-cases}

abbrev pub Never {ℓ} : {A : Type ℓ} → (A → Bool) → List A → Type 0
Never f [] = Unit
Never f (x ∷ xs) = (f x ≡ false) × Never f xs

-- `xs` is `before`, then the first hit, then `after`.
pub record Found {ℓ} {A : Type ℓ} (f : A → Bool) (xs : List A) : Type ℓ where
  pub before : List A
  pub hit : A
  pub after : List A
  pub split : xs ≡ before ++ hit ∷ after
  pub missed : Never f before
  pub holds : f hit ≡ true

module _ {ℓ} {A : Type ℓ} (f : A → Bool) where
  Found-cons : (x : A) (xs : List A) → f x ≡ false → Found f xs → Found f (x ∷ xs)
  Found-cons x xs e r = record {
    before = x ∷ r.before;
    hit = r.hit;
    after = r.after;
    split = λ i. x ∷ r.split i;
    missed = (e, r.missed);
    holds = r.holds;
  }

  pub find_first : (xs : List A) → Never f xs ⊎ Found f xs
  find_first [] = inl tt
  find_first (x ∷ xs) = elim (Bool-cases (f x)) [
    | inl e ↦
        inr (record { before = []; hit = x; after = xs; split = refl; missed = tt; holds = e })
    | inr e ↦ elim (find_first xs) [ inl none ↦ inl (e, none) | inr r ↦ inr (Found-cons x xs e r) ]
  ]
