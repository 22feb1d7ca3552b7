-- ===== src/Fsm/Batcher/Channels.antt =====
-- The output channels of pkg/fsm/batcher.go, and places in lists.
use sybline.Base.{
  ℕ, zero, suc, ◌+◌, ◌<◌, ◌≡◌, refl, ap, subst, inl, inr, ◌⊎◌, ◌&&◌, Option, none, some, List, [],
  ◌∷◌, ◌++◌, map, length, get_elem?, ◌==◌, if◌then◌else◌, arith,
}
use sybline.Fsm.Apply.{Result}
use sybline.Fsm.Batcher.{Chan}
use sybline.Fsm.Batcher.Plan.{to_chans}

-- The first value sent to a channel; a channel has room for one.
unfoldable pub received : Chan → List (Chan × Option Result) → Option (Option Result)
received c [] = none
received c ((e, r) ∷ l) = if (c.0 == e.0) && (c.1 == e.1) then some r else received c l

pub received_other :
    (g i batch k : ℕ) (rs : List (Option Result)) (l : List (Chan × Option Result))
    → (g ≡ batch → ⊥)
    → received (g, i) (l ++ to_chans batch k rs) ≡ received (g, i) l
unfolding received to_chans
received_other g i batch k [] [] n = refl
received_other g i batch k (r ∷ rs) [] n = ground (arith, received_other g i batch (suc k) rs [] n)
received_other g i batch k rs ((e, r) ∷ l) n = ground (arith, received_other g i batch k rs l n)

pub received_own :
    (batch k i : ℕ) (rs : List (Option Result))
    → received (batch, k + i) (to_chans batch k rs) ≡ get_elem? rs i
unfolding received to_chans
received_own batch k i [] = refl
received_own batch k zero (r ∷ rs) = ground arith
received_own batch k (suc i) (r ∷ rs) = ground (arith, received_own batch (suc k) i rs)

pub received_new :
    (batch i : ℕ) (rs : List (Option Result)) (l : List (Chan × Option Result))
    → received (batch, i) l ≡ none
    → received (batch, i) (l ++ to_chans batch 0 rs) ≡ get_elem? rs i
unfolding received
received_new batch i rs [] h =
    subst (λ j. received (batch, j) (to_chans batch 0 rs) ≡ get_elem? rs i) (omega arith)
      (received_own batch 0 i rs)
received_new batch i rs ((e, r) ∷ l) h = ground (arith, received_new batch i rs l)

module _ {A : Type 0} where
  pub get_elem?-append :
      (xs ys : List A) (i : ℕ) {a : A} → get_elem? xs i ≡ some a → get_elem? (xs ++ ys) i ≡ some a
  get_elem?-append [] ys i h = absurd (cc)
  get_elem?-append (x ∷ xs) ys zero h = h
  get_elem?-append (x ∷ xs) ys (suc i) h = get_elem?-append xs ys i h

  pub get_elem?-snoc : (xs : List A) (a : A) → get_elem? (xs ++ a ∷ []) (length xs) ≡ some a
  get_elem?-snoc [] a = refl
  get_elem?-snoc (x ∷ xs) a = get_elem?-snoc xs a

  pub snoc_cases :
      (xs : List A) (a b : A) (i : ℕ)
      → get_elem? (xs ++ a ∷ []) i ≡ some b
      → (get_elem? xs i ≡ some b) ⊎ ((i ≡ length xs) × (a ≡ b))
  snoc_cases [] a b zero h = inr (refl, ground arith)
  snoc_cases [] a b (suc i) h = absurd (cc)
  snoc_cases (x ∷ xs) a b zero h = inl h
  snoc_cases (x ∷ xs) a b (suc i) h = elim (snoc_cases xs a b i h) [
    | inl found ↦ inl found
    | inr (at, same) ↦ inr (omega (arith, at), same)
  ]

  pub get_elem?-lt : (xs : List A) (i : ℕ) {a : A} → get_elem? xs i ≡ some a → i < length xs
  get_elem?-lt [] i h = absurd (cc)
  get_elem?-lt (x ∷ xs) zero h = omega arith
  get_elem?-lt (x ∷ xs) (suc i) h = omega (arith, get_elem?-lt xs i h)

  pub get_elem?-map :
      (xs : List A) (i : ℕ) {a : A}
      → get_elem? xs i ≡ some a
      → get_elem? (map some xs) i ≡ some (some a)
  get_elem?-map [] i h = absurd (cc)
  get_elem?-map (x ∷ xs) zero h = ap some h
  get_elem?-map (x ∷ xs) (suc i) h = get_elem?-map xs i h
