-- ===== src/Handler/Routes.antt =====
-- The map of SubmitBatchedMessages of pkg/handler/Handler.go, from a routing key to its messages.
use sybline.Base.{
  ◌≤◌, suc, ◌≡◌, refl, ap, sym, ◌∙◌, subst, inl, inr, String, false, Option, none, some, List, [],
  ◌∷◌, ◌++◌, Bytes, length, length-append, append-nil, arith, str_eq, eq_iff, Bool-cases,
  if◌then◌else◌,
}
use sybline.Base.Dict
use sybline.Base.Dict.{Dict}
use sybline.Fsm.Command.{Messages}

-- The contents that were submitted under a key, in their order.
unfoldable pub only : String → List (String × Bytes) → List Bytes
only rk [] = []
only rk ((k, content) ∷ ms) = if str_eq k rk then content ∷ only rk ms else only rk ms

abbrev pub contents_of : Option Messages → List Bytes
contents_of none = []
contents_of (some m) = m.contents

abbrev pub ids_of : Option Messages → List Bytes
ids_of none = []
ids_of (some m) = m.ids

-- The map has these messages under each key, each with an id.
abbrev pub Groups : Dict Messages → List (String × Bytes) → Type 0
Groups routes ms =
    (rk : String)
    → (contents_of (Dict.get routes rk) ≡ only rk ms)
      × (length (ids_of (Dict.get routes rk)) ≡ length (only rk ms))

only-snoc :
    (rk k : String) (content : Bytes) (ms : List (String × Bytes))
    → only rk (ms ++ (k, content) ∷ []) ≡ only rk ms ++ (if str_eq k rk then content ∷ [] else [])
unfolding only
only-snoc rk k content [] = elim (Bool-cases (str_eq k rk)) [
  | inl e ↦ rw e refl
  | inr e ↦ rw e refl
]
only-snoc rk k content ((j, c) ∷ ms) = elim (Bool-cases (str_eq j rk)) [
  | inl e ↦ rw (only, e) (ap (λ cs. c ∷ cs) (only-snoc rk k content ms))
  | inr e ↦ rw (only, e) (only-snoc rk k content ms)
]

-- One more message under the key `k`.
pub Groups-put :
    (routes : Dict Messages) (done : List (String × Bytes)) (k : String) (content : Bytes)
    (m : Messages)
    → Groups routes done
    → m.contents ≡ contents_of (Dict.get routes k) ++ content ∷ []
    → length m.ids ≡ suc (length (ids_of (Dict.get routes k)))
    → Groups (Dict.put routes k m) (done ++ (k, content) ∷ [])
Groups-put routes done k content m g more ids rk = elim (Bool-cases (str_eq k rk)) [
  | inl e ↦
      let same : k ≡ rk = (eq_iff k rk).0 e in
      let more' : m.contents ≡ contents_of (Dict.get routes rk) ++ content ∷ [] =
        subst (λ w. m.contents ≡ contents_of (Dict.get routes w) ++ content ∷ []) same more in
      let ids' : length m.ids ≡ suc (length (ids_of (Dict.get routes rk))) =
        subst (λ w. length m.ids ≡ suc (length (ids_of (Dict.get routes w)))) same ids in
      rw (Dict.get-put routes k rk m, e, only-snoc rk k content done, e)
        (
          more' ∙ ap (λ cs. cs ++ content ∷ []) (g rk).0,
          omega (arith, ids', (g rk).1, length-append (only rk done) (content ∷ [])),
        )
  | inr e ↦
      rw (Dict.get-put routes k rk m, e, only-snoc rk k content done, e, append-nil (only rk done))
        (g rk)
]

-- Each entry stands under its own routing key, once, and has contents.
abbrev pub IsKeyed : Dict Messages → Type 0
IsKeyed [] = Unit
IsKeyed ((k, m) ∷ routes) =
    (m.rk ≡ k) × (1 ≤ length m.contents) × (Dict.get routes k ≡ none) × IsKeyed routes

not_eq_sym : (j k : String) → str_eq j k ≡ false → str_eq k j ≡ false
not_eq_sym j k e = ground (arith, eq_iff j k, eq_iff k j)

pub put-IsKeyed :
    (routes : Dict Messages) (k : String) (m : Messages)
    → m.rk ≡ k
    → 1 ≤ length m.contents
    → IsKeyed routes
    → IsKeyed (Dict.put routes k m)
unfolding Dict.put Dict.get
put-IsKeyed [] k m e n w = (e, n, refl, tt)
put-IsKeyed ((j, x) ∷ routes) k m e n w = elim (Bool-cases (str_eq j k)) [
  | inl hit ↦
      rw (Dict.put, hit) (e, n, subst (λ i. Dict.get routes i ≡ none) ((eq_iff j k).0 hit) w.2, w.3)
  | inr miss ↦
      rw (Dict.put, miss)
        (
          w.0,
          w.1,
          Dict.get-put routes k j m ∙ rw (not_eq_sym j k miss) w.2,
          put-IsKeyed routes k m e n w.3,
        )
]

pub get-rk :
    (routes : Dict Messages) (k : String) (m : Messages)
    → IsKeyed routes
    → Dict.get routes k ≡ some m
    → m.rk ≡ k
unfolding Dict.get
get-rk [] k m w e = absurd (cc)
get-rk ((j, x) ∷ routes) k m w e = elim (Bool-cases (str_eq j k)) [
  | inl hit ↦
      let same : some x ≡ some m = rw (Dict.get, hit) at e in
      ap (rk_of x) (sym same) ∙ w.0 ∙ (eq_iff j k).0 hit
  | inr miss ↦ get-rk routes k m w.3 (rw (Dict.get, miss) at e)
]
  where
    rk_of : Messages → Option Messages → String
    rk_of x none = x.rk
    rk_of x (some m) = m.rk
