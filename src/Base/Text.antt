-- ===== src/Base/Text.antt =====
-- Go's strings.Split at a separator of one character, and strings.Join.
use Prim.Native.Char.{Char, code}
use Prim.Native.String
use Prim.Native.String.{String}
use mathlib.Core.Path.{◌≡◌, refl, ap, ap₂, sym, subst, ◌∙◌}
use mathlib.Core.Logic.{◌≢◌, inl, inr}
use mathlib.Core.List.{List, [], ◌∷◌}
use native.Mathlib.Omega.{arith}
use text.Mathlib.TextEquality.{Char-path}
use text.Mathlib.TextLemmas.{nil-append, cons-append}
use sybline.Base.Tests.{◌==◌, if◌then◌else◌, Bool-cases, ==→eq}

-- The character stands in front of the first part.
unfoldable pub extend : Char → List String → List String
extend c [] = (String.◌∷◌ c "") ∷ []
extend c (p ∷ ps) = (String.◌∷◌ c p) ∷ ps

unfoldable pub split : Char → String → List String
split sep String.[] = "" ∷ []
split sep (String.◌∷◌ c s) =
    let rest = split sep s in if code c == code sep then "" ∷ rest else extend c rest

unfoldable pub join : Char → List String → String
join sep [] = ""
join sep (p ∷ []) = p
join sep (p ∷ q ∷ ps) = String.◌++◌ p (String.◌∷◌ sep (join sep (q ∷ ps)))

-- The text has no such character.
abbrev pub Lacks : Char → String → Type 0
Lacks sep String.[] = Unit
Lacks sep (String.◌∷◌ c s) = (code c ≢ code sep) × Lacks sep s

abbrev pub AllLack : Char → List String → Type 0
AllLack sep [] = Unit
AllLack sep (p ∷ ps) = Lacks sep p × AllLack sep ps

pub split_sep :
    (sep c : Char) (s : String) → code c ≡ code sep → split sep (String.◌∷◌ c s) ≡ "" ∷ split sep s
unfolding split
split_sep sep c s e = ground arith

pub split_other :
    (sep c : Char) (s : String)
    → code c ≢ code sep
    → split sep (String.◌∷◌ c s) ≡ extend c (split sep s)
unfolding split
split_other sep c s n = ground arith

pub split_lacking : (sep : Char) (s : String) → Lacks sep s → split sep s ≡ s ∷ []
unfolding split extend
split_lacking sep String.[] h = refl
split_lacking sep (String.◌∷◌ c s) (n, h) = split_other sep c s n ∙ rw (split_lacking sep s h) refl

pub split-append :
    (sep : Char) (p s : String)
    → Lacks sep p
    → split sep (String.◌++◌ p (String.◌∷◌ sep s)) ≡ p ∷ split sep s
unfolding extend
split-append sep String.[] s h =
    ap (split sep) (nil-append (String.◌∷◌ sep s)) ∙ split_sep sep sep s refl
split-append sep (String.◌∷◌ c p) s (n, h) =
    ap (split sep) (cons-append c p (String.◌∷◌ sep s))
    ∙ split_other sep c (String.◌++◌ p (String.◌∷◌ sep s)) n
    ∙ ap (extend c) (split-append sep p s h)

pub split-join :
    (sep : Char) (p : String) (ps : List String)
    → AllLack sep (p ∷ ps)
    → split sep (join sep (p ∷ ps)) ≡ p ∷ ps
unfolding join
split-join sep p [] (h, _) = split_lacking sep p h
split-join sep p (q ∷ ps) (h, hs) =
    split-append sep p (join sep (q ∷ ps)) h ∙ ap (λ l. p ∷ l) (split-join sep q ps hs)

-- The first part and the others.
pub split-cons :
    (sep : Char) (s : String) → (p : String) × (ps : List String) × (split sep s ≡ p ∷ ps)
unfolding split extend
split-cons sep String.[] = ("", [], refl)
split-cons sep (String.◌∷◌ c s) = elim (Bool-cases (code c == code sep)) [
  | inl e ↦ ("", split sep s, split_sep sep c s (==→eq (code c) (code sep) e))
  | inr e ↦
      let (p, ps, at) = split-cons sep s in
      (String.◌∷◌ c p, ps, split_other sep c s (ground arith) ∙ rw at refl)
]

pub split-AllLack : (sep : Char) (s : String) → AllLack sep (split sep s)
unfolding split extend
split-AllLack sep String.[] = (tt, tt)
split-AllLack sep (String.◌∷◌ c s) = elim (Bool-cases (code c == code sep)) [
  | inl e ↦ rw (split_sep sep c s (==→eq (code c) (code sep) e)) (tt, split-AllLack sep s)
  | inr e ↦
      let (p, ps, at) = split-cons sep s in
      let rest : AllLack sep (p ∷ ps) = subst (AllLack sep) at (split-AllLack sep s) in
      rw (split_other sep c s (ground arith), at) ((ground arith, rest.0), rest.1)
]

join-extend :
    (sep c : Char) (p : String) (ps : List String)
    → join sep (extend c (p ∷ ps)) ≡ String.◌∷◌ c (join sep (p ∷ ps))
unfolding join extend
join-extend sep c p [] = refl
join-extend sep c p (q ∷ ps) = cons-append c p (String.◌∷◌ sep (join sep (q ∷ ps)))

pub join-split : (sep : Char) (s : String) → join sep (split sep s) ≡ s
unfolding join
join-split sep String.[] = ap (join sep) (split_lacking sep "" tt)
join-split sep (String.◌∷◌ c s) =
    let (p, ps, at) = split-cons sep s in
    let ih = join-split sep s in
    elim (Bool-cases (code c == code sep)) [
      | inl e ↦
          let same = ==→eq (code c) (code sep) e in
          rw (split_sep sep c s same, at)
            (nil-append (String.◌∷◌ sep (join sep (p ∷ ps)))
              ∙ ap₂ String.◌∷◌ (sym (Char-path c sep same)) (subst (λ l. join sep l ≡ s) at ih))
      | inr e ↦
          rw (split_other sep c s (ground arith), at)
            (join-extend sep c p ps ∙ ap (String.◌∷◌ c) (subst (λ l. join sep l ≡ s) at ih))
    ]
