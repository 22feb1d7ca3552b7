-- ===== src/Base/Search.antt =====
-- Go's strings.HasPrefix, HasSuffix, Contains, TrimPrefix and SplitN, and strconv.ParseUint to the base 10.
use Prim.Native.Nat.{ℕ, ◌+◌, ◌-◌, ◌*◌}
use Prim.Native.Char.{Char, code}
use Prim.Native.String.{String}
use mathlib.Core.Bool.{Bool, true, false, ◌&&◌}
use mathlib.Core.Option.{Option, none, some}
use text.Mathlib.Text.{◌==◌ as str_eq}
use sybline.Base.Tests.{◌==◌, ltb, leb, if◌then◌else◌}

unfoldable pub has_prefix : (s prefix : String) → Bool
has_prefix s String.[] = true
has_prefix String.[] (String.◌∷◌ p ps) = false
has_prefix (String.◌∷◌ c s) (String.◌∷◌ p ps) = (code c == code p) && has_prefix s ps

unfoldable pub has_suffix : (s suffix : String) → Bool
has_suffix String.[] suffix = str_eq "" suffix
has_suffix (String.◌∷◌ c s) suffix =
    let rest = has_suffix s suffix in if str_eq (String.◌∷◌ c s) suffix then true else rest

unfoldable pub contains : (s part : String) → Bool
contains String.[] part = has_prefix "" part
contains (String.◌∷◌ c s) part =
    let rest = contains s part in if has_prefix (String.◌∷◌ c s) part then true else rest

-- `none` if the text does not begin with the prefix.
unfoldable pub strip : (s prefix : String) → Option String
strip s String.[] = some s
strip String.[] (String.◌∷◌ p ps) = none
strip (String.◌∷◌ c s) (String.◌∷◌ p ps) = if code c == code p then strip s ps else none

abbrev pub trim_prefix : (s prefix : String) → String
trim_prefix s prefix = elim (strip s prefix) [ none ↦ s | some rest ↦ rest ]

-- SplitN(s, sep, 2), if there are two parts.
unfoldable pub split_once : Char → String → Option (String × String)
split_once sep String.[] = none
split_once sep (String.◌∷◌ c s) =
    let rest = split_once sep s in
    if code c == code sep
    then some ("", s)
    else elim rest [ none ↦ none | some (a, b) ↦ some (String.◌∷◌ c a, b) ]

-- The digits of a number after those that make `n`; `none` for another character.
unfoldable pub parse_digits : ℕ → String → Option ℕ
parse_digits n String.[] = some n
parse_digits n (String.◌∷◌ c s) =
    let rest = parse_digits (n * 10 + (code c - 48)) s in
    if leb 48 (code c) && leb (code c) 57 then rest else none

-- ParseUint(s, 10, bits) with the bound `2 ^ bits`: a syntax error or a range error is `none`.
unfoldable pub parse_uint : (bound : ℕ) → String → Option ℕ
parse_uint bound String.[] = none
parse_uint bound (String.◌∷◌ c s) = elim (parse_digits 0 (String.◌∷◌ c s)) [
  | none ↦ none
  | some n ↦ if ltb n bound then some n else none
]
