-- ===== src/Tests/Cluster.antt =====
-- The addresses of pkg/config for a replica of three.
use sybline.Base.{◌≡◌, refl, String, [], ◌∷◌, ℕ, ◌==◌, if◌then◌else◌}
use sybline.Base.Text.{split, extend}
use sybline.Base.Search.{parse_uint, parse_digits}
use sybline.Core.Run.{ok, panic}
use sybline.Config.{extract_number, address, place, found, wait, look}

abbrev itoa : ℕ → String
itoa n = if n == 0 then "0" else if n == 2 then "2" else "2221"

middle :
    look itoa "default" "sybline-1" 2221 3 3 ("a" ∷ "b" ∷ "c" ∷ [])
    ≡ ok (
        found
          ("a.default.svc.cluster.local:2221" ∷ "c.default.svc.cluster.local:2221" ∷ [])
          ("0" ∷ "2" ∷ [])
          1)
unfolding look place address extract_number split extend parse_uint parse_digits
middle = refl

-- With another service beside those of the pods the slices are too short.
one_more_service : look itoa "default" "sybline-1" 2221 3 3 ("a" ∷ "b" ∷ "c" ∷ "d" ∷ []) ≡ panic
unfolding look place address extract_number split extend parse_uint parse_digits
one_more_service = refl

not_ready : look itoa "default" "sybline-1" 2221 3 2 ("a" ∷ "b" ∷ "c" ∷ []) ≡ ok wait
unfolding look
not_ready = refl
