-- ===== src/Rbac/Parse/Printed.antt =====
-- parsePermissions of pkg/rbac/rbacManager.go against the texts that it is meant to read.
use Prim.Native.Char.{Char}
use Prim.Native.String
use mathlib.Core.Logic.{◌↔◌}
use text.Mathlib.TextLemmas.{nil-append, cons-append}
use sybline.Base.{
  ◌≡◌, refl, ap, ap₂, sym, subst, ◌∙◌, ◌≢◌, inl, inr, String, Bool, true, false, List, [], ◌∷◌, map,
  str_eq, eq_iff, arith, Bool-cases,
}
use sybline.Base.Text.{
  split, join, Lacks, AllLack, split-join, split-cons, join-split, split-AllLack,
}
use sybline.Base.Dict
use sybline.Rbac.Role.{Permissions}
use sybline.Rbac.Parse.{
  Parsed, ok, Parsed-cases, ◌>>=◌, comma, colon, read_parts, read_entries, parse_permissions,
}

-- Whether the entity is allowed, and the entity.
abbrev pub Entry : Type 0
Entry = Bool × String

abbrev pub IsEntry : Entry → Type 0
IsEntry e = (e.1 ≢ "") × Lacks colon e.1 × Lacks comma e.1

abbrev pub AllEntries : List Entry → Type 0
AllEntries [] = Unit
AllEntries (e ∷ es) = IsEntry e × AllEntries es

abbrev pub word : Bool → String
word true = "allow"
word false = "deny"

unfoldable pub print_entry : Entry → String
print_entry e = join colon (word e.0 ∷ e.1 ∷ [])

unfoldable pub print : List Entry → String
print es = join comma (map print_entry es)

-- A later entry of an entity replaces an earlier one.
unfoldable pub collect : List Entry → Permissions → Permissions
collect [] m = m
collect (e ∷ es) m = collect es (Dict.put m e.1 e.0)

Lacks-append : (sep : Char) (s t : String) → Lacks sep s → Lacks sep t → Lacks sep (String.◌++◌ s t)
Lacks-append sep String.[] t _ h = subst (Lacks sep) (sym (nil-append t)) h
Lacks-append sep (String.◌∷◌ c s) t (n, k) h =
    subst (Lacks sep) (sym (cons-append c s t)) (n, Lacks-append sep s t k h)

Lacks-suffix : (sep : Char) (s t : String) → Lacks sep (String.◌++◌ s t) → Lacks sep t
Lacks-suffix sep String.[] t h = subst (Lacks sep) (nil-append t) h
Lacks-suffix sep (String.◌∷◌ c s) t h =
    Lacks-suffix sep s t (subst (Lacks sep) (cons-append c s t) h).1

word-Lacks : (b : Bool) → Lacks comma (word b) × Lacks colon (word b)
word-Lacks true = omega arith
word-Lacks false = omega arith

print_entry-Lacks : (e : Entry) → IsEntry e → Lacks comma (print_entry e)
unfolding print_entry join
print_entry-Lacks e (_, _, h) =
    Lacks-append comma (word e.0) (String.◌∷◌ colon e.1) (word-Lacks e.0).0 (omega arith, h)

print-AllLack : (es : List Entry) → AllEntries es → AllLack comma (map print_entry es)
print-AllLack [] _ = tt
print-AllLack (e ∷ es) (h, hs) = (print_entry-Lacks e h, print-AllLack es hs)

read_parts-word :
    (b : Bool) (entity : String) (m : Permissions)
    → entity ≢ ""
    → read_parts (word b ∷ entity ∷ []) m ≡ ok (Dict.put m entity b)
unfolding read_parts
read_parts-word true entity m n = ground (arith, eq_iff entity "", eq_iff "allow" "allow")
read_parts-word false entity m n =
    ground (arith, eq_iff entity "", eq_iff "deny" "allow", eq_iff "deny" "deny")

read_entries-print :
    (es : List Entry) (m : Permissions)
    → AllEntries es
    → read_entries (map print_entry es) m ≡ ok (collect es m)
unfolding read_entries collect print_entry
read_entries-print [] m _ = refl
read_entries-print (e ∷ es) m ((n, h, _), hs) =
    rw
      (
        split-join colon (word e.0) (e.1 ∷ []) ((word-Lacks e.0).1, (h, tt)),
        read_parts-word e.0 e.1 m n,
      )
      (read_entries-print es (Dict.put m e.1 e.0) hs)

-- The parts of an entry that is accepted.
read_parts-ok :
    (ps : List String) (m m' : Permissions)
    → read_parts ps m ≡ ok m'
    → (e : Entry) × (e.1 ≢ "") × (ps ≡ word e.0 ∷ e.1 ∷ []) × (m' ≡ Dict.put m e.1 e.0)
unfolding read_parts
read_parts-ok [] m m' h = absurd (cc)
read_parts-ok (w ∷ []) m m' h = absurd (cc)
read_parts-ok (w ∷ entity ∷ p ∷ ps) m m' h = absurd (cc)
read_parts-ok (w ∷ entity ∷ []) m m' h = elim (Bool-cases (str_eq w "allow")) [
  | inl a ↦ (
    (true, entity),
    ground (arith, eq_iff entity "", eq_iff w "allow"),
    ground (arith, eq_iff w "allow"),
    ground (arith, eq_iff entity "", eq_iff w "allow"),
  )
  | inr d ↦ (
    (false, entity),
    ground (arith, eq_iff entity "", eq_iff w "deny"),
    ground (arith, eq_iff entity "", eq_iff w "deny"),
    ground (arith, eq_iff entity "", eq_iff w "deny"),
  )
]

entry-IsEntry :
    (perm : String) (e : Entry)
    → split colon perm ≡ word e.0 ∷ e.1 ∷ []
    → Lacks comma perm
    → e.1 ≢ ""
    → IsEntry e × (perm ≡ print_entry e)
unfolding print_entry join
entry-IsEntry perm e parts h n =
    let printed : perm ≡ print_entry e = sym (join-split colon perm) ∙ ap (join colon) parts in
    let lack : AllLack colon (word e.0 ∷ e.1 ∷ []) =
      subst (AllLack colon) parts (split-AllLack colon perm) in
    let tail : Lacks comma (String.◌∷◌ colon e.1) =
      Lacks-suffix comma (word e.0) (String.◌∷◌ colon e.1) (subst (Lacks comma) printed h) in
    ((n, lack.1.0, tail.1), printed)

read_entries-ok :
    (ps : List String) (m m' : Permissions)
    → AllLack comma ps
    → read_entries ps m ≡ ok m'
    → (es : List Entry) × AllEntries es × (ps ≡ map print_entry es) × (m' ≡ collect es m)
unfolding read_entries collect
read_entries-ok [] m m' _ h = ([], tt, refl, cc)
read_entries-ok (p ∷ ps) m m' (l, ls) h = elim (Parsed-cases (read_parts (split colon p) m)) [
  | inr (e, bad) ↦ absurd (ground arith)
  | inl (m1, read) ↦
      let (e, n, parts, put) = read_parts-ok (split colon p) m m1 read in
      let (is_entry, printed) = entry-IsEntry p e parts l n in
      let rest : read_entries ps (Dict.put m e.1 e.0) ≡ ok m' =
        subst (λ t. read_entries ps t ≡ ok m') put
          (sym (ap (λ (r : Parsed Permissions). r >>= read_entries ps) read) ∙ h) in
      let (es, all, printed_all, collected) = read_entries-ok ps (Dict.put m e.1 e.0) m' ls rest in
      (e ∷ es, (is_entry, all), ap₂ ◌∷◌ printed printed_all, collected)
]

print-split :
    (q : String) (qs : List String) (es : List Entry)
    → q ∷ qs ≡ map print_entry es
    → (e : Entry) × (rest : List Entry) × (es ≡ e ∷ rest)
print-split q qs [] h = absurd (cc)
print-split q qs (e ∷ es) h = (e, es, refl)

-- A text of permissions is accepted exactly if it is a list, with commas between them, of one or
-- more entries "allow:entity" or "deny:entity" whose entities are not empty and have no comma and
-- no colon; the map then has each entity with the word of its last entry.
pub parse_permissions-print :
    (perm : String) (m : Permissions)
    → (parse_permissions perm ≡ ok m) ↔ (
        (e : Entry) × (es : List Entry) × AllEntries (e ∷ es)
        × (perm ≡ print (e ∷ es))
        × (m ≡ collect (e ∷ es) []))
unfolding parse_permissions print
parse_permissions-print perm m = (
  λ h.
      let (q, qs, at) = split-cons comma perm in
      let (es, all, printed, collected) =
        read_entries-ok (split comma perm) [] m (split-AllLack comma perm) h in
      let (e, rest, whole) = print-split q qs es (sym at ∙ printed) in
      (
        e,
        rest,
        subst AllEntries whole all,
        sym (join-split comma perm) ∙ ap (join comma) (printed ∙ ap (map print_entry) whole),
        collected ∙ ap (λ l. collect l []) whole,
      ),
  λ found.
      let (e, es, all, printed, collected) = found in
      let parts : split comma perm ≡ map print_entry (e ∷ es) =
        ap (split comma) printed
        ∙ split-join comma (print_entry e) (map print_entry es) (print-AllLack (e ∷ es) all) in
      rw (parts, collected) (read_entries-print (e ∷ es) [] all),
)
