-- ===== src/Rbac/Parse.antt =====
-- parsePermissions and parseAdminPermissions of pkg/rbac/rbacManager.go.
pub mod Printed
use Prim.Native.Char.{Char}
use sybline.Base.{
  ◌≡◌, refl, ◌⊎◌, inl, inr, String, Bool, true, false, not, List, [], ◌∷◌, str_eq, if◌then◌else◌,
}
use sybline.Base.Text.{split}
use sybline.Base.Dict
use sybline.Rbac.Role.{Permissions}

pub data ParseError : Type 0 where
  not_an_object missing_role_name role_name_empty role_exists : ParseError
  missing_actions invalid_actions no_actions invalid_permission invalid_field : ParseError
  -- "action can only be: deny or allow"
  only_deny_or_allow invalid_number_of_parts invalid_entity_length : ParseError

pub data Parsed {ℓ} (A : Type ℓ) : Type ℓ where
  ok : A → Parsed A
  err : ParseError → Parsed A

infixl 5 ◌>>=◌
abbrev pub ◌>>=◌ {ℓ κ} : {A : Type ℓ} {B : Type κ} → Parsed A → (A → Parsed B) → Parsed B
ok a >>= f = f a
err e >>= f = err e

pub Parsed-cases {ℓ} :
    {A : Type ℓ} (r : Parsed A) → ((a : A) × (r ≡ ok a)) ⊎ ((e : ParseError) × (r ≡ err e))
Parsed-cases (ok a) = inl (a, refl)
Parsed-cases (err e) = inr (e, refl)

unfoldable pub parse_admin_permissions : String → Parsed Bool
parse_admin_permissions perm =
    if str_eq perm "allow"
    then ok true
    else if str_eq perm "deny"
    then ok false
    else err only_deny_or_allow

abbrev pub comma : Char
comma = ","

abbrev pub colon : Char
colon = ":"

-- One round of the loop of parsePermissions, on the parts between the colons.
unfoldable pub read_parts : List String → Permissions → Parsed Permissions
read_parts [] m = err invalid_number_of_parts
read_parts (word ∷ []) m = err invalid_number_of_parts
read_parts (word ∷ entity ∷ []) m =
    if str_eq entity ""
    then err invalid_entity_length
    else if str_eq word "allow"
    then ok (Dict.put m entity true)
    else if not (str_eq word "deny")
    then err only_deny_or_allow
    else ok (Dict.put m entity false)
read_parts (word ∷ entity ∷ more ∷ rest) m = err invalid_number_of_parts

unfoldable pub read_entries : List String → Permissions → Parsed Permissions
read_entries [] m = ok m
read_entries (perm ∷ perms) m = do m' ← read_parts (split colon perm) m; read_entries perms m'

unfoldable pub parse_permissions : String → Parsed Permissions
parse_permissions perm = read_entries (split comma perm) []
