-- ===== src/Rbac/Manager.antt =====
-- The role manager of pkg/rbac/rbacManager.go: the roles by name, and the roles of each user. A user's
-- list holds pointers to copies of roles that nothing writes to, so they are values here.
use sybline.Base.{
  ℕ, String, Bool, true, false, Option, none, some, List, [], ◌∷◌, ◌++◌, str_eq, swap_remove,
  index_where,
}
use sybline.Base.Dict
use sybline.Base.Dict.{Dict}
use sybline.Rbac.Role.{AdminPermission, Action, Role, scan_roles, scan_admin}

pub data RoleError : Type 0 where
  role_does_not_exist role_already_exists user_has_no_roles role_not_assigned : RoleError

pub record RoleManager : Type 0 where
  pub roles : Dict Role
  pub users : Dict (List Role)

abbrev pub Outcome : Type 0
Outcome = Option RoleError × RoleManager

unfoldable pub add_role : Role → RoleManager → Outcome
add_role role m = elim (Dict.get m.roles role.name) [
  | some r ↦ (some role_already_exists, m)
  | none ↦ (none, record m { roles = Dict.put m.roles role.name role })
]

-- `s[i] = s[len(s)-1]; return s[:len(s)-1]` at the first role with the name: the last role takes its
-- place. `none` if no role has the name.
unfoldable pub remove : List Role → ℕ → List Role
remove s i = swap_remove s i

-- The index at which the loops of DeleteRole and UnassignRole stop.
unfoldable pub index_of : String → List Role → Option ℕ
index_of name rs = index_where (λ r. str_eq r.name name) rs

unfoldable pub remove_named : String → List Role → Option (List Role)
remove_named name rs = elim (index_of name rs) [ none ↦ none | some i ↦ some (remove rs i) ]

-- The loop of DeleteRole over all users.
unfoldable pub strip_role : String → Dict (List Role) → Dict (List Role)
strip_role role [] = []
strip_role role ((user, rs) ∷ users) =
    (user, elim (remove_named role rs) [ none ↦ rs | some left ↦ left ]) ∷ strip_role role users

unfoldable pub delete_role : String → RoleManager → Outcome
delete_role role m = elim (Dict.get m.roles role) [
  | none ↦ (some role_does_not_exist, m)
  | some r ↦ (none, record { roles = Dict.delete m.roles role; users = strip_role role m.users })
]

unfoldable pub assign_role : (username role_name : String) → RoleManager → Outcome
assign_role username role_name m = elim (Dict.get m.roles role_name) [
  | none ↦ (some role_does_not_exist, m)
  | some role ↦ elim (Dict.get m.users username) [
    | none ↦ (none, record m { users = Dict.put m.users username (role ∷ []) })
    | some rs ↦ (none, record m { users = Dict.put m.users username (rs ++ role ∷ []) })
  ]
]

unfoldable pub unassign_role : (username role_name : String) → RoleManager → Outcome
unassign_role username role_name m = elim (Dict.get m.roles role_name) [
  | none ↦ (some role_does_not_exist, m)
  | some role ↦ elim (Dict.get m.users username) [
    | none ↦ (some user_has_no_roles, m)
    | some rs ↦ elim (remove_named role_name rs) [
      | none ↦ (some role_not_assigned, m)
      | some left ↦ (none, record m { users = Dict.put m.users username left })
    ]
  ]
]

-- `none`: the user does not exist or has no roles.
unfoldable pub has_admin_permission : String → AdminPermission → RoleManager → Option Bool
has_admin_permission username permission m = elim (Dict.get m.users username) [
  | none ↦ none
  | some rs ↦ some (scan_admin permission false rs)
]

unfoldable pub has_permission : (username entity : String) → Action → RoleManager → Option Bool
has_permission username entity action m = elim (Dict.get m.users username) [
  | none ↦ none
  | some rs ↦ some (scan_roles action entity false rs)
]

unfoldable pub role_exists : String → RoleManager → Bool
role_exists role m = elim (Dict.get m.roles role) [ none ↦ false | some r ↦ true ]

abbrev pub RawRole : Type 0
RawRole = String × String

unfoldable pub raw_roles : List Role → List RawRole
raw_roles [] = []
raw_roles (r ∷ rs) = (r.name, r.raw_json) ∷ raw_roles rs

unfoldable pub get_roles : String → RoleManager → Option (List RawRole)
get_roles user m = elim (Dict.get m.users user) [ none ↦ none | some rs ↦ some (raw_roles rs) ]

unfoldable pub raw_all : Dict Role → List RawRole
raw_all [] = []
raw_all ((key, r) ∷ roles) = (r.name, r.raw_json) ∷ raw_all roles

unfoldable pub get_all_roles : RoleManager → List RawRole
get_all_roles m = raw_all m.roles
