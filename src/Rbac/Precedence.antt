-- ===== src/Rbac/Precedence.antt =====
-- HasPermission and HasAdminPermission of pkg/rbac/rbacManager.go.
use mathlib.Core.Option
use sybline.Base.{
  ◌≡◌, refl, ap, sym, ◌∙◌, ◌++◌, eq_refl, fun_ext, String, Bool, true, false, not, ◌&&◌, ◌||◌,
  Option, none, some, List, [], ◌∷◌, ◌==◌, arith, if◌then◌else◌,
}
use sybline.Base.Words.{add32}
use sybline.Base.Dict
use sybline.Rbac.Role.{
  AdminPermission, Action, Role, Permissions, all_entities, permissions_for, verdict, scan_roles,
  scan_permissions, scan_admin,
}
use sybline.Rbac.Manager.{RoleManager, has_admin_permission, has_permission}

unfoldable pub lists : AdminPermission → List AdminPermission → Bool
lists permission [] = false
lists permission (p ∷ ps) = (p == permission) || lists permission ps

-- Some role lists the permission.
unfoldable pub some_lists : AdminPermission → List Role → Bool
some_lists permission [] = false
some_lists permission (r ∷ rs) = lists permission r.admin_permissions || some_lists permission rs

-- A role's say is the verdict `v`.
abbrev pub says : Bool → Option Bool → Bool
says v none = false
says v (some w) = if v then w else not w

unfoldable pub some_says : Bool → Action → String → List Role → Bool
some_says v action entity [] = false
some_says v action entity (r ∷ rs) =
    says v (verdict (permissions_for action r) entity) || some_says v action entity rs

scan_permissions_lem :
    (p : AdminPermission) (found : Bool) (ps : List AdminPermission)
    → scan_permissions p found ps
      ≡ (if lists (add32 p 1) ps then none else some (found || lists p ps))
unfolding scan_permissions lists
scan_permissions_lem p found [] = ground arith
scan_permissions_lem p found (q ∷ ps) =
    ground (arith, scan_permissions_lem p (if q == p then true else found) ps)

scan_admin_lem :
    (p : AdminPermission) (found : Bool) (rs : List Role)
    → scan_admin p found rs ≡ (not (some_lists (add32 p 1) rs) && (found || some_lists p rs))
unfolding scan_admin some_lists
scan_admin_lem p found [] = ground arith
scan_admin_lem p found (r ∷ rs) = ground (
  arith,
  scan_permissions_lem p found r.admin_permissions,
  scan_admin_lem p (found || lists p r.admin_permissions) rs,
)

scan_roles_lem :
    (action : Action) (entity : String) (has_perm : Bool) (rs : List Role)
    → scan_roles action entity has_perm rs
      ≡ (not (some_says false action entity rs) && (has_perm || some_says true action entity rs))
unfolding scan_roles some_says
scan_roles_lem action entity has_perm [] = ground arith
scan_roles_lem action entity has_perm (r ∷ rs) =
    ground (arith, scan_roles_lem action entity true rs, scan_roles_lem action entity has_perm rs)

-- HasAdminPermission is an error exactly for a user without a list of roles. Otherwise it is true
-- exactly if no role of the user lists the denial and some role lists the permission, in whatever
-- order the roles and their permissions stand.
pub has_admin_permission-precedence :
    (username : String) (p : AdminPermission) (m : RoleManager)
    → has_admin_permission username p m
      ≡ Option.map
          (λ rs. not (some_lists (add32 p 1) rs) && some_lists p rs)
          (Dict.get m.users username)
unfolding has_admin_permission
has_admin_permission-precedence username p m =
    ap (λ (f : List Role → Bool). Option.map f (Dict.get m.users username))
      (fun_ext (scan_admin_lem p false))

-- HasPermission is an error exactly for a user without a list of roles. Otherwise it is true exactly
-- if none of the user's roles says no to the entity and some role says yes, in whatever order the roles
-- stand. What a role says is its entry for "*" if it has one, and only otherwise its entry for the
-- entity, so that a role with an allowance of "*" says yes also to an entity that it denies by name.
pub has_permission-precedence :
    (username entity : String) (action : Action) (m : RoleManager)
    → has_permission username entity action m
      ≡ Option.map
          (λ rs. not (some_says false action entity rs) && some_says true action entity rs)
          (Dict.get m.users username)
unfolding has_permission
has_permission-precedence username entity action m =
    ap (λ (f : List Role → Bool). Option.map f (Dict.get m.users username))
      (fun_ext (scan_roles_lem action entity false))

verdict-all :
    (ps : Permissions) (entity : String) (v : Bool)
    → Dict.get ps all_entities ≡ some v
    → verdict ps entity ≡ some v
unfolding verdict
verdict-all ps entity v h = rw (h, verdict)

-- A role may stand for another one that says the same.
some_says-replaced :
    (v : Bool) (action : Action) (entity : String) (front back : List Role) (r s : Role)
    → verdict (permissions_for action r) entity ≡ verdict (permissions_for action s) entity
    → some_says v action entity (front ++ r ∷ back) ≡ some_says v action entity (front ++ s ∷ back)
unfolding some_says
some_says-replaced v action entity [] back r s e = rw e refl
some_says-replaced v action entity (f ∷ front) back r s e =
    ap (λ b. says v (verdict (permissions_for action f) entity) || b)
      (some_says-replaced v action entity front back r s e)

-- Take a role with an entry for "*" among any roles of a user. HasPermission answers for every entity
-- as it does when another role stands in its place that has the same entry for "*", whatever the two
-- roles say of single entities: a denial of an entity by name has no effect beside an entry for "*" in
-- the same role.
pub wildcard_decides :
    (username entity : String) (action : Action) (m : RoleManager) (front back : List Role)
    (r s : Role) (v : Bool)
    → Dict.get m.users username ≡ some (front ++ r ∷ back)
    → Dict.get (permissions_for action r) all_entities ≡ some v
    → Dict.get (permissions_for action s) all_entities ≡ some v
    → has_permission username entity action m
      ≡ has_permission username entity action
          (record m { users = Dict.put m.users username (front ++ s ∷ back) })
wildcard_decides username entity action m front back r s v u e f =
    let n : RoleManager = record m { users = Dict.put m.users username (front ++ s ∷ back) } in
    let same =
      verdict-all (permissions_for action r) entity v e
      ∙ sym (verdict-all (permissions_for action s) entity v f) in
    let put : Dict.get n.users username ≡ some (front ++ s ∷ back) =
      Dict.get-put m.users username username (front ++ s ∷ back) ∙ rw (eq_refl username) refl in
    rw
      (
        has_permission-precedence username entity action m,
        has_permission-precedence username entity action n,
        u,
        put,
        some_says-replaced false action entity front back r s same,
        some_says-replaced true action entity front back r s same,
      )
      refl
