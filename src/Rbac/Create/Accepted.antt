-- ===== src/Rbac/Create/Accepted.antt =====
-- When CreateRole of pkg/rbac/rbacManager.go accepts a text, and what the manager holds then.
use sybline.Base.{
  ◌≡◌, refl, sym, subst, ◌∙◌, inl, inr, String, Option, none, some, [], ◌∷◌, eq_refl, arith,
  Option-cases,
}
use sybline.Base.Dict
use sybline.Base.Dict.{Dict, get-put}
use sybline.Rbac.Role.{Role}
use sybline.Rbac.Manager.{RoleManager, add_role, assign_role}
use sybline.Rbac.Parse.{ok}
use sybline.Rbac.Create.{
  Leaf, Value, text, object, other, read_actions, empty_role, read_object, read_named, create_role,
}
use sybline.Rbac.Create.Labels.{IsMap}

abbrev pub object_of : Option Value → Option (Dict Leaf)
object_of none = none
object_of (some (text s)) = none
object_of (some (object actions)) = some actions
object_of (some other) = none

-- The map under "actions" of the JSON text.
abbrev pub actions_of : (unmarshal : String → Option (Dict Value)) → String → Option (Dict Leaf)
actions_of unmarshal json = elim (unmarshal json) [
  | none ↦ none
  | some role_data ↦ object_of (Dict.get role_data "actions")
]

-- The loop visits every entry of the map, each once.
pub record Visits (visit : Dict Leaf → Dict Leaf) (actions : Dict Leaf) : Type 0 where
  pub once : IsMap (visit actions)
  pub same : (k : String) → Dict.get (visit actions) k ≡ Dict.get actions k

-- The role is added, and then assigned to the user.
unfoldable pub grant_role : String → Role → RoleManager → RoleManager
grant_role user role m = (assign_role user role.name (add_role role m).1).1

add_role-new :
    (role : Role) (m : RoleManager)
    → Dict.get m.roles role.name ≡ none
    → (add_role role m).1 ≡ record m { roles = Dict.put m.roles role.name role }
unfolding add_role
add_role-new role m new = rw (new, add_role) refl

assign_role-first :
    (user name : String) (role : Role) (m : RoleManager)
    → Dict.get m.roles name ≡ some role
    → Dict.get m.users user ≡ none
    → Dict.get (assign_role user name m).1.users user ≡ some (role ∷ [])
unfolding assign_role
assign_role-first user name role m here nobody =
    rw (here, assign_role)
      (rw (nobody, assign_role) (get-put m.users user user (role ∷ []) ∙ rw (eq_refl user) refl))

pub grant_role-users :
    (user : String) (role : Role) (m : RoleManager)
    → Dict.get m.roles role.name ≡ none
    → Dict.get m.users user ≡ none
    → Dict.get (grant_role user role m).users user ≡ some (role ∷ [])
unfolding grant_role
grant_role-users user role m new nobody =
    subst (λ t. Dict.get (assign_role user role.name t).1.users user ≡ some (role ∷ []))
      (sym (add_role-new role m new))
      (assign_role-first user role.name role (record m { roles = Dict.put m.roles role.name role })
        (get-put m.roles role.name role.name role ∙ rw (eq_refl role.name) refl) nobody)

module _ (unmarshal : String → Option (Dict Value)) (visit : Dict Leaf → Dict Leaf) where
  -- What an accepted text has been through.
  abbrev pub Accepted : String → Role → RoleManager → Option (Dict Leaf) → Type 0
  Accepted json role m found =
      (name : String) × (actions : Dict Leaf) × (Dict.get m.roles name ≡ none)
      × (found ≡ some actions)
      × (read_actions (visit actions) (empty_role name json) ≡ ok role)

  read_object-ok :
      (json name : String) (value : Option Value) (m : RoleManager) (role : Role)
      → Dict.get m.roles name ≡ none
      → read_object unmarshal visit value (empty_role name json) ≡ ok role
      → Accepted json role m (object_of value)
  unfolding read_object
  read_object-ok json name none m role new h = absurd (cc)
  read_object-ok json name (some (text s)) m role new h = absurd (cc)
  read_object-ok json name (some other) m role new h = absurd (cc)
  read_object-ok json name (some (object actions)) m role new h =
      (name, actions, new, refl, ground arith)

  read_named-ok :
      (json : String) (value : Option Value) (role_data : Dict Value) (m : RoleManager)
      (role : Role)
      → read_named unmarshal visit value role_data json m ≡ ok role
      → Accepted json role m (object_of (Dict.get role_data "actions"))
  unfolding read_named
  read_named-ok json none role_data m role h = absurd (cc)
  read_named-ok json (some (object actions)) role_data m role h = absurd (cc)
  read_named-ok json (some other) role_data m role h = absurd (cc)
  read_named-ok json (some (text name)) role_data m role h =
      elim (Option-cases (Dict.get m.roles name)) [
        | inr (r, taken) ↦ absurd (ground (arith, taken))
        | inl new ↦
            read_object-ok json name (Dict.get role_data "actions") m role new (ground (arith, new))
      ]

  pub create_role-ok :
      (json : String) (m : RoleManager) (role : Role)
      → create_role unmarshal visit json m ≡ ok role
      → Accepted json role m (actions_of unmarshal json)
  unfolding create_role
  create_role-ok json m role h = elim (Option-cases (unmarshal json)) [
    | inl n ↦ absurd (ground (arith, n))
    | inr (role_data, at) ↦
        rw (at, actions_of)
          (read_named-ok json (Dict.get role_data "role") role_data m role (ground (arith, at)))
  ]
