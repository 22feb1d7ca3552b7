-- ===== src/Rbac/Create/Granted.antt =====
-- What a user may do once CreateRole of pkg/rbac/rbacManager.go has read a role from JSON and the role
-- is added and assigned to the user.
use sybline.Base.{
  ◌≡◌, refl, ap, sym, subst, ◌∙◌, String, Bool, true, false, not, ◌&&◌, ◌||◌, Option, none, some,
  [], ◌∷◌, eq_iff, arith,
}
use sybline.Base.Words.{add32}
use sybline.Base.Dict
use sybline.Base.Dict.{Dict, get-put}
use sybline.Rbac.Role.{
  AdminPermission, Permissions, Action, Role, get_messages_action, submit_message_action,
  submit_batch_action, ack_action, batch_ack_action, verdict, permissions_for,
}
use sybline.Rbac.Manager.{RoleManager, has_admin_permission, has_permission}
use sybline.Rbac.Precedence
use sybline.Rbac.Precedence.{
  lists, some_lists, some_says, has_admin_permission-precedence, has_permission-precedence,
}
use sybline.Rbac.Parse.{ok, err, parse_permissions}
use sybline.Rbac.Create.{Leaf, Value, entities, admin, cases, read_actions, empty_role, create_role}
use sybline.Rbac.Create.Labels.{case-IsCoded}
use sybline.Rbac.Create.Actions.{says, read_actions-Adds}
use sybline.Rbac.Create.Entities.{Gives, read_actions-Gives, read_actions-name}
use sybline.Rbac.Create.Accepted.{actions_of, Visits, grant_role, grant_role-users, create_role-ok}

-- A text of the actions on entities allows this entity.
abbrev pub allows : Option Leaf → (entity : String) → Bool
allows none entity = false
allows (some none) entity = false
allows (some (some perm)) entity = elim (parse_permissions perm) [
  | ok ps ↦ Precedence.says true (verdict ps entity)
  | err _ ↦ false
]

said_word :
    (v : Option Leaf) → (not (says "deny" v || false) && (says "allow" v || false)) ≡ says "allow" v
said_word none = refl
said_word (some none) = refl
said_word (some (some perm)) =
    ground (arith, eq_iff perm "deny", eq_iff perm "allow", eq_iff "deny" "allow")

deny_code :
    (label : String) (allow deny : AdminPermission)
    → Dict.get cases label ≡ some (admin allow deny)
    → add32 allow 1 ≡ deny
unfolding add32
deny_code label allow deny labelled =
    let coded = case-IsCoded label (admin allow deny) labelled in omega arith

empty_role-for : (a : Action) (name raw : String) → permissions_for a (empty_role name raw) ≡ []
unfolding permissions_for
empty_role-for get_messages_action name raw = refl
empty_role-for submit_message_action name raw = refl
empty_role-for submit_batch_action name raw = refl
empty_role-for ack_action name raw = refl
empty_role-for batch_ack_action name raw = refl

verdict_lem :
    (v : Option Bool)
    → (not (Precedence.says false v || false) && (Precedence.says true v || false))
      ≡ Precedence.says true v
verdict_lem none = refl
verdict_lem (some true) = refl
verdict_lem (some false) = refl

Gives-allows :
    (ps : Permissions) (v : Option Leaf) (entity : String)
    → Gives [] ps v
    → Precedence.says true (verdict ps entity) ≡ allows v entity
unfolding verdict Dict.get
Gives-allows ps none entity g = rw g refl
Gives-allows ps (some none) entity g = absurd g
Gives-allows ps (some (some perm)) entity g = rw (g, allows) refl

-- The sections' common hypotheses, and what they give of the role.
module _ (unmarshal : String → Option (Dict Value)) (visit : Dict Leaf → Dict Leaf)
    (json user : String) (actions : Dict Leaf) (role : Role) (m : RoleManager)
    (created : create_role unmarshal visit json m ≡ ok role)
    (read : actions_of unmarshal json ≡ some actions) (visits : Visits visit actions)
    (nobody : Dict.get m.users user ≡ none) where
  created_actions :
      (name : String) × (Dict.get m.roles name ≡ none)
      × (read_actions (visit actions) (empty_role name json) ≡ ok role)
  created_actions =
      let (name, found, new, at, run) = create_role-ok unmarshal visit json m role created in
      let same : some found ≡ some actions = sym at ∙ read in
      (
        name,
        new,
        subst (λ l. read_actions (visit l) (empty_role name json) ≡ ok role) (ground (arith, same))
            run,
      )

  granted_users : Dict.get (grant_role user role m).users user ≡ some (role ∷ [])
  granted_users =
      let (name, new, run) = created_actions in
      let named = read_actions-name (visit actions) (empty_role name json) role run in
      grant_role-users user role m (rw named new) nobody

  -- Take a user without roles, and a role that CreateRole has read from a JSON text, each of whose
  -- actions the loop visits once, in any order. Once the role is added and assigned to the user,
  -- HasAdminPermission answers for each of the administrators' actions: it is allowed exactly if the
  -- text has the action with the word "allow".
  pub create_role-has_admin_permission :
      (label : String) (allow deny : AdminPermission)
      → Dict.get cases label ≡ some (admin allow deny)
      → has_admin_permission user allow (grant_role user role m)
        ≡ some (says "allow" (Dict.get actions label))
  unfolding some_lists lists
  create_role-has_admin_permission label allow deny labelled =
      let (name, new, run) = created_actions in
      let (yes_lists, no_lists) =
        read_actions-Adds allow deny label labelled (visit actions) (empty_role name json) role
          visits.once run in
      has_admin_permission-precedence user allow (grant_role user role m)
      ∙ rw granted_users (
          rw (deny_code label allow deny labelled, yes_lists, no_lists, visits.same label)
            (ap some (said_word (Dict.get actions label))))

  -- Take a user without roles, and a role that CreateRole has read from a JSON text, each of whose
  -- actions the loop visits once, in any order. Once the role is added and assigned to the user,
  -- HasPermission answers for each action on entities: it is allowed exactly if the text has the
  -- action with a text of permissions that parses, and there the entry for "*" allows, or there is no
  -- entry for "*" and the entry for the entity allows. An entity of which nothing is said is denied.
  pub create_role-has_permission :
      (label entity : String) (a : Action)
      → Dict.get cases label ≡ some (entities a)
      → has_permission user entity a (grant_role user role m)
        ≡ some (allows (Dict.get actions label) entity)
  unfolding some_says
  create_role-has_permission label entity a labelled =
      let (name, new, run) = created_actions in
      let gives =
        read_actions-Gives a label labelled (visit actions) (empty_role name json) role visits.once
          run in
      has_permission-precedence user entity a (grant_role user role m)
      ∙ rw granted_users (
          ap some (
            verdict_lem (verdict (permissions_for a role) entity)
            ∙ Gives-allows (permissions_for a role) (Dict.get actions label) entity (
                subst (λ before. Gives before (permissions_for a role) (Dict.get actions label))
                  (empty_role-for a name json)
                  (subst (Gives (permissions_for a (empty_role name json)) (permissions_for a role))
                    (visits.same label) gives))))
