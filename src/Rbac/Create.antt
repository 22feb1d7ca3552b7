-- ===== src/Rbac/Create.antt =====
-- CreateRole of pkg/rbac/rbacManager.go: a role from its JSON text. What json.Unmarshal makes of the
-- text, and the order in which the loop visits the map of actions, are parameters.
pub mod Labels
pub mod Actions
pub mod Entities
pub mod Accepted
pub mod Granted
pub mod Order
use sybline.Base.{
  String, Bool, Option, none, some, List, [], ◌∷◌, ◌++◌, str_eq, if◌then◌else◌, length, ◌==◌,
}
use sybline.Base.Dict
use sybline.Base.Dict.{Dict}
use sybline.Rbac.Role.{
  AdminPermission, Permissions, Action, get_messages_action, submit_message_action,
  submit_batch_action, ack_action, batch_ack_action, Role, allow_create_queue, deny_create_queue,
  allow_delete_queue, deny_delete_queue, allow_create_user, deny_create_user, allow_delete_user,
  deny_delete_user, allow_create_role, deny_create_role, allow_delete_role, deny_delete_role,
  allow_assign_role, deny_assign_role, allow_unassign_role, deny_unassign_role,
  allow_change_password, deny_change_password, allow_add_routing_key, deny_add_routing_key,
  allow_delete_routing_key, deny_delete_routing_key,
}
use sybline.Rbac.Manager.{RoleManager}
use sybline.Rbac.Parse.{
  ParseError, not_an_object, missing_role_name, role_name_empty, role_exists, missing_actions,
  invalid_actions, no_actions, invalid_permission, invalid_field, Parsed, ok, err, ◌>>=◌,
  parse_admin_permissions, parse_permissions,
}

-- A value under "actions": a string, or `none` for any other JSON value.
abbrev pub Leaf : Type 0
Leaf = Option String

-- A value of the outer object, as far as the type assertions of CreateRole tell values apart.
pub data Value : Type 0 where
  text : String → Value
  object : Dict Leaf → Value
  other : Value

-- What a case of the switch does with the permission.
pub data Case : Type 0 where
  entities : Action → Case
  admin : (allow deny : AdminPermission) → Case

-- The labels of the switch.
abbrev pub cases : Dict Case
cases =
    ("GetMessages", entities get_messages_action)
    ∷ ("SubmitMessage", entities submit_message_action)
    ∷ ("SubmitBatchedMessages", entities submit_batch_action)
    ∷ ("Ack", entities ack_action)
    ∷ ("BatchAck", entities batch_ack_action)
    ∷ ("CreateQueue", admin allow_create_queue deny_create_queue)
    ∷ ("DeleteQueue", admin allow_delete_queue deny_delete_queue)
    ∷ ("CreateUser", admin allow_create_user deny_create_user)
    ∷ ("DeleteUser", admin allow_delete_user deny_delete_user)
    ∷ ("CreateRole", admin allow_create_role deny_create_role)
    ∷ ("DeleteRole", admin allow_delete_role deny_delete_role)
    ∷ ("AssignRole", admin allow_assign_role deny_assign_role)
    ∷ ("UnassignRole", admin allow_unassign_role deny_unassign_role)
    ∷ ("ChangePassword", admin allow_change_password deny_change_password)
    ∷ ("AddRoutingKey", admin allow_add_routing_key deny_add_routing_key)
    ∷ ("DeleteRoutingKey", admin allow_delete_routing_key deny_delete_routing_key)
    ∷ []

-- `role.GetMessages = mp`, and the like
unfoldable pub set_permissions : Action → Permissions → Role → Role
set_permissions get_messages_action mp r = record r { get_messages = mp }
set_permissions submit_message_action mp r = record r { submit_message = mp }
set_permissions submit_batch_action mp r = record r { submit_batched_messages = mp }
set_permissions ack_action mp r = record r { ack = mp }
set_permissions batch_ack_action mp r = record r { batch_ack = mp }

unfoldable pub add_permission : AdminPermission → Role → Role
add_permission p r = record r { admin_permissions = r.admin_permissions ++ p ∷ [] }

unfoldable pub read_case : Case → String → Role → Parsed Role
read_case (entities action) perm r = do
  mp ← parse_permissions perm
  ok (set_permissions action mp r)
read_case (admin allow deny) perm r = do
  result ← parse_admin_permissions perm
  ok (add_permission (if result then allow else deny) r)

-- One round of the loop.
unfoldable pub read_action : String → Leaf → Role → Parsed Role
read_action action none r = err invalid_permission
read_action action (some perm) r = elim (Dict.get cases action) [
  | none ↦ err invalid_field
  | some c ↦ read_case c perm r
]

unfoldable pub read_actions : Dict Leaf → Role → Parsed Role
read_actions [] r = ok r
read_actions ((action, permission) ∷ rest) r = do
  r' ← read_action action permission r
  read_actions rest r'

abbrev pub empty_role : (name raw : String) → Role
empty_role name raw = record {
  name = name;
  get_messages = [];
  submit_message = [];
  submit_batched_messages = [];
  ack = [];
  batch_ack = [];
  admin_permissions = [];
  raw_json = raw;
}

module _ (unmarshal : String → Option (Dict Value)) (visit : Dict Leaf → Dict Leaf) where
  unfoldable pub read_object : Option Value → Role → Parsed Role
  read_object none r = err missing_actions
  read_object (some (text s)) r = err invalid_actions
  read_object (some other) r = err invalid_actions
  read_object (some (object actions)) r =
      if length actions == 0 then err no_actions else read_actions (visit actions) r

  unfoldable pub read_named : Option Value → Dict Value → String → RoleManager → Parsed Role
  read_named none role_data json m = err missing_role_name
  read_named (some (object actions)) role_data json m = err role_name_empty
  read_named (some other) role_data json m = err role_name_empty
  read_named (some (text name)) role_data json m =
      if str_eq name "" then err role_name_empty else elim (Dict.get m.roles name) [
        | some r ↦ err role_exists
        | none ↦ read_object (Dict.get role_data "actions") (empty_role name json)
      ]

  unfoldable pub create_role : String → RoleManager → Parsed Role
  create_role json m = elim (unmarshal json) [
    | none ↦ err not_an_object
    | some role_data ↦ read_named (Dict.get role_data "role") role_data json m
  ]
