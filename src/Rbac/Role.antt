-- ===== src/Rbac/Role.antt =====
-- The roles of pkg/rbac/rbacManager.go, and what they say of an action.
use sybline.Base.{
  ℕ, String, Bool, true, false, Option, none, some, List, [], ◌∷◌, ◌==◌, if◌then◌else◌,
}
use sybline.Base.Dict
use sybline.Base.Dict.{Dict}
use sybline.Base.Words.{add32}

-- `AdminPermission`, a uint32: an even number allows, and the next one denies.
abbrev pub AdminPermission : Type 0
AdminPermission = ℕ

abbrev pub allow_create_queue : AdminPermission
allow_create_queue = 0

abbrev pub deny_create_queue : AdminPermission
deny_create_queue = 1

abbrev pub allow_delete_queue : AdminPermission
allow_delete_queue = 2

abbrev pub deny_delete_queue : AdminPermission
deny_delete_queue = 3

abbrev pub allow_create_user : AdminPermission
allow_create_user = 4

abbrev pub deny_create_user : AdminPermission
deny_create_user = 5

abbrev pub allow_delete_user : AdminPermission
allow_delete_user = 6

abbrev pub deny_delete_user : AdminPermission
deny_delete_user = 7

abbrev pub allow_create_role : AdminPermission
allow_create_role = 8

abbrev pub deny_create_role : AdminPermission
deny_create_role = 9

abbrev pub allow_delete_role : AdminPermission
allow_delete_role = 10

abbrev pub deny_delete_role : AdminPermission
deny_delete_role = 11

abbrev pub allow_assign_role : AdminPermission
allow_assign_role = 12

abbrev pub deny_assign_role : AdminPermission
deny_assign_role = 13

abbrev pub allow_unassign_role : AdminPermission
allow_unassign_role = 14

abbrev pub deny_unassign_role : AdminPermission
deny_unassign_role = 15

abbrev pub allow_change_password : AdminPermission
allow_change_password = 16

abbrev pub deny_change_password : AdminPermission
deny_change_password = 17

abbrev pub allow_add_routing_key : AdminPermission
allow_add_routing_key = 18

abbrev pub deny_add_routing_key : AdminPermission
deny_add_routing_key = 19

abbrev pub allow_delete_routing_key : AdminPermission
allow_delete_routing_key = 20

abbrev pub deny_delete_routing_key : AdminPermission
deny_delete_routing_key = 21

-- The constant ALL.
abbrev pub all_entities : String
all_entities = "*"

pub data Action : Type 0 where
  get_messages_action submit_message_action submit_batch_action ack_action batch_ack_action : Action

abbrev pub Permissions : Type 0
Permissions = Dict Bool

pub record Role : Type 0 where
  pub name : String
  pub get_messages : Permissions
  pub submit_message : Permissions
  pub submit_batched_messages : Permissions
  pub ack : Permissions
  pub batch_ack : Permissions
  pub admin_permissions : List AdminPermission
  pub raw_json : String

-- The map that the switch of HasPermission reads for an action; its five branches are alike.
unfoldable pub permissions_for : Action → Role → Permissions
permissions_for get_messages_action r = r.get_messages
permissions_for submit_message_action r = r.submit_message
permissions_for submit_batch_action r = r.submit_batched_messages
permissions_for ack_action r = r.ack
permissions_for batch_ack_action r = r.batch_ack

-- One role's say: the entry of "*" if there is one, else the entry of the entity.
unfoldable pub verdict : Permissions → (entity : String) → Option Bool
verdict ps entity = elim (Dict.get ps all_entities) [ some v ↦ some v | none ↦ Dict.get ps entity ]

-- The loop of HasPermission: the first denial returns, and allowances are remembered.
unfoldable pub scan_roles : Action → (entity : String) → Bool → List Role → Bool
scan_roles action entity has_perm [] = has_perm
scan_roles action entity has_perm (r ∷ rs) =
    let allowed = scan_roles action entity true rs in
    let silent = scan_roles action entity has_perm rs in
    elim (verdict (permissions_for action r) entity) [
      | none ↦ silent
      | some v ↦ if v then allowed else false
    ]

-- The inner loop of HasAdminPermission; `none` is its `return false`.
unfoldable pub scan_permissions : AdminPermission → Bool → List AdminPermission → Option Bool
scan_permissions permission found [] = some found
scan_permissions permission found (p ∷ ps) =
    let rest = scan_permissions permission (if p == permission then true else found) ps in
    if p == add32 permission 1 then none else rest

unfoldable pub scan_admin : AdminPermission → Bool → List Role → Bool
scan_admin permission found [] = found
scan_admin permission found (r ∷ rs) =
    elim (scan_permissions permission found r.admin_permissions) [
      | none ↦ false
      | some f ↦ scan_admin permission f rs
    ]
