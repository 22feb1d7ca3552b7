-- ===== src/Rbac/Builtin.antt =====
-- pkg/rbac/builtin.go: the roles that every manager starts with.
pub mod Powers
use sybline.Base.{String, true, false, List, [], ◌∷◌}
use sybline.Rbac.Role.{
  AdminPermission, Permissions, Role, allow_create_queue, deny_create_queue, allow_delete_queue,
  deny_delete_queue, allow_create_user, deny_create_user, allow_delete_user, deny_delete_user,
  allow_create_role, deny_create_role, allow_delete_role, deny_delete_role, allow_assign_role,
  deny_assign_role, allow_unassign_role, deny_unassign_role, allow_change_password,
  deny_change_password, allow_add_routing_key, deny_add_routing_key, allow_delete_routing_key,
  deny_delete_routing_key,
}
use sybline.Rbac.Manager.{RoleManager, add_role}

abbrev pub all_admin : List AdminPermission
all_admin =
    allow_create_queue ∷ allow_delete_queue ∷ allow_create_user ∷ allow_delete_user
    ∷ allow_create_role ∷ allow_delete_role ∷ allow_assign_role ∷ allow_unassign_role
    ∷ allow_add_routing_key ∷ allow_delete_routing_key ∷ allow_change_password ∷ []

abbrev pub any_allow : Permissions
any_allow = ("*", true) ∷ []

abbrev pub empty : Permissions
empty = []

abbrev pub deny_admin : List AdminPermission
deny_admin =
    deny_create_queue ∷ deny_delete_queue ∷ deny_create_user ∷ deny_delete_user ∷ deny_create_role
    ∷ deny_delete_role ∷ deny_assign_role ∷ deny_unassign_role ∷ deny_add_routing_key
    ∷ deny_delete_routing_key ∷ deny_change_password ∷ []

abbrev pub any_deny : Permissions
any_deny = ("*", false) ∷ []

-- the string that GetRoles shows
abbrev pub raw_root : String
raw_root =
    "\n{\n\t\"role\": \"ROOT\",\n\t\"actions\": {\n\t\t\"GetMessages\": \"allow:*\",\n\t\t\"SubmitMessage\": \"allow:*\",\n\t\t\"SubmitBatchedMessages\": \"allow:*\",\n\t\t\"CreateQueue\": \"allow\",\n\t\t\"ChangePassword\": \"allow\",\n\t\t\"Ack\": \"allow:*\",\n\t\t\"BatchAck\": \"allow:*\",\n\t\t\"DeleteQueue\": \"allow\",\n\t\t\"CreateUser\": \"allow\",\n\t\t\"DeleteUser\": \"allow\",\n\t\t\"CreateRole\": \"allow\",\n\t\t\"DeleteRole\": \"allow\",\n\t\t\"AssignRole\": \"allow\",\n\t\t\"UnassignRole\": \"allow\",\n\t\t\"CreateRole\": \"allow\"\n\t}\n}"

abbrev pub root : Role
root = record {
  name = "ROOT";
  get_messages = any_allow;
  submit_message = any_allow;
  submit_batched_messages = any_allow;
  ack = any_allow;
  batch_ack = any_allow;
  admin_permissions = all_admin;
  raw_json = raw_root;
}

-- the string that GetRoles shows
abbrev pub raw_admin : String
raw_admin =
    "\n\t\t{\n\t\t\t\"role\": \"ADMIN\",\n\t\t\t\"actions\": {\n\t\t\t\t\"CreateQueue\": \"allow\",\n\t\t\t\t\"ChangePassword\": \"allow\",\n\t\t\t\t\"DeleteQueue\": \"allow\",\n\t\t\t\t\"CreateUser\": \"allow\",\n\t\t\t\t\"DeleteUser\": \"allow\",\n\t\t\t\t\"CreateRole\": \"allow\",\n\t\t\t\t\"DeleteRole\": \"allow\",\n\t\t\t\t\"AssignRole\": \"allow\",\n\t\t\t\t\"UnassignRole\": \"allow\",\n\t\t\t\t\"CreateRole\": \"allow\"\n\t\t\t}\n\t\t}"

abbrev pub admin : Role
admin = record {
  name = "ADMIN";
  get_messages = empty;
  submit_message = empty;
  submit_batched_messages = empty;
  ack = empty;
  batch_ack = empty;
  admin_permissions = all_admin;
  raw_json = raw_admin;
}

-- the string that GetRoles shows
abbrev pub raw_producer : String
raw_producer =
    "\n\t\t{\n\t\t\t\"role\": \"PRODUCER\",\n\t\t\t\"actions\": {\n\t\t\t\t\"SubmitMessage\": \"allow:*\",\n\t\t\t\t\"SubmitBatchedMessages\": \"allow:*\"\n\t\t\t}\n\t\t}"

abbrev pub producer : Role
producer = record {
  name = "PRODUCER";
  get_messages = empty;
  submit_message = any_allow;
  submit_batched_messages = any_allow;
  ack = empty;
  batch_ack = empty;
  admin_permissions = [];
  raw_json = raw_producer;
}

-- the string that GetRoles shows
abbrev pub raw_consumer : String
raw_consumer =
    "\n\t\t{\n\t\t\t\"role\": \"CONSUMER\",\n\t\t\t\"actions\": {\n\t\t\t\t\"GetMessages\": \"allow:*\",\n\t\t\t\t\"Ack\": \"allow:*\",\n\t\t\t\t\"BatchAck\": \"allow:*\"\n\t\t\t}\n\t\t}"

abbrev pub consumer : Role
consumer = record {
  name = "CONSUMER";
  get_messages = any_allow;
  submit_message = empty;
  submit_batched_messages = empty;
  ack = any_allow;
  batch_ack = any_allow;
  admin_permissions = [];
  raw_json = raw_consumer;
}

-- the string that GetRoles shows
abbrev pub raw_deny : String
raw_deny =
    "\n\t\t{\n\t\t\t\"role\": \"DENY\",\n\t\t\t\"actions\": {\n\t\t\t\t\"GetMessages\": \"deny:*\",\n\t\t\t\t\"SubmitMessage\": \"deny:*\",\n\t\t\t\t\"SubmitBatchedMessages\": \"deny:*\",\n\t\t\t\t\"CreateQueue\": \"deny\",\n\t\t\t\t\"ChangePassword\": \"deny\",\n\t\t\t\t\"Ack\": \"deny:*\",\n\t\t\t\t\"BatchAck\": \"deny:*\",\n\t\t\t\t\"DeleteQueue\": \"deny\",\n\t\t\t\t\"CreateUser\": \"deny\",\n\t\t\t\t\"DeleteUser\": \"deny\",\n\t\t\t\t\"CreateRole\": \"deny\",\n\t\t\t\t\"DeleteRole\": \"deny\",\n\t\t\t\t\"AssignRole\": \"deny\",\n\t\t\t\t\"UnassignRole\": \"deny\",\n\t\t\t\t\"CreateRole\": \"deny\"\n\t\t\t}\n\t\t}"

abbrev pub deny : Role
deny = record {
  name = "DENY";
  get_messages = any_deny;
  submit_message = any_deny;
  submit_batched_messages = any_deny;
  ack = any_deny;
  batch_ack = any_deny;
  admin_permissions = deny_admin;
  raw_json = raw_deny;
}

-- The errors of AddRole are dropped.
unfoldable pub create_built_in_roles : RoleManager → RoleManager
create_built_in_roles m =
    (add_role deny
      (add_role consumer (add_role producer (add_role admin (add_role root m).1).1).1).1).1

unfoldable pub new_role_manager : RoleManager
unfolding create_built_in_roles
new_role_manager = create_built_in_roles (record { roles = []; users = [] })
