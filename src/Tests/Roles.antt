-- ===== src/Tests/Roles.antt =====
-- Roles and users of pkg/rbac.
use mathlib.Core.Option
use sybline.Base.{
  count, ◌≡◌, refl, ◌+◌, String, true, false, not, ◌&&◌, none, some, [], ◌∷◌, one_if, str_eq,
  if◌then◌else◌,
}
use sybline.Base.Words.{add32}
use sybline.Base.Dict
use sybline.Base.Dict.{Dict}
use sybline.Rbac.Role.{Role, allow_create_queue, ack_action, permissions_for}
use sybline.Rbac.Manager.{
  RoleManager, role_does_not_exist, unassign_role, delete_role, assign_role, has_admin_permission,
  has_permission,
}
use sybline.Rbac.Precedence.{
  some_lists, some_says, has_admin_permission-precedence, has_permission-precedence,
  wildcard_decides,
}
use sybline.Rbac.Assign.{times, delete_role-times, assign_role-times, unassign_role-times, one_less}

-- A role that lets its users create queues and acknowledge on every queue but one, by its own words.
abbrev worker : Role
worker = record {
  name = "worker";
  get_messages = [];
  submit_message = [];
  submit_batched_messages = [];
  ack = ("*", true) ∷ ("secret", false) ∷ [];
  batch_ack = [];
  admin_permissions = allow_create_queue ∷ [];
  raw_json = "{}";
}

abbrev manager : RoleManager
manager = record {
  roles = ("worker", worker) ∷ [];
  users = ("ann", worker ∷ []) ∷ ("bob", worker ∷ worker ∷ []) ∷ [];
}

has_admin_permission-precedence_example :
    has_admin_permission "ann" allow_create_queue manager
    ≡ Option.map
        (λ rs. not (some_lists (add32 allow_create_queue 1) rs) && some_lists allow_create_queue rs)
        (Dict.get manager.users "ann")
has_admin_permission-precedence_example =
    has_admin_permission-precedence "ann" allow_create_queue manager

has_permission-precedence_example :
    has_permission "ann" "jobs" ack_action manager
    ≡ Option.map
        (λ rs. not (some_says false ack_action "jobs" rs) && some_says true ack_action "jobs" rs)
        (Dict.get manager.users "ann")
has_permission-precedence_example = has_permission-precedence "ann" "jobs" ack_action manager

-- A role that allows "*" and denies nothing by name.
abbrev open_worker : Role
open_worker = record worker { ack = ("*", true) ∷ [] }

wildcard_decides_example :
    has_permission "ann" "secret" ack_action manager
    ≡ has_permission "ann" "secret" ack_action
        (record manager { users = Dict.put manager.users "ann" (open_worker ∷ []) })
unfolding Dict.get permissions_for
wildcard_decides_example =
    wildcard_decides "ann" "secret" ack_action manager [] [] worker open_worker true refl refl refl

delete_role-times_example :
    ((delete_role "worker" manager).0
      ≡ elim (Dict.get manager.roles "worker") [ none ↦ some role_does_not_exist | some r ↦ none ])
    × ((b : String)
        → Dict.get (delete_role "worker" manager).1.roles b
          ≡ (if str_eq "worker" b then none else Dict.get manager.roles b))
    × ((user b : String)
        → times user b (delete_role "worker" manager).1 ≡ elim (Dict.get manager.roles "worker") [
          | none ↦ times user b manager
          | some r ↦ one_less "worker" b (times user b manager)
        ])
delete_role-times_example = delete_role-times "worker" manager

assign_role-times_example :
    ((assign_role "ann" "worker" manager).0 ≡ none)
    × ((u b : String)
        → times u b (assign_role "ann" "worker" manager).1
          ≡ times u b manager + one_if (if str_eq "ann" u then str_eq "worker" b else false))
unfolding Dict.get
assign_role-times_example = assign_role-times "ann" "worker" worker manager refl

unassign_role-times_example :
    ((unassign_role "bob" "worker" manager).0 ≡ none)
    × ((u b : String)
        → times u b (unassign_role "bob" "worker" manager).1
          ≡ (if str_eq "bob" u then one_less "worker" b (times u b manager) else times u b manager))
unfolding Dict.get count
unassign_role-times_example =
    unassign_role-times "bob" "worker" worker (worker ∷ worker ∷ []) manager refl refl
