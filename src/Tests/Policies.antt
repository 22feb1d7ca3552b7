-- ===== src/Tests/Policies.antt =====
-- Roles read from JSON, and the built-in roles, of pkg/rbac.
use mathlib.Core.Logic.{◌↔◌}
use mathlib.Core.List.{reverse}
use sybline.Base.{◌≡◌, refl, String, Bool, true, false, Option, some, List, [], ◌∷◌, eq_iff, arith}
use sybline.Base.Dict
use sybline.Base.Dict.{Dict}
use sybline.Rbac.Role.{Role, ack_action, allow_create_queue, deny_create_queue}
use sybline.Rbac.Manager.{RoleManager, has_permission, has_admin_permission}
use sybline.Base.Text.{split, extend}
use sybline.Rbac.Parse.{ok, parse_permissions, parse_admin_permissions, read_entries, read_parts}
use sybline.Rbac.Parse.Printed.{Entry, AllEntries, print, collect, parse_permissions-print}
use sybline.Rbac.Create.{
  Leaf, Value, text, object, create_role, read_named, read_object, read_actions, read_action,
  read_case, add_permission, set_permissions,
}
use sybline.Rbac.Create.Actions.{says}
use sybline.Rbac.Create.Accepted.{Visits, grant_role}
use sybline.Rbac.Create.Granted.{
  allows, create_role-has_admin_permission, create_role-has_permission,
}
use sybline.Rbac.Create.Order.{is_ok, create_role-is_ok}
use sybline.Rbac.Builtin.{root, deny, producer}
use sybline.Rbac.Builtin.Powers.{permits, administers, producing, duties_apart}

parse_permissions-print_example :
    (parse_permissions "allow:jobs,deny:mail" ≡ ok (("jobs", true) ∷ ("mail", false) ∷ [])) ↔ (
      (e : Entry) × (es : List Entry) × AllEntries (e ∷ es)
      × ("allow:jobs,deny:mail" ≡ print (e ∷ es))
      × (◌≡◌ {A = Dict Bool} (("jobs", true) ∷ ("mail", false) ∷ []) (collect (e ∷ es) [])))
parse_permissions-print_example =
    parse_permissions-print "allow:jobs,deny:mail" (("jobs", true) ∷ ("mail", false) ∷ [])

-- {"role": "clerk", "actions": {"Ack": "allow:jobs", "CreateQueue": "allow"}}
abbrev actions : Dict Leaf
actions = ("Ack", some "allow:jobs") ∷ ("CreateQueue", some "allow") ∷ []

abbrev unmarshal : String → Option (Dict Value)
unmarshal json = some (("role", text "clerk") ∷ ("actions", object actions) ∷ [])

abbrev in_order : Dict Leaf → Dict Leaf
in_order ms = ms

abbrev backwards : Dict Leaf → Dict Leaf
backwards ms = reverse ms

abbrev clerk : Role
clerk = record {
  name = "clerk";
  get_messages = [];
  submit_message = [];
  submit_batched_messages = [];
  ack = ("jobs", true) ∷ [];
  batch_ack = [];
  admin_permissions = allow_create_queue ∷ [];
  raw_json = "{}";
}

abbrev no_roles : RoleManager
no_roles = record { roles = []; users = [] }

in_order-Visits : Visits in_order actions
unfolding Dict.get
in_order-Visits = record { once = (refl, (refl, tt)); same = λ k. refl }

backwards-Visits : Visits backwards actions
unfolding Dict.get
backwards-Visits = record {
  once = (refl, (refl, tt));
  same = λ k. ground (arith, eq_iff "CreateQueue" k, eq_iff "Ack" k, eq_iff "Ack" "CreateQueue");
}

clerk_created : create_role unmarshal in_order "{}" no_roles ≡ ok clerk
unfolding create_role read_named read_object read_actions read_action read_case parse_permissions
    read_entries split extend read_parts parse_admin_permissions add_permission set_permissions
    Dict.get Dict.put
clerk_created = refl

create_role-has_admin_permission_example :
    has_admin_permission "ann" allow_create_queue (grant_role "ann" clerk no_roles)
    ≡ some (says "allow" (Dict.get actions "CreateQueue"))
unfolding Dict.get
create_role-has_admin_permission_example =
    create_role-has_admin_permission unmarshal in_order "{}" "ann" actions clerk no_roles
      clerk_created refl in_order-Visits refl "CreateQueue" allow_create_queue deny_create_queue
      refl

create_role-has_permission_example :
    has_permission "ann" "jobs" ack_action (grant_role "ann" clerk no_roles)
    ≡ some (allows (Dict.get actions "Ack") "jobs")
unfolding Dict.get
create_role-has_permission_example =
    create_role-has_permission unmarshal in_order "{}" "ann" actions clerk no_roles clerk_created
      refl in_order-Visits refl "Ack" "jobs" ack_action refl

create_role-is_ok_example :
    is_ok (create_role unmarshal in_order "{}" no_roles)
    ≡ is_ok (create_role unmarshal backwards "{}" no_roles)
unfolding Dict.get
create_role-is_ok_example =
    create_role-is_ok unmarshal in_order backwards actions in_order-Visits backwards-Visits "{}"
      no_roles refl

abbrev staffed : RoleManager
staffed = record { roles = []; users = ("ann", root ∷ deny ∷ []) ∷ ("bob", producer ∷ []) ∷ [] }

duties_apart_example :
    (has_permission "bob" "jobs" ack_action staffed ≡ some (permits producing ack_action))
    × (has_admin_permission "bob" allow_create_queue staffed ≡ some (administers producing))
unfolding Dict.get
duties_apart_example =
    duties_apart producing "bob" "CreateQueue" "jobs" ack_action allow_create_queue
      deny_create_queue staffed refl refl
