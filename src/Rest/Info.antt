-- ===== src/Rest/Info.antt =====
-- The routes of createInfo in pkg/rest/v1.go.
use sybline.Base.{String, Bool, Option, none, some, List, [], ◌∷◌, str_eq, if◌then◌else◌}
use sybline.Core.QueueManager
use sybline.Core.Broker
use sybline.Core.Broker.{Broker}
use sybline.Rbac.Manager
use sybline.Rbac.Manager.{RoleManager}
use sybline.Auth.Account
use sybline.Auth.Account.{AuthManager}
use sybline.Rest.{Reply, text, names, routes, roles, leader, answer, ok, bad_request}

unfoldable pub routing : Broker → Reply
routing b = answer ok (names (Broker.get_keys b.routing))

-- The status that is set last is 400, with the text of SendString.
unfoldable pub routing_of : (key : String) → Broker → Reply
routing_of key b =
    if str_eq key ""
    then answer bad_request (text "invalid routing key length")
    else elim (Broker.get_queues key b) [
      | none ↦ answer bad_request (text "invalid routing key name, does not exist")
      | some queues ↦ answer ok (names queues)
    ]

unfoldable pub queues : Broker → Reply
queues b = answer ok (names (QueueManager.get_all_queues b.manager.queues))

-- The loop over the keys; the place of a key without queues stays the zero value, `none`.
unfoldable pub mappings : Broker → List String → List (Option (String × List String))
mappings b [] = []
mappings b (key ∷ keys) =
    (elim (Broker.get_queues key b) [ none ↦ none | some queues ↦ some (key, queues) ])
    ∷ mappings b keys

unfoldable pub all : Broker → Reply
all b = answer ok (routes (mappings b (Broker.get_keys b.routing)))

unfoldable pub accounts : AuthManager → Reply
accounts a = answer ok (names (Account.get_accounts a.credentials))

unfoldable pub all_roles : RoleManager → Reply
all_roles m = answer ok (roles (Manager.get_all_roles m))

unfoldable pub roles_of : (username : String) → RoleManager → Reply
roles_of username m =
    if str_eq username ""
    then answer bad_request (text "invalid username length")
    else elim (Manager.get_roles username m) [
      | none ↦ answer bad_request (text "invalid username, may have no roles assigned")
      | some rs ↦ answer ok (roles rs)
    ]

unfoldable pub is_leader : (state : Bool) → Reply
is_leader state = answer ok (leader state)
