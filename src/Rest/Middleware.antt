-- ===== src/Rest/Middleware.antt =====
-- pkg/rest/middleware.go.
use sybline.Base.{ℕ, String, Bool, ◌&&◌, ◌||◌, Option, none, some, Bytes, str_eq, if◌then◌else◌}
use sybline.Base.Search.{has_prefix, has_suffix, contains, trim_prefix, split_once}
use sybline.Auth.Session
use sybline.Auth.Session.{Lookup}
use sybline.Auth.Account
use sybline.Auth.Account.{AuthManager}
use sybline.Handler.Sending.{Context}
use sybline.Handler.Port.{Step, respond, no_values}
use sybline.Rest.{Reply, text, answer, unauthorized}

-- What a request finds, with base64.StdEncoding.DecodeString.
pub record Site : Type 0 where
  pub leader : Bool
  pub manager : AuthManager
  pub now : ℕ
  pub decode : String → Option String

-- `authorization` is the header of that name, empty if there is none.
pub record Call : Type 0 where
  pub path : String
  pub method : String
  pub authorization : String

abbrev pub Outcome : Type 0
Outcome = Step Reply × Session.Spawned

abbrev pub deny : String → Outcome
deny message = (respond (answer unauthorized (text message)), none)

abbrev pub locals_of : (username : String) → (consumer_id : Bytes) → (token : String) → Context
locals_of username consumer_id token = record {
  username = some username;
  consumer_id = some consumer_id;
  token = some token;
}

-- `next` is `c.Next()`.
unfoldable pub is_leader : Site → Call → Outcome → Outcome
is_leader s c next =
    if contains c.path "/info" || (contains c.path "/login" || contains c.path "/metrics")
    then next
    else (if s.leader then next else deny "Server is not the leader")

unfoldable pub is_exempt : Call → Bool
is_exempt c =
    has_suffix c.path "/info/isLeader"
    || (has_suffix c.path "/login" && str_eq c.method "POST" || contains c.path "/metrics")

unfoldable pub with_lookup :
    (username token : String) → Lookup × Session.Spawned → (Context → Step Reply) → Outcome
with_lookup username token (Lookup.found id, spawned) next =
    (next (locals_of username id token), spawned)
with_lookup username token (Lookup.refused e, spawned) next =
    (respond (answer unauthorized (text "Unauthorized, no consumer token found")), spawned)

unfoldable pub authenticate : Site → Call → (Context → Step Reply) → Outcome
authenticate s c next =
    if is_exempt c
    then (next no_values, none)
    else if str_eq c.authorization ""
    then deny "Unauthorized"
    else if has_prefix c.authorization "Basic "
    then elim (s.decode (trim_prefix c.authorization "Basic ")) [
      | none ↦ deny "Invalid base64 encoding"
      | some credentials ↦ elim (split_once ":" credentials) [
        | none ↦ deny "Invalid credentials format"
        | some (username, token) ↦
            with_lookup username token (Account.get_consumer_id s.now username token s.manager) next
      ]
    ]
    else deny "Invalid Authorization header"

-- NewRestServer uses the two in this order, then the routes.
unfoldable pub serve : Site → Call → (route : Context → Step Reply) → Outcome
serve s c route = is_leader s c (authenticate s c route)
