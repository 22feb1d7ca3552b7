-- ===== src/Rpc/Intercept.antt =====
-- pkg/rpc/middleware.go, in the order in which cmd/main.go chains the two interceptors.
use sybline.Base.{ℕ, String, Bool, ◌||◌, Option, none, some, Bytes, inl, inr, str_eq, if◌then◌else◌}
use sybline.Base.Search.{has_prefix}
use sybline.Auth.Session
use sybline.Auth.Account.{AuthManager}
use sybline.Auth.Metadata.{Metadata, get_username_token, get_consumer_id_via_md}
use sybline.Handler.Sending.{Context}
use sybline.Handler.Port.{Step, respond, no_values}
use sybline.Rpc.{Reply, refuse, auth, no_auth_token, not_leader, metadata_not_found}

-- What a call finds: the state of raft, the accounts with their sessions, the clock.
pub record Site : Type 0 where
  pub leader : Bool
  pub manager : AuthManager
  pub token_name : String
  pub now : ℕ

abbrev pub Outcome : Type 0
Outcome = Step Reply × Session.Spawned

abbrev pub values_of : (username : String) → (consumer_id : Bytes) → (token : String) → Context
values_of username consumer_id token = record {
  username = some username;
  consumer_id = some consumer_id;
  token = some token;
}

-- `handler` is the rest of the chain.
unfoldable pub with_session : Site → Metadata → (Context → Step Reply) → Outcome
with_session s md handler =
    let (id, spawned) = get_consumer_id_via_md s.token_name s.now md s.manager in
    elim id [
      | inl e ↦ (respond (refuse no_auth_token), spawned)
      | inr id ↦ elim (get_username_token s.token_name md) [
        | inl e ↦ (respond (refuse (auth e)), spawned)
        | inr (username, token) ↦ (handler (values_of username id token), spawned)
      ]
    ]

unfoldable pub authenticate :
    Site → (full_method : String) → Option Metadata → (Context → Step Reply) → Outcome
authenticate s full_method md handler =
    if has_prefix full_method "/MQ."
    then (if str_eq full_method "/MQ.MQEndpoints/Login"
          || str_eq full_method "/MQ.MQEndpoints/IsLeaderNode"
        then (handler no_values, none)
        else elim md [
          | none ↦ (respond (refuse metadata_not_found), none)
          | some md ↦ with_session s md handler
        ])
    else (handler no_values, none)

unfoldable pub is_leader : Site → (full_method : String) → Outcome → Outcome
is_leader s full_method next =
    if has_prefix full_method "/MQ."
    then (if str_eq full_method "/MQ.MQEndpoints/IsLeaderNode"
        then next
        else (if s.leader then next else (respond (refuse not_leader), none)))
    else next

abbrev pub intercept :
    Site → (full_method : String) → Option Metadata → (Context → Step Reply) → Outcome
intercept s full_method md handler = is_leader s full_method (authenticate s full_method md handler)
