-- ===== src/Rpc.antt =====
-- pkg/rpc/MQEndpointsServer.go: one function for each method, with the fields of its message.
pub mod Intercept
pub mod Guarded
use sybline.Base.{
  ℕ, String, Bool, true, false, Option, none, some, List, [], ◌∷◌, Bytes, inl, inr, ◌⊎◌, is_none,
  if◌then◌else◌,
}
use sybline.Core.QueueManager.{Message}
use sybline.Auth.Account.{AuthError}
use sybline.Handler.Sending.{Context}
use sybline.Handler.Request
use sybline.Handler.Reply.{Failure, Answer, messages_in}
use sybline.Handler.Port
use sybline.Handler.Port.{Step}

pub data RpcError : Type 0 where
  handler : Failure → RpcError
  auth : AuthError → RpcError
  no_auth_token not_leader metadata_not_found header_not_sent : RpcError

-- A message of the protocol, or nil. `logged_in` is a status of true after the header with the user
-- and the token.
pub data Body : Type 0 where
  no_body : Body
  status : Bool → Body
  collection : List Message → Body
  logged_in : (username token : String) → Body

pub record Reply : Type 0 where
  pub body : Body
  pub err : Option RpcError

abbrev pub refuse : RpcError → Reply
refuse e = record { body = no_body; err = some e }

abbrev pub of_handler : Option Failure → Option RpcError
of_handler none = none
of_handler (some e) = some (handler e)

-- `&Status{Status: err == nil}, err`
unfoldable pub of_error : Option Failure → Reply
of_error err = record { body = status (is_none err); err = of_handler err }

abbrev pub of_answer : Answer → Reply
of_answer a = of_error a.err

unfoldable pub of_messages : Answer → Reply
of_messages a = elim a.err [
  | some e ↦ record { body = collection []; err = some (handler e) }
  | none ↦ record { body = collection (messages_in a.content); err = none }
]

-- `header` tells whether grpc.SendHeader returned no error.
unfoldable pub of_login : (header : Bool) → (username : String) → Failure ⊎ String → Reply
of_login header username (inl e) = record { body = status false; err = some (handler e) }
of_login header username (inr token) =
    if header
    then record { body = logged_in username token; err = none }
    else record { body = status false; err = some header_not_sent }

unfoldable pub of_leader : Failure ⊎ Bool → Reply
of_leader (inl e) = record { body = status false; err = some (handler e) }
of_leader (inr b) = record { body = status b; err = none }

unfoldable pub login : (header : Bool) → (username password : String) → Step Reply
login header username password = Port.login username password (of_login header username)

unfoldable pub is_leader_node : Step Reply
is_leader_node = Port.ask_leader of_leader

module _ (ctx : Context) where
  abbrev asks : Request.Request → Step Reply
  asks q = Port.request ctx q of_answer

  unfoldable pub submit_message : (routing_key : String) → Bytes → Step Reply
  submit_message routing_key content = asks (Request.submits_message routing_key content)

  unfoldable pub get_messages : String → (amount : ℕ) → Step Reply
  get_messages queue amount = Port.request ctx (Request.gets_messages queue amount) of_messages

  unfoldable pub create_queue :
      (routing_key name : String) → (size retry_limit : ℕ) → Bool → Step Reply
  create_queue routing_key name size retry_limit has_dl_queue =
      asks (Request.creates_queue routing_key name size retry_limit has_dl_queue)

  unfoldable pub ack : String → (id : Bytes) → Step Reply
  ack queue id = asks (Request.acks queue id)

  unfoldable pub nack : String → (id : Bytes) → Step Reply
  nack queue id = asks (Request.nacks queue id)

  unfoldable pub change_password : (username old new : String) → Step Reply
  change_password username old new = asks (Request.changes_password username old new)

  unfoldable pub delete_queue : String → Step Reply
  delete_queue queue = asks (Request.deletes_queue queue)

  unfoldable pub add_routing_key : (route_name queue : String) → Step Reply
  add_routing_key route_name queue = asks (Request.adds_routing_key route_name queue)

  unfoldable pub delete_routing_key : (route_name queue : String) → Step Reply
  delete_routing_key route_name queue = asks (Request.deletes_routing_key route_name queue)

  unfoldable pub create_user : (username password : String) → Step Reply
  create_user username password = asks (Request.creates_user username password)

  unfoldable pub submit_batched_messages : List (String × Bytes) → Step Reply
  submit_batched_messages ms = asks (Request.submits_batched_messages ms)

  unfoldable pub delete_user : String → Step Reply
  delete_user username = asks (Request.deletes_user username)

  unfoldable pub batch_ack : String → (ids : List Bytes) → Step Reply
  batch_ack queue ids = asks (Request.batch_acks queue ids)

  unfoldable pub batch_nack : String → (ids : List Bytes) → Step Reply
  batch_nack queue ids = asks (Request.batch_nacks queue ids)

  unfoldable pub log_out : Step Reply
  log_out = Port.log_out ctx of_error

  unfoldable pub create_role : (role : String) → Step Reply
  create_role role = asks (Request.creates_role role)

  unfoldable pub assign_role : (role username : String) → Step Reply
  assign_role role username = asks (Request.assigns_role role username)

  unfoldable pub unassign_role : (role username : String) → Step Reply
  unassign_role role username = asks (Request.unassigns_role role username)
