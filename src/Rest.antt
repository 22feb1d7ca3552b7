-- ===== src/Rest.antt =====
-- pkg/rest: the requests and the answers of the HTTP interface. The router, the reading of a body and
-- base64 are those of other packages: a request comes with what they make of it.
pub mod Middleware
pub mod Queues
pub mod Accounts
pub mod Info
pub mod Guarded
pub mod Authentic
pub mod Sent
use sybline.Base.{ℕ, String, Bool, Option, none, some, List, Bytes}
use sybline.Core.QueueManager.{Message}
use sybline.Rbac.Manager.{RawRole}
use sybline.Auth.Account.{AuthError}
use sybline.Handler.Sending.{Context}
use sybline.Handler.Port.{Step, respond}
use sybline.Handler.Reply.{Failure}

-- The body of an answer. `fault` is the text of an error in a JSON map.
pub data Body : Type 0 where
  no_body body_unreadable context_missing : Body
  text : String → Body
  fault : Failure → Body
  auth_fault : AuthError → Body
  messages : List (String × Bytes) → Body
  names : List String → Body
  routes : List (Option (String × List String)) → Body
  roles : List RawRole → Body
  leader : Bool → Body
  logged_in : String → Body

pub record Reply : Type 0 where
  pub status : ℕ
  pub body : Body

abbrev pub ok : ℕ
ok = 200

abbrev pub created : ℕ
created = 201

abbrev pub accepted : ℕ
accepted = 202

abbrev pub bad_request : ℕ
bad_request = 400

abbrev pub unauthorized : ℕ
unauthorized = 401

abbrev pub server_error : ℕ
server_error = 500

abbrev pub answer : ℕ → Body → Reply
answer status body = record { status = status; body = body }

-- createContextFromFiberContext: a value that is missing is an error. `locals` are the values that
-- Authentication has left in the fiber context.
unfoldable pub with_context : Context → (Context → Step Reply) → Step Reply
with_context locals f = elim locals.consumer_id [
  | none ↦ respond (answer server_error context_missing)
  | some id ↦ elim locals.username [
    | none ↦ respond (answer server_error context_missing)
    | some username ↦ elim locals.token [
      | none ↦ respond (answer server_error context_missing)
      | some token ↦ f locals
    ]
  ]
]

-- `if err := c.BodyParser(&req); err != nil`
unfoldable pub with_body : {A : Type 0} → Option A → (A → Step Reply) → Step Reply
with_body none f = respond (answer bad_request body_unreadable)
with_body (some a) f = f a

-- What follows a call of the handler that returns an error alone.
unfoldable pub on_error : (success : ℕ) → Option Failure → Reply
on_error success none = answer success no_body
on_error success (some e) = answer bad_request (fault e)
