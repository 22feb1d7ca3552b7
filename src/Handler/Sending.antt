-- ===== src/Handler/Sending.antt =====
-- What a method of pkg/handler/Handler.go comes to, and the tests that its methods share.
use sybline.Base.{
  ℕ, String, Bool, true, false, Option, none, some, List, [], ◌∷◌, Bytes, if◌then◌else◌,
}
use sybline.Base.Dict.{Dict}
use sybline.Rbac.Role.{Role}
use sybline.Rbac.Manager.{RoleManager}
use sybline.Auth.Account.{SaltPassword}
use sybline.Fsm.Command.{
  Op, QueueInfo, MessageInfo, Messages, Route, RequestMessageData, AckUpdate, BatchUpdate,
  UserCreds, ChangeCredentials, RoleUsername,
}
use sybline.Handler.Validation.{HandlerError, not_in_context, not_permitted, no_roles}

-- The payload of a command, by its struct.
pub data Payload : Type 0 where
  queue_info : QueueInfo → Payload
  message_info : MessageInfo → Payload
  batch_messages : List Messages → Payload
  route : Route → Payload
  request : RequestMessageData → Payload
  ack_update : AckUpdate → Payload
  batch_update : BatchUpdate → Payload
  name : String → Payload
  creds : UserCreds → Payload
  change : ChangeCredentials → Payload
  role : Role → Payload
  role_username : RoleUsername → Payload

-- The arguments of sendCommand.
pub data Handled : Type 0 where
  refused : HandlerError → Handled
  send : Op → Payload → (username : String) → Handled

-- What getStringFromCtx and getBytesFromCtx find.
pub record Context : Type 0 where
  pub username : Option String
  pub consumer_id : Option Bytes
  pub token : Option String

-- The managers that the handler asks, and what it takes from other packages.
pub record Server : Type 0 where
  pub rbac : RoleManager
  pub accounts : List SaltPassword
  -- auth.GenerateHash with the salt of the server
  pub hash : String → String
  -- uuid.FromBytes reports no error
  pub is_uuid : Bytes → Bool
  -- uuid.New, called for the n-th time within a request
  pub new_id : ℕ → Bytes
  pub now : ℕ
  -- rbacManager.CreateRole
  pub read_role : String → Option Role
  -- the order in which `range` visits the map of a batch
  pub visit : List Messages → List Messages

-- `if err := validate…; err != nil`
unfoldable pub valid : Option HandlerError → Handled → Handled
valid none f = f
valid (some e) f = refused e

unfoldable pub from_context : {A : Type 0} → Option A → (A → Handled) → Handled
from_context none f = refused not_in_context
from_context (some a) f = f a

-- The two tests behind a permission check.
unfoldable pub permitted : Option Bool → Handled → Handled
permitted none f = refused no_roles
permitted (some true) f = f
permitted (some false) f = refused not_permitted

unfoldable pub unless : Bool → HandlerError → Handled → Handled
unless b e f = if b then refused e else f

-- The map of a batch as a slice.
abbrev pub values : Dict Messages → List Messages
values [] = []
values ((rk, m) ∷ routes) = m ∷ values routes
