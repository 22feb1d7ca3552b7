-- ===== src/Handler/Granted.antt =====
-- What the methods of pkg/handler ask of the roles, and what pkg/fsm asks.
use mathlib.Core.Option
use sybline.Base.{
  ◌≡◌, refl, String, Bool, true, false, Option, none, some, List, [], ◌∷◌, Bytes, if◌then◌else◌,
}
use sybline.Rbac.Role.{AdminPermission, Action, ack_action, batch_ack_action}
use sybline.Rbac.Manager
use sybline.Rbac.Manager.{RoleManager, has_admin_permission, has_permission}
use sybline.Auth.Account
use sybline.Fsm.Command
use sybline.Fsm.Command.{Op, CommandPayload, Decoder, Messages, op_of}
use sybline.Fsm.Permission.{Need, admin, each, is_granted, may, may_each, need}
use sybline.Handler.Validation.{HandlerError}
use sybline.Handler.Request
use sybline.Handler.Sending.{
  Payload, Handled, refused, send, Context, Server, valid, from_context, permitted, unless,
}
use sybline.Handler.Request.{group, Request, handle, unassigns_role}

-- The bytes are read as this payload.
abbrev pub Reads : Decoder → Bytes → Payload → Type 0
Reads d b (Payload.queue_info q) = d.queue_info b ≡ some q
Reads d b (Payload.message_info m) = d.message_info b ≡ some m
Reads d b (Payload.batch_messages ms) = d.batch_messages b ≡ some ms
Reads d b (Payload.route r) = d.route b ≡ some r
Reads d b (Payload.request q) = d.request b ≡ some q
Reads d b (Payload.ack_update u) = d.ack_update b ≡ some u
Reads d b (Payload.batch_update u) = d.batch_update b ≡ some u
Reads d b (Payload.name n) = d.name b ≡ some n
Reads d b (Payload.creds c) = d.creds b ≡ some c
Reads d b (Payload.change c) = d.change b ≡ some c
Reads d b (Payload.role r) = d.role b ≡ some r
Reads d b (Payload.role_username r) = d.role_username b ≡ some r

-- What is sent is granted when the state machine reads it.
unfoldable pub Granted : Decoder → RoleManager → Handled → Type 0
Granted d r (refused e) = Unit
Granted d r (send op p user) = (b : Bytes) → Reads d b p → may user r (need d op b) ≡ true

module _ (d : Decoder) (r : RoleManager) where
  pub valid-Granted :
      (o : Option HandlerError) (h : Handled) → Granted d r h → Granted d r (valid o h)
  unfolding valid Granted
  valid-Granted none h g = g
  valid-Granted (some e) h g = tt

  pub context-Granted :
      {A : Type 0} (o : Option A) (f : A → Handled)
      → ((a : A) → Granted d r (f a))
      → Granted d r (from_context o f)
  unfolding from_context Granted
  context-Granted none f g = tt
  context-Granted (some a) f g = g a

  pub permitted-Granted :
      (o : Option Bool) (h : Handled)
      → (is_granted o ≡ true → Granted d r h)
      → Granted d r (permitted o h)
  unfolding permitted Granted
  permitted-Granted none h g = tt
  permitted-Granted (some true) h g = g refl
  permitted-Granted (some false) h g = tt

  if-Granted :
      (b : Bool) (h h' : Handled)
      → Granted d r h
      → Granted d r h'
      → Granted d r (if b then h else h')
  if-Granted true h h' g g' = g
  if-Granted false h h' g g' = g'

  pub one_name :
      (user name : String) (action : Action)
      → is_granted (has_permission user name action r) ≡ true
      → may user r (some (each action (name ∷ []))) ≡ true
  unfolding may may_each
  one_name user name action e = rw e refl

-- Reading a payload makes the table of needs say what it says of it.
read_need :
    {A : Type 0} (d : Decoder) (user : String) (r : RoleManager) (o : Option A) (f : A → Need)
    (a : A)
    → o ≡ some a
    → may user r (some (f a)) ≡ true
    → may user r (Option.map f o) ≡ true
read_need d user r o f a e g = rw e g

module _ (d : Decoder) (s : Server) (ctx : Context) where
  -- The methods that ask for a right of the administrator and send one payload.
  pub admin-Granted :
      (p : AdminPermission) (f : String → Handled)
      → ((user : String) → may user s.rbac (some (admin p)) ≡ true → Granted d s.rbac (f user))
      → Granted d s.rbac (Request.admin s ctx p f)
  unfolding may Request.admin
  admin-Granted p f g =
      context-Granted d s.rbac ctx.username _ λ user. permitted-Granted d s.rbac _ _ (g user)

  refused-Granted : (e : HandlerError) → Granted d s.rbac (refused e)
  unfolding Granted
  refused-Granted e = tt

  pub give_back-Granted :
      (op : Op) (queue : String) (id : Bytes)
      → ((user : String) (consumer : Bytes)
          → may user s.rbac (some (each ack_action (queue ∷ []))) ≡ true
          → Granted d s.rbac (
              send op
                (Payload.ack_update
                  (record { queue_name = queue; id = id; consumer_id = consumer }))
                user))
      → Granted d s.rbac (Request.give_back s ctx op queue id)
  unfolding Request.give_back
  give_back-Granted op queue id g = valid-Granted d s.rbac _ _ (
      if-Granted d s.rbac (s.is_uuid id) _ _
        (context-Granted d s.rbac ctx.username _ λ user.
          context-Granted d s.rbac ctx.consumer_id _ λ consumer.
            permitted-Granted d s.rbac _ _
              λ e. g user consumer (one_name d s.rbac user queue ack_action e))
        (refused-Granted _))

  batch_sent :
      (queue user : String) (ids : List Bytes) (consumer : Bytes)
      → is_granted (has_permission user queue batch_ack_action s.rbac) ≡ true
      → Granted d s.rbac (
          send Command.batch_ack
            (Payload.batch_update
              (record { queue_name = queue; ids = ids; consumer_id = consumer }))
            user)
  unfolding need Granted
  batch_sent queue user ids consumer e b h = rw h (one_name d s.rbac user queue batch_ack_action e)

  pub batch-Granted :
      (queue : String) (ids : List Bytes) → Granted d s.rbac (Request.batch_ack s ctx queue ids)
  unfolding Request.batch_ack
  batch-Granted queue ids = valid-Granted d s.rbac _ _ (
      context-Granted d s.rbac ctx.username _ λ user. permitted-Granted d s.rbac _ _ λ e.
        context-Granted d s.rbac ctx.consumer_id
          (λ consumer.
            send Command.batch_ack
              (Payload.batch_update
                (record { queue_name = queue; ids = ids; consumer_id = consumer }))
              user)
          (λ consumer. batch_sent queue user ids consumer e))

  pub unless-Granted :
      (b : Bool) (e : HandlerError) (h : Handled)
      → Granted d s.rbac h
      → Granted d s.rbac (unless b e h)
  unfolding unless Granted
  unless-Granted true e h g = tt
  unless-Granted false e h g = g

  pub known-Granted :
      (role username : String) (h : Handled)
      → Granted d s.rbac h
      → Granted d s.rbac (Request.with_known s ctx role username h)
  unfolding Request.with_known
  known-Granted role username h g = unless-Granted _ _ _ (
      if-Granted d s.rbac (Account.user_exists username s.accounts) _ _
        (if-Granted d s.rbac (Manager.role_exists role s.rbac) _ _ g (refused-Granted _))
        (refused-Granted _))
