-- ===== src/Handler/Authorized.antt =====
-- The commands of pkg/handler and the checks of pkg/fsm.
use mathlib.Core.List.{Permᴰ}
use sybline.Base.{ℕ, ◌≡◌, ◌≢◌, refl, subst, String, true, Option, none, some, List, [], Bytes}
use sybline.Handler.Validation.{role_unreadable}
use sybline.Rbac.Role.{
  Role, allow_create_queue, allow_delete_queue, allow_create_user, allow_delete_user,
  allow_create_role, allow_assign_role, allow_change_password, allow_add_routing_key,
  allow_delete_routing_key, submit_message_action, get_messages_action,
}
use sybline.Fsm.Command
use sybline.Fsm.Command.{Op, CommandPayload, Decoder, op_of}
use sybline.Fsm.Permission.{admin, may, may_each, need, authorized}
use sybline.Handler.Request
use sybline.Handler.Sending.{Payload, refused, send, Context, Server, values}
use sybline.Handler.Request.{Request, handle, unassigns_role}
use sybline.Handler.Granted.{
  Reads, Granted, valid-Granted, context-Granted, permitted-Granted, one_name, admin-Granted,
  give_back-Granted, batch-Granted, known-Granted, unless-Granted,
}
use sybline.Handler.Grouped.{AllMay, AllMay-Perm, group-Granted}

module _ (d : Decoder) (s : Server) (ctx : Context)
    (fair : (ms : List Command.Messages) → Permᴰ (s.visit ms) ms) where
  messages-Granted :
      (ms : List (String × Bytes)) → Granted d s.rbac (Request.submit_batched_messages s ctx ms)
  unfolding Request.submit_batched_messages Granted need may may_each
  messages-Granted ms =
      context-Granted d s.rbac ctx.username _
        λ user. group-Granted d s ctx user _ (sent user) 0 ms [] refl
    where
      sent :
          (user : String) (routes : _)
          → AllMay s.rbac user (values routes)
          → Granted d s.rbac (
              send Command.submit_batch_message
                (Payload.batch_messages (s.visit (values routes)))
                user)
      sent user routes a b h = rw h (AllMay-Perm s.rbac user (fair (values routes)) a)

  role_sent :
      (user : String) (o : Option Role)
      → may user s.rbac (some (admin allow_create_role)) ≡ true
      → Granted d s.rbac (elim o [
        | none ↦ refused role_unreadable
        | some r ↦ send Command.create_role (Payload.role r) user
      ])
  unfolding Granted need
  role_sent user none e = tt
  role_sent user (some r) e = λ b h. rw h e

  handle-Granted :
      (q : Request)
      → ((role username : String) → q ≢ unassigns_role role username)
      → Granted d s.rbac (handle s ctx q)
  unfolding handle Granted need may Request.add_routing_key Request.delete_routing_key
      Request.submit_message Request.get_messages Request.create_queue Request.delete_queue
      Request.ack Request.nack Request.batch_ack Request.batch_nack Request.change_password
      Request.create_user Request.delete_user Request.create_role Request.assign_role
  handle-Granted (Request.adds_routing_key key queue) other =
      valid-Granted d s.rbac _ _
        (admin-Granted d s ctx allow_add_routing_key _ λ user e b h. rw h e)
  handle-Granted (Request.deletes_routing_key key queue) other =
      valid-Granted d s.rbac _ _
        (admin-Granted d s ctx allow_delete_routing_key _ λ user e b h. rw h e)
  handle-Granted (Request.submits_message key content) other = valid-Granted d s.rbac _ _ (
      context-Granted d s.rbac ctx.username _ λ user.
        permitted-Granted d s.rbac _ _
          λ e b h. rw h (one_name d s.rbac user key submit_message_action e))
  handle-Granted (Request.submits_batched_messages ms) other = messages-Granted ms
  handle-Granted (Request.gets_messages queue amount) other = valid-Granted d s.rbac _ _ (
      context-Granted d s.rbac ctx.username _ λ user.
        context-Granted d s.rbac ctx.consumer_id _ λ consumer.
          permitted-Granted d s.rbac _ _
            λ e b h. rw h (one_name d s.rbac user queue get_messages_action e))
  handle-Granted (Request.creates_queue key queue size limit dlq) other =
      valid-Granted d s.rbac _ _ (admin-Granted d s ctx allow_create_queue _ λ user e b h. rw h e)
  handle-Granted (Request.deletes_queue queue) other =
      unless-Granted d s ctx _ _ _ (admin-Granted d s ctx allow_delete_queue _ λ user e b h. rw h e)
  handle-Granted (Request.acks queue id) other =
      give_back-Granted d s ctx Command.ack queue id λ user consumer e b h. rw h e
  handle-Granted (Request.nacks queue id) other =
      give_back-Granted d s ctx Command.nack queue id λ user consumer e b h. rw h e
  handle-Granted (Request.batch_acks queue ids) other = batch-Granted d s ctx queue ids
  handle-Granted (Request.batch_nacks queue ids) other = batch-Granted d s ctx queue ids
  handle-Granted (Request.changes_password username old new) other =
      valid-Granted d s.rbac _ _
        (admin-Granted d s ctx allow_change_password _ λ user e b h. rw h e)
  handle-Granted (Request.creates_user username password) other =
      valid-Granted d s.rbac _ _ (admin-Granted d s ctx allow_create_user _ λ user e b h. rw h e)
  handle-Granted (Request.deletes_user username) other =
      unless-Granted d s ctx _ _ _ (admin-Granted d s ctx allow_delete_user _ λ user e b h. rw h e)
  handle-Granted (Request.creates_role text) other =
      admin-Granted d s ctx allow_create_role _ λ user e. role_sent user (s.read_role text) e
  handle-Granted (Request.assigns_role role username) other =
      known-Granted d s ctx role username _
        (admin-Granted d s ctx allow_assign_role _ λ user e b h. rw h e)
  handle-Granted (Request.unassigns_role role username) other = absurd (other role username refl)

-- Whatever request but UnassignRole makes the handler send a command: if the log entry carries this
-- command, and the state machine's roles are those the handler asked, then the state machine finds
-- the user entitled to it.
pub handle-authorized :
    (d : Decoder) (s : Server) (ctx : Context) (q : Request) (op : Op) (p : Payload) (user : String)
    (entry content : Bytes) (o : ℕ)
    → ((ms : List Command.Messages) → Permᴰ (s.visit ms) ms)
    → ((role username : String) → q ≢ unassigns_role role username)
    → handle s ctx q ≡ send op p user
    → d.payload entry ≡ some (record { username = user; op = o; content = content })
    → op_of o ≡ op
    → Reads d content p
    → authorized d entry s.rbac ≡ true
unfolding authorized Granted
handle-authorized d s ctx q op p user entry content o fair other sent e named reads =
    let granted : Granted d s.rbac (send op p user) =
      subst (Granted d s.rbac) sent (handle-Granted d s ctx fair q other) in
    rw (authorized, e, named) (granted content reads)
