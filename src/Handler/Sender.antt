-- ===== src/Handler/Sender.antt =====
-- In whose name the methods of pkg/handler/Handler.go send their commands.
use sybline.Base.{
  ℕ, suc, ◌≡◌, refl, String, Bool, true, false, Option, none, some, List, [], ◌∷◌, Bytes,
  if◌then◌else◌, Option-cases, inl, inr,
}
use sybline.Base.Dict
use sybline.Base.Dict.{Dict}
use sybline.Rbac.Role.{AdminPermission, Role}
use sybline.Rbac.Manager
use sybline.Auth.Account
use sybline.Fsm.Command
use sybline.Fsm.Command.{Op}
use sybline.Handler.Validation
use sybline.Handler.Validation.{HandlerError}
use sybline.Handler.Sending.{
  Payload, Handled, refused, send, Context, Server, valid, from_context, permitted, unless,
}
use sybline.Handler.Request
use sybline.Handler.Request.{Request, handle, admin, give_back, with_known, group}

module _ (ctx : Context) where
  -- A command that is sent carries the user of the context.
  abbrev pub Names : Handled → Type 0
  Names (refused e) = Unit
  Names (send op payload user) = ctx.username ≡ some user

  valid-Names : (o : Option HandlerError) (f : Handled) → Names f → Names (valid o f)
  unfolding valid
  valid-Names none f h = h
  valid-Names (some e) f h = tt

  context-Names :
      {A : Type 0} (o : Option A) (f : A → Handled)
      → ((a : A) → o ≡ some a → Names (f a))
      → Names (from_context o f)
  unfolding from_context
  context-Names none f h = tt
  context-Names (some a) f h = h a refl

  permitted-Names : (o : Option Bool) (f : Handled) → Names f → Names (permitted o f)
  unfolding permitted
  permitted-Names none f h = tt
  permitted-Names (some true) f h = h
  permitted-Names (some false) f h = tt

  if-Names : (b : Bool) (f g : Handled) → Names f → Names g → Names (if b then f else g)
  if-Names true f g h k = h
  if-Names false f g h k = k

  module _ (s : Server) where
    admin-Names :
        (p : AdminPermission) (f : String → Handled)
        → ((user : String) → ctx.username ≡ some user → Names (f user))
        → Names (admin s ctx p f)
    unfolding admin
    admin-Names p f h = context-Names ctx.username _ λ user e. permitted-Names _ (f user) (h user e)

    unless-Names : (b : Bool) (e : HandlerError) (f : Handled) → Names f → Names (unless b e f)
    unfolding unless
    unless-Names true e f h = tt
    unless-Names false e f h = h

    give_back-Names : (op : Op) (queue : String) (id : Bytes) → Names (give_back s ctx op queue id)
    unfolding give_back
    give_back-Names op queue id = valid-Names _ _ (
        if-Names (s.is_uuid id) _ _
          (context-Names ctx.username _
            λ user e. context-Names ctx.consumer_id _ λ consumer e1. permitted-Names _ _ e)
          tt)

    known-Names :
        (role username : String) (f : Handled) → Names f → Names (with_known s ctx role username f)
    unfolding with_known
    known-Names role username f h = unless-Names _ _ _ (
        if-Names (Account.user_exists username s.accounts)
          (if Manager.role_exists role s.rbac then f else refused Validation.no_such_role)
          (refused Validation.no_such_user)
          (if-Names (Manager.role_exists role s.rbac) f (refused Validation.no_such_role) h tt) tt)

    group-Names :
        (user : String) (f : Dict Command.Messages → Handled)
        → ((routes : Dict Command.Messages) → Names (f routes))
        → (n : ℕ) (ms : List (String × Bytes)) (routes : Dict Command.Messages)
        → Names (group s ctx user n ms routes f)
    unfolding group
    group-Names user f h n [] routes = h routes
    group-Names user f h n ((rk, content) ∷ ms) routes =
        valid-Names _ _ (elim (Option-cases (Dict.get routes rk)) [
          | inl e ↦ rw e (permitted-Names _ _ (group-Names user f h (suc n) ms _))
          | inr (old, e) ↦ rw e (group-Names user f h (suc n) ms _)
        ])

    role-Names :
        (user : String) (o : Option Role)
        → ctx.username ≡ some user
        → Names (elim o [
          | none ↦ refused Validation.role_unreadable
          | some r ↦ send Command.create_role (Payload.role r) user
        ])
    role-Names user none e = tt
    role-Names user (some r) e = e

    pub handle-Names : (q : Request) → Names (handle s ctx q)
    unfolding handle Request.add_routing_key Request.delete_routing_key Request.submit_message
        Request.get_messages Request.create_queue Request.delete_queue Request.ack Request.nack
        Request.batch_ack Request.batch_nack Request.change_password Request.create_user
        Request.delete_user Request.create_role Request.assign_role Request.unassign_role
        Request.submit_batched_messages
    handle-Names (Request.adds_routing_key key queue) =
        valid-Names _ _ (admin-Names _ _ λ user e. e)
    handle-Names (Request.deletes_routing_key key queue) =
        valid-Names _ _ (admin-Names _ _ λ user e. e)
    handle-Names (Request.submits_message key content) =
        valid-Names _ _ (context-Names ctx.username _ λ user e. permitted-Names _ _ e)
    handle-Names (Request.submits_batched_messages ms) =
        context-Names ctx.username _ λ user e. group-Names user _ (λ routes. e) 0 ms []
    handle-Names (Request.gets_messages queue amount) = valid-Names _ _ (
        context-Names ctx.username _
          λ user e. context-Names ctx.consumer_id _ λ consumer e1. permitted-Names _ _ e)
    handle-Names (Request.creates_queue key queue size limit dlq) =
        valid-Names _ _ (admin-Names _ _ λ user e. e)
    handle-Names (Request.deletes_queue queue) = unless-Names _ _ _ (admin-Names _ _ λ user e. e)
    handle-Names (Request.acks queue id) = give_back-Names Command.ack queue id
    handle-Names (Request.nacks queue id) = give_back-Names Command.nack queue id
    handle-Names (Request.batch_acks queue ids) = valid-Names _ _ (
        context-Names ctx.username _
          λ user e. permitted-Names _ _ (context-Names ctx.consumer_id _ λ consumer e1. e))
    handle-Names (Request.batch_nacks queue ids) = valid-Names _ _ (
        context-Names ctx.username _
          λ user e. permitted-Names _ _ (context-Names ctx.consumer_id _ λ consumer e1. e))
    handle-Names (Request.changes_password username old new) =
        valid-Names _ _ (admin-Names _ _ λ user e. e)
    handle-Names (Request.creates_user username password) =
        valid-Names _ _ (admin-Names _ _ λ user e. e)
    handle-Names (Request.deletes_user username) = unless-Names _ _ _ (admin-Names _ _ λ user e. e)
    handle-Names (Request.creates_role text) =
        admin-Names _ _ λ user e. role-Names user (s.read_role text) e
    handle-Names (Request.assigns_role role username) =
        known-Names role username _ (admin-Names _ _ λ user e. e)
    handle-Names (Request.unassigns_role role username) =
        known-Names role username _ (admin-Names _ _ λ user e. e)
