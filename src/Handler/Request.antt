-- ===== src/Handler/Request.antt =====
-- The methods of pkg/handler/Handler.go up to sendCommand: a request is refused, or a command goes to
-- the log. The context, the clock, the generator of ids and the reader of roles are arguments.
use sybline.Base.{ℕ, suc, String, Bool, ◌||◌, none, some, List, [], ◌∷◌, ◌++◌, Bytes, if◌then◌else◌}
use sybline.Base.Dict
use sybline.Base.Dict.{Dict}
use sybline.Rbac.Role.{
  AdminPermission, allow_create_queue, allow_delete_queue, allow_create_user, allow_delete_user,
  allow_create_role, allow_assign_role, allow_change_password, allow_add_routing_key,
  allow_delete_routing_key, get_messages_action, submit_message_action, submit_batch_action,
  ack_action, batch_ack_action,
}
use sybline.Rbac.Manager
use sybline.Rbac.Manager.{RoleManager, has_admin_permission, has_permission}
use sybline.Auth.Account
use sybline.Auth.Account.{SaltPassword}
use sybline.Fsm.Command
use sybline.Fsm.Command.{
  Op, QueueInfo, MessageInfo, Messages, Route, RequestMessageData, AckUpdate, BatchUpdate,
  UserCreds, ChangeCredentials, RoleUsername,
}
use sybline.Handler.Validation.{
  invalid_id, invalid_queue_name, invalid_username, invalid_payload, no_such_user, no_such_role,
  role_unreadable, is_blank, validate_message, validate_request_messages, validate_create_queue,
  validate_ack, validate_batch_ack, validate_change_password, validate_username_password,
  validate_routing_key_change,
}
use sybline.Handler.Sending.{
  Handled, refused, send, Context, Server, valid, from_context, permitted, unless, values,
  batch_messages, message_info, route, request, ack_update, batch_update, name, creds, change, role,
  role_username, queue_info,
}

module _ (s : Server) (ctx : Context) where
  unfoldable pub admin : AdminPermission → (String → Handled) → Handled
  admin p f =
      from_context ctx.username λ user. permitted (has_admin_permission user p s.rbac) (f user)

  unfoldable pub add_routing_key : (routing_key queue : String) → Handled
  add_routing_key routing_key queue = valid (validate_routing_key_change queue routing_key) (
      admin allow_add_routing_key λ user.
        send Command.add_routing_key
          (route (record { queue_name = queue; route_name = routing_key })) user)

  unfoldable pub submit_message : String → Bytes → Handled
  submit_message routing_key content = valid (validate_message content routing_key) (
      from_context ctx.username λ user.
        permitted (has_permission user routing_key submit_message_action s.rbac) (
          send Command.submit_message
            (message_info (record { rk = routing_key; content = content; id = s.new_id 0 })) user))

  unfoldable pub get_messages : String → (amount : ℕ) → Handled
  get_messages queue amount = valid (validate_request_messages queue amount) (
      from_context ctx.username λ user. from_context ctx.consumer_id λ consumer.
        permitted (has_permission user queue get_messages_action s.rbac) (
          send Command.get_messages
            (request (record {
              queue_name = queue;
              amount = amount;
              consumer_id = consumer;
              time = s.now;
            }))
            user))

  unfoldable pub create_queue :
      (routing_key name : String) → (size retry_limit : ℕ) → Bool → Handled
  create_queue routing_key queue size retry_limit has_dl_queue =
      valid (validate_create_queue routing_key queue size) (
        admin allow_create_queue λ user.
          send Command.create_queue
            (queue_info (record {
              routing_key = routing_key;
              name = queue;
              size = size;
              retry_limit = retry_limit;
              has_dl_queue = has_dl_queue;
            }))
            user)

  -- Ack and Nack differ in the command alone.
  unfoldable pub give_back : Op → String → Bytes → Handled
  give_back op queue id = valid (validate_ack queue id) (
      if s.is_uuid id
      then (from_context ctx.username λ user. from_context ctx.consumer_id λ consumer.
          permitted (has_permission user queue ack_action s.rbac) (
            send op (ack_update (record { queue_name = queue; id = id; consumer_id = consumer }))
              user))
      else refused invalid_id)

  unfoldable pub ack : String → Bytes → Handled
  ack queue id = give_back Command.ack queue id

  unfoldable pub nack : String → Bytes → Handled
  nack queue id = give_back Command.nack queue id

  -- The name in the request is tested and then overwritten by the name in the context.
  unfoldable pub change_password : (username old new : String) → Handled
  change_password username old new = valid (validate_change_password username old new) (
      admin allow_change_password λ user.
        send Command.change_password
          (change
            (record { username = user; old_password = s.hash old; new_password = s.hash new }))
          user)

  unfoldable pub delete_queue : String → Handled
  delete_queue queue =
      unless (is_blank queue) invalid_queue_name
        (admin allow_delete_queue λ user. send Command.delete_queue (name queue) user)

  unfoldable pub delete_routing_key : (routing_key queue : String) → Handled
  delete_routing_key routing_key queue = valid (validate_routing_key_change queue routing_key) (
      admin allow_delete_routing_key λ user.
        send Command.delete_routing_key
          (route (record { queue_name = queue; route_name = routing_key })) user)

  unfoldable pub create_user : (username password : String) → Handled
  create_user username password = valid (validate_username_password username password) (
      admin allow_create_user λ user.
        send Command.create_account
          (creds (record { username = username; password = s.hash password })) user)

  unfoldable pub delete_user : String → Handled
  delete_user username =
      unless (is_blank username) invalid_username
        (admin allow_delete_user λ user. send Command.delete_user (name username) user)

  -- BatchAck and BatchNack: both send BATCH_ACK.
  unfoldable pub batch_ack : String → List Bytes → Handled
  batch_ack queue ids = valid (validate_batch_ack queue ids) (
      from_context ctx.username λ user.
        permitted (has_permission user queue batch_ack_action s.rbac) (
          from_context ctx.consumer_id λ consumer.
            send Command.batch_ack
              (batch_update (record { queue_name = queue; ids = ids; consumer_id = consumer }))
              user))

  unfoldable pub batch_nack : String → List Bytes → Handled
  batch_nack queue ids = valid (validate_batch_ack queue ids) (
      from_context ctx.username λ user.
        permitted (has_permission user queue batch_ack_action s.rbac) (
          from_context ctx.consumer_id λ consumer.
            send Command.batch_ack
              (batch_update (record { queue_name = queue; ids = ids; consumer_id = consumer }))
              user))

  unfoldable pub create_role : String → Handled
  create_role text = admin allow_create_role λ user. elim (s.read_role text) [
    | none ↦ refused role_unreadable
    | some r ↦ send Command.create_role (role r) user
  ]

  -- AssignRole and UnassignRole test the payload, the user and the role in this order.
  unfoldable pub with_known : (role username : String) → Handled → Handled
  with_known role_name username f =
      unless (is_blank role_name || is_blank username) invalid_payload (
        if Account.user_exists username s.accounts
        then (if Manager.role_exists role_name s.rbac then f else refused no_such_role)
        else refused no_such_user)

  unfoldable pub assign_role : (role username : String) → Handled
  assign_role role_name username = with_known role_name username (
      admin allow_assign_role λ user.
        send Command.assign_role (role_username (record { role = role_name; username = username }))
          user)

  -- The permission is the one to assign roles.
  unfoldable pub unassign_role : (role username : String) → Handled
  unassign_role role_name username = with_known role_name username (
      admin allow_assign_role λ user.
        send Command.unassign_role
          (role_username (record { role = role_name; username = username })) user)

  -- The loop of SubmitBatchedMessages over the messages of a request: a key is checked when it is
  -- first seen. `routes` is the map, with its keys in the order of their insertion.
  unfoldable pub group :
      (user : String)
      → ℕ
      → List (String × Bytes)
      → Dict Messages
      → (Dict Messages → Handled)
      → Handled
  group user n [] routes f = f routes
  group user n ((rk, content) ∷ ms) routes f =
      let seen = λ (old : Messages). Dict.put routes rk (record old {
        contents = old.contents ++ content ∷ [];
        ids = old.ids ++ s.new_id n ∷ [];
      }) in
      let first : Messages = record { rk = rk; contents = content ∷ []; ids = s.new_id n ∷ [] } in
      valid (validate_message content rk) (elim (Dict.get routes rk) [
        | some old ↦ group user (suc n) ms (seen old) f
        | none ↦
            permitted (has_permission user rk submit_batch_action s.rbac)
              (group user (suc n) ms (Dict.put routes rk first) f)
      ])

  unfoldable pub submit_batched_messages : List (String × Bytes) → Handled
  submit_batched_messages ms = from_context ctx.username λ user.
      group user 0 ms []
        λ routes. send Command.submit_batch_message (batch_messages (s.visit (values routes))) user

-- One constructor for each method that may send a command.
pub data Request : Type 0 where
  adds_routing_key deletes_routing_key : (routing_key queue : String) → Request
  submits_message : String → Bytes → Request
  submits_batched_messages : List (String × Bytes) → Request
  gets_messages : String → ℕ → Request
  creates_queue : (routing_key name : String) → (size retry_limit : ℕ) → Bool → Request
  deletes_queue : String → Request
  acks nacks : String → Bytes → Request
  batch_acks batch_nacks : String → List Bytes → Request
  changes_password : (username old new : String) → Request
  creates_user : (username password : String) → Request
  deletes_user : String → Request
  creates_role : String → Request
  assigns_role unassigns_role : (role username : String) → Request

unfoldable pub handle : Server → Context → Request → Handled
handle s c (adds_routing_key key queue) = add_routing_key s c key queue
handle s c (deletes_routing_key key queue) = delete_routing_key s c key queue
handle s c (submits_message key content) = submit_message s c key content
handle s c (submits_batched_messages ms) = submit_batched_messages s c ms
handle s c (gets_messages queue amount) = get_messages s c queue amount
handle s c (creates_queue key queue size limit dlq) = create_queue s c key queue size limit dlq
handle s c (deletes_queue queue) = delete_queue s c queue
handle s c (acks queue id) = ack s c queue id
handle s c (nacks queue id) = nack s c queue id
handle s c (batch_acks queue ids) = batch_ack s c queue ids
handle s c (batch_nacks queue ids) = batch_nack s c queue ids
handle s c (changes_password username old new) = change_password s c username old new
handle s c (creates_user username password) = create_user s c username password
handle s c (deletes_user username) = delete_user s c username
handle s c (creates_role text) = create_role s c text
handle s c (assigns_role role_name username) = assign_role s c role_name username
handle s c (unassigns_role role_name username) = unassign_role s c role_name username
