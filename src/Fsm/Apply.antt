-- ===== src/Fsm/Apply.antt =====
-- applySingle of pkg/fsm/syblineFSM.go, one function per case of its switch. What differs between
-- the runs of one command is an argument: the order of goroutines and of map visits, and the salt.
use sybline.Base.{
  ℕ, suc, String, Bool, true, false, Option, none, some, List, [], ◌∷◌, Bytes, if◌then◌else◌,
}
use sybline.Core.Run.{Run, ok, ◌>>=◌}
use sybline.Core.QueueManager
use sybline.Core.QueueManager.{CoreError, Message}
use sybline.Core.Broker
use sybline.Core.Broker.{Broker}
use sybline.Rbac.Role.{
  AdminPermission, Action, Role, allow_create_queue, allow_delete_queue, allow_create_user,
  allow_delete_user, allow_create_role, allow_assign_role, allow_unassign_role,
  allow_change_password, allow_add_routing_key, allow_delete_routing_key, get_messages_action,
  submit_message_action, submit_batch_action, ack_action, batch_ack_action,
}
use sybline.Rbac.Manager
use sybline.Rbac.Manager.{RoleError, RoleManager, has_admin_permission, has_permission}
use sybline.Auth.Account
use sybline.Auth.Account.{AuthError, AuthManager, Kdf}
use sybline.Fsm.Command
use sybline.Fsm.Command.{
  Op, CommandPayload, QueueInfo, MessageInfo, Messages, Route, RequestMessageData, AckUpdate,
  BatchUpdate, UserCreds, ChangeCredentials, RoleUsername, Decoder, op_of,
}

pub data Error : Type 0 where
  decoding_failed user_without_roles no_permission user_missing role_missing missing_action : Error
  core : CoreError → Error
  joined : List CoreError → Error
  auth : AuthError → Error
  rbac : RoleError → Error

-- `Data interface{}` of a result.
pub data Content : Type 0 where
  no_content : Content
  messages : List Message → Content
  changed : Bool → Content

pub record Result : Type 0 where
  pub content : Content
  pub err : Option Error

-- The queue manager is the one that the broker and the consumer manager share.
pub record State : Type 0 where
  pub broker : Broker
  pub auth : AuthManager
  pub rbac : RoleManager

pub record Env : Type 0 where
  pub key : Kdf
  pub random : Option Bytes
  -- the order in which the deliveries of the n-th message of a command get their locks
  pub schedule : ℕ → List String → List String
  -- the order in which `range` visits the routing map
  pub visit : Broker → List String

abbrev pub Outcome : Type 0
Outcome = Run (Result × State)

abbrev pub result : Option Error → Result
result err = record { content = no_content; err = err }

abbrev pub fail : Error → State → Outcome
fail e s = ok (result (some e), s)

-- `if err := msgpack.Unmarshal(…); err != nil`
unfoldable pub decoded : {A : Type 0} → Option A → State → (A → Outcome) → Outcome
decoded none s f = fail decoding_failed s
decoded (some a) s f = f a

-- The error of a permission check and its answer.
unfoldable pub refusal : Option Bool → Option Error
refusal none = some user_without_roles
refusal (some true) = none
refusal (some false) = some no_permission

unfoldable pub guarded : Option Bool → State → Outcome → Outcome
guarded permitted s act = elim (refusal permitted) [ none ↦ act | some e ↦ fail e s ]

abbrev pub admin : String → AdminPermission → State → Outcome → Outcome
admin username permission s act = guarded (has_admin_permission username permission s.rbac) s act

abbrev pub entity : String → String → Action → State → Outcome → Outcome
entity username name action s act = guarded (has_permission username name action s.rbac) s act

-- The outcome of a method of each component, as the outcome of the command.
abbrev pub core_error : Option CoreError → Result
core_error none = result none
core_error (some e) = result (some (core e))

abbrev pub auth_error : Option AuthError → Option Error
auth_error none = none
auth_error (some e) = some (auth e)

abbrev pub rbac_error : Option RoleError → Result
rbac_error none = result none
rbac_error (some e) = result (some (rbac e))

abbrev pub of_broker : State → Option CoreError × Broker → Result × State
of_broker s (err, b) = (core_error err, record s { broker = b })

abbrev pub of_manager : State → Option CoreError × QueueManager.QueueManager → Result × State
of_manager s (err, m) = (core_error err, record s { broker = record (s.broker) { manager = m } })

abbrev pub of_auth : State → Option AuthError × AuthManager → Result × State
of_auth s (err, a) = (result (auth_error err), record s { auth = a })

abbrev pub of_rbac : State → Option RoleError × RoleManager → Result × State
of_rbac s (err, r) = (rbac_error err, record s { rbac = r })

unfoldable pub create_queue : String → QueueInfo → State → Outcome
create_queue user q s = admin user allow_create_queue s (
    ok (
      of_broker s
        (Broker.create_queue q.name q.routing_key q.size q.retry_limit q.has_dl_queue s.broker)))

unfoldable pub submit_message : Env → String → MessageInfo → State → Outcome
submit_message env user m s =
    entity user m.rk submit_message_action s
      (do r ← Broker.add_message (env.schedule 0) m.rk m.content m.id s.broker; ok (of_broker s r))

-- The loop over the messages that checks the permission for each routing key.
unfoldable pub first_refusal : String → List Messages → RoleManager → Option Error
first_refusal user [] r = none
first_refusal user (m ∷ ms) r = elim (refusal (has_permission user m.rk submit_batch_action r)) [
  | some e ↦ some e
  | none ↦ first_refusal user ms r
]

-- The loop that submits them and collects the errors.
unfoldable pub submit_all : Env → ℕ → List Messages → Broker → Run (List CoreError × Broker)
submit_all env n [] b = ok ([], b)
submit_all env n (m ∷ ms) b = do
  (err, b') ← Broker.batch_add_message (env.schedule n) m.rk m.contents m.ids b
  (errs, c) ← submit_all env (suc n) ms b'
  ok (elim err [ none ↦ errs | some e ↦ e ∷ errs ], c)

-- errors.Join: nil of no errors.
abbrev pub join_errors : List CoreError → Option Error
join_errors [] = none
join_errors (e ∷ es) = some (joined (e ∷ es))

unfoldable pub submit_batch_message : Env → String → List Messages → State → Outcome
submit_batch_message env user ms s = elim (first_refusal user ms s.rbac) [
  | some e ↦ fail e s
  | none ↦ do
    (errs, b) ← submit_all env 0 ms s.broker
    ok (result (join_errors errs), record s { broker = b })
]

unfoldable pub add_routing_key : String → Route → State → Outcome
add_routing_key user r s =
    admin user allow_add_routing_key s
      (ok (of_broker s (Broker.add_route_key r.route_name r.queue_name s.broker)))

unfoldable pub delete_routing_key : String → Route → State → Outcome
delete_routing_key user r s =
    admin user allow_delete_routing_key s
      (do o ← Broker.delete_routing_key r.route_name r.queue_name s.broker; ok (of_broker s o))

unfoldable pub delete_queue : Env → String → String → State → Outcome
delete_queue env user name s =
    admin user allow_delete_queue s
      (ok (of_broker s (Broker.delete_queue (env.visit s.broker) name s.broker)))

unfoldable pub get_messages : String → RequestMessageData → State → Outcome
get_messages user q s = entity user q.queue_name get_messages_action s (do
  ((err, ms), m) ←
      QueueManager.get_messages q.queue_name q.amount q.consumer_id q.time s.broker.manager
  let (r, t) = of_manager s (err, m)
  ok (record r { content = messages ms }, t))

unfoldable pub ack : String → AckUpdate → State → Outcome
ack user u s =
    entity user u.queue_name ack_action s (do
      r ← QueueManager.ack u.queue_name u.consumer_id u.id s.broker.manager
      ok (of_manager s r))

unfoldable pub nack : String → AckUpdate → State → Outcome
nack user u s =
    entity user u.queue_name ack_action s (do
      r ← QueueManager.nack u.queue_name u.consumer_id u.id s.broker.manager
      ok (of_manager s r))

unfoldable pub batch_ack : String → BatchUpdate → State → Outcome
batch_ack user u s = entity user u.queue_name batch_ack_action s (do
  r ← QueueManager.batch_ack u.queue_name u.consumer_id u.ids s.broker.manager
  ok (of_manager s r))

unfoldable pub batch_nack : String → BatchUpdate → State → Outcome
batch_nack user u s = entity user u.queue_name batch_ack_action s (do
  r ← QueueManager.batch_nack u.queue_name u.consumer_id u.ids s.broker.manager
  ok (of_manager s r))

unfoldable pub create_account : Env → String → UserCreds → State → Outcome
create_account env user c s =
    admin user allow_create_user s
      (ok (of_auth s (Account.create_user env.key env.random c.username c.password s.auth)))

unfoldable pub change_password : Env → String → ChangeCredentials → State → Outcome
change_password env user c s = admin user allow_change_password s (
    let ((done, err), a) =
      Account.change_password env.key env.random c.username c.old_password c.new_password s.auth in
    ok (record { content = changed done; err = auth_error err }, record s { auth = a }))

unfoldable pub delete_user : String → String → State → Outcome
delete_user user name s =
    admin user allow_delete_user s (ok (of_auth s (Account.delete_user name s.auth)))

unfoldable pub create_role : String → Role → State → Outcome
create_role user role s =
    admin user allow_create_role s (ok (of_rbac s (Manager.add_role role s.rbac)))

-- ASSIGN_ROLE and UNASSIGN_ROLE refuse unknown users and roles.
unfoldable pub with_known : RoleUsername → State → Outcome → Outcome
with_known r s act =
    if Account.user_exists r.username s.auth.credentials
    then (if Manager.role_exists r.role s.rbac then act else fail role_missing s)
    else fail user_missing s

unfoldable pub assign_role : String → RoleUsername → State → Outcome
assign_role user r s =
    admin user allow_assign_role s
      (with_known r s (ok (of_rbac s (Manager.assign_role r.username r.role s.rbac))))

unfoldable pub unassign_role : String → RoleUsername → State → Outcome
unassign_role user r s =
    admin user allow_unassign_role s
      (with_known r s (ok (of_rbac s (Manager.unassign_role r.username r.role s.rbac))))

module _ (d : Decoder) (env : Env) where
  -- The switch.
  unfoldable pub dispatch : Op → String → Bytes → State → Outcome
  dispatch Command.create_queue user b s = decoded (d.queue_info b) s λ q. create_queue user q s
  dispatch Command.submit_message user b s =
      decoded (d.message_info b) s λ m. submit_message env user m s
  dispatch Command.submit_batch_message user b s =
      decoded (d.batch_messages b) s λ ms. submit_batch_message env user ms s
  dispatch Command.add_routing_key user b s = decoded (d.route b) s λ r. add_routing_key user r s
  dispatch Command.delete_routing_key user b s =
      decoded (d.route b) s λ r. delete_routing_key user r s
  dispatch Command.get_messages user b s = decoded (d.request b) s λ q. get_messages user q s
  dispatch Command.ack user b s = decoded (d.ack_update b) s λ u. ack user u s
  dispatch Command.nack user b s = decoded (d.ack_update b) s λ u. nack user u s
  dispatch Command.delete_queue user b s = decoded (d.name b) s λ n. delete_queue env user n s
  dispatch Command.create_account user b s = decoded (d.creds b) s λ c. create_account env user c s
  dispatch Command.change_password user b s =
      decoded (d.change b) s λ c. change_password env user c s
  dispatch Command.delete_user user b s = decoded (d.name b) s λ n. delete_user user n s
  dispatch Command.batch_ack user b s = decoded (d.batch_update b) s λ u. batch_ack user u s
  dispatch Command.batch_nack user b s = decoded (d.batch_update b) s λ u. batch_nack user u s
  dispatch Command.create_role user b s = decoded (d.role b) s λ r. create_role user r s
  dispatch Command.assign_role user b s = decoded (d.role_username b) s λ r. assign_role user r s
  dispatch Command.unassign_role user b s =
      decoded (d.role_username b) s λ r. unassign_role user r s
  dispatch Command.remove_locks user b s = fail missing_action s
  dispatch Command.unknown user b s = fail missing_action s

  unfoldable pub apply_single : Bytes → State → Outcome
  apply_single entry s =
      decoded (d.payload entry) s λ p. dispatch (op_of p.op) p.username p.content s
