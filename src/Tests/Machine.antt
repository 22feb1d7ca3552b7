-- ===== src/Tests/Machine.antt =====
-- Commands of pkg/fsm.
use sybline.Base.{
  ap, Bool, true, false, arith, zero, suc, ◌≡◌, refl, String, List, Option, none, some, [], ◌∷◌,
  Bytes,
}
use sybline.Base.Dict
use sybline.Base.Words.{add32}
use sybline.Core.QueueManager.{new_queue_manager}
use sybline.Core.Broker.{new_broker}
use sybline.Rbac.Role.{
  Role, allow_create_user, scan_admin, scan_permissions, scan_roles, verdict, permissions_for,
}
use sybline.Rbac.Manager.{has_admin_permission, has_permission}
use sybline.Auth.Account
use sybline.Auth.Account.{AuthManager, credential, get_user_credentials}
use sybline.Auth.Account.Unique.{IsAccounts}
use sybline.Fsm.Command.{Messages, CommandPayload, Decoder, op_of}
use sybline.Fsm.Apply.{
  Error, Env, State, fail, decoded, refusal, guarded, result, dispatch, apply_single,
  create_account,
}
use mathlib.Core.List.Permᴰ
use sybline.Fsm.Command
use sybline.Handler.Validation.{validate_username_password, validate_message}
use sybline.Handler.Sending.{Payload, Context, Server, valid, from_context, permitted}
use sybline.Handler.Request.{Request, handle, create_user, admin, group, submit_batched_messages}
use sybline.Handler.Batches.{Batches, submit_batched_messages-Batches}
use sybline.Handler.Authorized.{handle-authorized}
use sybline.Fsm.Log.{results, apply_entries, apply}
use sybline.Fsm.Permission.{authorized, may, need, apply_single-unauthorized}
use sybline.Fsm.Accounts.{apply-IsAccounts}
use sybline.Tests.Accounts

-- Every record is one command: ann, or eve if its first byte is 0, creates the account of bob.
abbrev command : String → CommandPayload
command username = record { username = username; op = 8; content = [] }

abbrev decoder : Decoder
decoder = record {
  entries = λ b. some (b ∷ []);
  payload = λ b. if_one b;
  queue_info = λ b. none;
  message_info = λ b. none;
  batch_messages = λ b. none;
  route = λ b. none;
  request = λ b. none;
  ack_update = λ b. none;
  batch_update = λ b. none;
  name = λ b. none;
  creds = λ b. some (record { username = "bob"; password = "right" });
  change = λ b. none;
  role = λ b. none;
  role_username = λ b. none;
}
  where
    if_one : Bytes → Option CommandPayload
    if_one [] = none
    if_one (zero ∷ b) = some (command "eve")
    if_one (suc n ∷ b) = some (command "ann")

abbrev admin_role : Role
admin_role = record {
  name = "admin";
  get_messages = [];
  submit_message = [];
  submit_batched_messages = [];
  ack = [];
  batch_ack = [];
  admin_permissions = allow_create_user ∷ [];
  raw_json = "";
}

abbrev start : State
start = record {
  broker = new_broker (new_queue_manager 100);
  auth = Accounts.manager;
  rbac = record {
    roles = ("admin", admin_role) ∷ [];
    users = ("ann", admin_role ∷ []) ∷ ("eve", []) ∷ [];
  };
}

abbrev env : Env
env = record {
  key = Accounts.key;
  random = some (6 ∷ []);
  schedule = λ n names. names;
  visit = λ b. [];
}

apply_single-unauthorized_example :
    (e : Error) × (apply_single decoder env (0 ∷ []) start ≡ fail e start)
unfolding authorized op_of need may has_admin_permission Dict.get scan_admin
apply_single-unauthorized_example = apply_single-unauthorized decoder env (0 ∷ []) start refl

-- The state after ann's command.
abbrev later : State
later = record start {
  auth = record (start.auth) {
    credentials =
        credential "ann" (5 ∷ []) (1 ∷ 5 ∷ []) ∷ credential "bob" (6 ∷ []) (1 ∷ 6 ∷ []) ∷ [];
  };
}

apply-IsAccounts_example : IsAccounts later.auth.credentials
unfolding apply apply_entries apply_single decoded op_of dispatch create_account guarded refusal
    has_admin_permission Dict.get scan_admin scan_permissions add32 Account.create_user
    get_user_credentials
apply-IsAccounts_example =
    apply-IsAccounts decoder (λ i. env) false (1 ∷ []) start (results (result none ∷ [])) later
      Accounts.manager-IsAccounts refl

-- A server with the same accounts and roles; ann asks to create the account of bob.
abbrev pub server : Server
server = record {
  rbac = start.rbac;
  accounts = start.auth.credentials;
  hash = λ password. password;
  is_uuid = λ id. true;
  new_id = λ n. n ∷ [];
  now = 40;
  read_role = λ text. none;
  visit = λ ms. ms;
}

abbrev ann : Context
ann = record { username = some "ann"; consumer_id = none; token = none }

abbrev is_creation : Request → Bool
is_creation (Request.creates_user username password) = true
is_creation q = false

handle-authorized_example : authorized decoder (1 ∷ []) server.rbac ≡ true
unfolding handle create_user valid validate_username_password admin from_context permitted op_of
    has_admin_permission Dict.get scan_admin scan_permissions add32
handle-authorized_example =
    handle-authorized decoder server ann (Request.creates_user "bob" "right") Command.create_account
      (Payload.creds (record { username = "bob"; password = "right" })) "ann" (1 ∷ []) [] 8
      (λ ms. Permᴰ.refl ms)
      (λ role username e. absurd (let differ = ap is_creation e in ground arith)) refl refl refl
      refl

-- A user who may submit batches under every key, and three messages under two keys.
abbrev producer_role : Role
producer_role = record {
  name = "producer";
  get_messages = [];
  submit_message = [];
  submit_batched_messages = ("*", true) ∷ [];
  ack = [];
  batch_ack = [];
  admin_permissions = [];
  raw_json = "";
}

abbrev producers : Server
producers = record server { rbac = record { roles = []; users = ("ann", producer_role ∷ []) ∷ [] } }

abbrev three : List (String × Bytes)
three = ("a", 1 ∷ []) ∷ ("b", 2 ∷ []) ∷ ("a", 3 ∷ []) ∷ []

abbrev grouped : List Messages
grouped =
    record { rk = "a"; contents = (1 ∷ []) ∷ (3 ∷ []) ∷ []; ids = (0 ∷ []) ∷ (2 ∷ []) ∷ [] }
    ∷ record { rk = "b"; contents = (2 ∷ []) ∷ []; ids = (1 ∷ []) ∷ [] }
    ∷ []

submit_batched_messages-Batches_example :
    (sent : List Messages) × (Payload.batch_messages grouped ≡ Payload.batch_messages sent)
    × Batches three sent
unfolding submit_batched_messages from_context group valid validate_message permitted has_permission
    Dict.get Dict.put scan_roles verdict permissions_for
submit_batched_messages-Batches_example =
    submit_batched_messages-Batches producers ann three Command.submit_batch_message
      (Payload.batch_messages grouped) "ann" (λ ms. Permᴰ.refl ms) refl
