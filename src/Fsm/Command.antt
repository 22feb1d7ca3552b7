-- ===== src/Fsm/Command.antt =====
-- pkg/fsm/operations.go, pkg/fsm/command_payload.go and the payloads of pkg/structs/structs.go. What
-- msgpack reads from the bytes of a payload is a parameter of the machine.
use sybline.Base.{ℕ, String, Bool, Option, none, some, List, [], ◌∷◌, Bytes, get_elem?}
use sybline.Rbac.Role.{Role}

-- `Operation`, a uint32 counted by iota.
abbrev pub Operation : Type 0
Operation = ℕ

pub data Op : Type 0 where
  create_queue delete_queue submit_message add_routing_key delete_routing_key get_messages : Op
  ack nack create_account change_password remove_locks submit_batch_message delete_user : Op
  batch_ack batch_nack create_role assign_role unassign_role unknown : Op

-- The names in the order of iota; `unknown` stands for a number without a name.
abbrev pub operations : List Op
operations =
    create_queue ∷ delete_queue ∷ submit_message ∷ add_routing_key ∷ delete_routing_key
    ∷ get_messages ∷ ack ∷ nack ∷ create_account ∷ change_password ∷ remove_locks
    ∷ submit_batch_message ∷ delete_user ∷ batch_ack ∷ batch_nack ∷ create_role ∷ assign_role
    ∷ unassign_role ∷ []

unfoldable pub op_of : Operation → Op
op_of n = elim (get_elem? operations n) [ some o ↦ o | none ↦ unknown ]

pub record CommandPayload : Type 0 where
  pub username : String
  pub op : Operation
  pub content : Bytes

pub record QueueInfo : Type 0 where
  pub routing_key : String
  pub name : String
  pub size : ℕ
  pub retry_limit : ℕ
  pub has_dl_queue : Bool

pub record MessageInfo : Type 0 where
  pub rk : String
  pub content : Bytes
  pub id : Bytes

pub record Messages : Type 0 where
  pub rk : String
  pub contents : List Bytes
  pub ids : List Bytes

-- AddRoute and DeleteRoute
pub record Route : Type 0 where
  pub queue_name : String
  pub route_name : String

pub record RequestMessageData : Type 0 where
  pub queue_name : String
  pub amount : ℕ
  pub consumer_id : Bytes
  pub time : ℕ

pub record AckUpdate : Type 0 where
  pub queue_name : String
  pub id : Bytes
  pub consumer_id : Bytes

-- BatchAckUpdate and BatchNackUpdate
pub record BatchUpdate : Type 0 where
  pub queue_name : String
  pub ids : List Bytes
  pub consumer_id : Bytes

pub record UserCreds : Type 0 where
  pub username : String
  pub password : String

pub record ChangeCredentials : Type 0 where
  pub username : String
  pub old_password : String
  pub new_password : String

pub record RoleUsername : Type 0 where
  pub role : String
  pub username : String

-- msgpack.Unmarshal into each of the payloads; `none` is an error.
pub record Decoder : Type 0 where
  pub entries : Bytes → Option (List Bytes)
  pub payload : Bytes → Option CommandPayload
  pub queue_info : Bytes → Option QueueInfo
  pub message_info : Bytes → Option MessageInfo
  pub batch_messages : Bytes → Option (List Messages)
  pub route : Bytes → Option Route
  pub request : Bytes → Option RequestMessageData
  pub ack_update : Bytes → Option AckUpdate
  pub batch_update : Bytes → Option BatchUpdate
  -- the one field of DeleteQueueInfo and of UserInformation
  pub name : Bytes → Option String
  pub creds : Bytes → Option UserCreds
  pub change : Bytes → Option ChangeCredentials
  pub role : Bytes → Option Role
  pub role_username : Bytes → Option RoleUsername
