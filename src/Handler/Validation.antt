-- ===== src/Handler/Validation.antt =====
-- pkg/handler/validation.go.
use sybline.Base.{
  ℕ, String, Bool, Option, none, some, List, Bytes, length, str_eq, ◌==◌, if◌then◌else◌,
}

-- The error values of validation.go, and the other refusals of Handler.go.
pub data HandlerError : Type 0 where
  invalid_data invalid_routing_key invalid_queue_name invalid_amount invalid_size : HandlerError
  invalid_id invalid_username invalid_old_password invalid_new_password : HandlerError
  invalid_payload no_such_user no_such_role not_in_context not_permitted no_roles : HandlerError
  role_unreadable invalid_password : HandlerError

-- `len(s) == 0`
abbrev pub is_blank : String → Bool
is_blank s = str_eq s ""

unfoldable pub validate_message : Bytes → (routing_key : String) → Option HandlerError
validate_message content routing_key =
    if length content == 0
    then some invalid_data
    else if is_blank routing_key
    then some invalid_routing_key
    else none

unfoldable pub validate_request_messages : String → (amount : ℕ) → Option HandlerError
validate_request_messages queue amount =
    if is_blank queue
    then some invalid_queue_name
    else if amount == 0
    then some invalid_amount
    else none

unfoldable pub validate_create_queue : (routing name : String) → (size : ℕ) → Option HandlerError
validate_create_queue routing name size =
    if is_blank routing
    then some invalid_routing_key
    else if is_blank name
    then some invalid_queue_name
    else if size == 0
    then some invalid_size
    else none

unfoldable pub validate_ack : String → Bytes → Option HandlerError
validate_ack queue id =
    if is_blank queue
    then some invalid_queue_name
    else if length id == 0
    then some invalid_id
    else none

unfoldable pub validate_batch_ack : String → List Bytes → Option HandlerError
validate_batch_ack queue ids =
    if is_blank queue
    then some invalid_queue_name
    else if length ids == 0
    then some invalid_id
    else none

unfoldable pub validate_change_password : (username old new : String) → Option HandlerError
validate_change_password username old new =
    if is_blank username
    then some invalid_username
    else if is_blank old
    then some invalid_old_password
    else if is_blank new
    then some invalid_new_password
    else none

unfoldable pub validate_username_password : (username new : String) → Option HandlerError
validate_username_password username new =
    if is_blank username
    then some invalid_username
    else if is_blank new
    then some invalid_new_password
    else none

unfoldable pub validate_routing_key_change : (queue route : String) → Option HandlerError
validate_routing_key_change queue route =
    if is_blank route
    then some invalid_routing_key
    else if is_blank queue
    then some invalid_queue_name
    else none
