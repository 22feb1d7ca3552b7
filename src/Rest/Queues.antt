-- ===== src/Rest/Queues.antt =====
-- The routes of addQueueRouter and addBrokerRouter in pkg/rest/v1.go. The parsing and printing of a
-- UUID are arguments.
use sybline.Base.{
  ℕ, ◌^◌, String, Bool, Option, none, some, List, [], ◌∷◌, Bytes, str_eq, if◌then◌else◌,
}
use sybline.Base.Search.{parse_uint}
use sybline.Core.QueueManager.{Message}
use sybline.Handler.Sending.{Context}
use sybline.Handler.Request.{Request}
use sybline.Handler.Reply.{Answer, messages_in}
use sybline.Handler.Port.{Step, respond, request}
use sybline.Rest.{
  Reply, no_body, text, fault, messages, answer, with_context, with_body, on_error, created, ok,
  accepted, bad_request, server_error,
}

pub record AckRequest : Type 0 where
  pub id : String
  pub queue : String

pub record CreateQueueReq : Type 0 where
  pub routing_key : String
  pub name : String
  pub size : ℕ
  pub retry_limit : ℕ
  pub has_dl_queue : Bool

pub record SubmitPayload : Type 0 where
  pub routing_key : String
  pub content : String

-- uuid.FromString and uuid.FromBytes, the latter with the text of the UUID.
pub record Uuids : Type 0 where
  pub from_string : String → Option Bytes
  pub from_bytes : Bytes → Option String

unfoldable pub create : (body : Option CreateQueueReq) → Context → Step Reply
create body locals = with_body body λ req. with_context locals λ ctx.
    request ctx
      (Request.creates_queue req.routing_key req.name req.size req.retry_limit req.has_dl_queue)
      λ a. on_error created a.err

-- The loop that formats the messages; an id that is no UUID ends it.
unfoldable pub format : Uuids → List Message → Option (List (String × Bytes))
format u [] = some []
format u ((id, content) ∷ ms) =
    let rest = format u ms in
    elim (u.from_bytes id) [
      | none ↦ none
      | some name ↦ elim rest [ none ↦ none | some fs ↦ some ((name, content) ∷ fs) ]
    ]

unfoldable pub formatted : Uuids → Answer → Reply
formatted u a = elim a.err [
  | some e ↦ answer bad_request (fault e)
  | none ↦ elim (format u (messages_in a.content)) [
    | none ↦ answer server_error no_body
    | some fs ↦ answer ok (messages fs)
  ]
]

unfoldable pub fetch : Uuids → (queue amount : String) → Context → Step Reply
fetch u queue amount locals =
    if str_eq queue ""
    then respond (answer bad_request (text "queue parameter is required"))
    else elim (parse_uint (2 ^ 32) amount) [
      | none ↦ respond (answer bad_request (text "Error parsing amount parameter"))
      | some n ↦
          with_context locals λ ctx. request ctx (Request.gets_messages queue n) (formatted u)
    ]

-- The routes of acknowledgement differ in the call alone.
unfoldable pub give_back :
    (String → Bytes → Request) → Uuids → (body : Option AckRequest) → Context → Step Reply
give_back method u body locals = with_body body λ req. with_context locals λ ctx.
    elim (u.from_string req.id) [
      | none ↦ respond (answer server_error no_body)
      | some id ↦ request ctx (method req.queue id) λ a. on_error accepted a.err
    ]

unfoldable pub ack : Uuids → (body : Option AckRequest) → Context → Step Reply
ack = give_back Request.acks

unfoldable pub nack : Uuids → (body : Option AckRequest) → Context → Step Reply
nack = give_back Request.nacks

-- The context comes first, and then the body. `bytes` is the conversion of a string to its bytes.
unfoldable pub submit :
    (bytes : String → Bytes) → (body : Option SubmitPayload) → Context → Step Reply
submit bytes body locals = with_context locals λ ctx. with_body body λ payload.
    request ctx (Request.submits_message payload.routing_key (bytes payload.content))
      λ a. on_error accepted a.err
