-- ===== src/Handler/Reply.antt =====
-- The rest of pkg/handler/Handler.go: what comes of a command that was sent, and the methods that send
-- none. The encoding by msgpack, the batcher and the clock are arguments.
use sybline.Base.{
  ℕ, String, Bool, Option, none, some, List, [], Bytes, inl, inr, ◌⊎◌, if◌then◌else◌,
}
use sybline.Core.QueueManager.{Message}
use sybline.Auth.Account
use sybline.Auth.Account.{AuthError, AuthManager, Kdf}
use sybline.Fsm.Command.{Op}
use sybline.Fsm.Apply
use sybline.Fsm.Apply.{Content, no_content, messages, Result, changed}
use sybline.Handler.Validation.{
  HandlerError, invalid_username, invalid_password, not_in_context, is_blank,
}
use sybline.Handler.Sending.{Payload, Handled, refused, send, Context, Server}
use sybline.Handler.Request.{Request, handle, gets_messages}

pub data Failure : Type 0 where
  handler : HandlerError → Failure
  fsm : Apply.Error → Failure
  auth : AuthError → Failure
  encoding_failed not_logged unable_to_process raft_not_initialised : Failure

-- What the handler takes from msgpack and from the batcher.
pub record Link : Type 0 where
  pub marshal : Payload → Option Bytes
  pub marshal_command : Op → (content : Bytes) → (username : String) → Option Bytes
  -- `none` is an error of SendLog; the answer of its channel may be nil
  pub send_log : Bytes → Option (Option Result)

-- The data and the error that a method returns.
pub record Answer : Type 0 where
  pub content : Content
  pub err : Option Failure

abbrev pub failed : Failure → Answer
failed e = record { content = no_content; err = some e }

unfoldable pub of_result : Option Result → Answer
of_result none = failed unable_to_process
of_result (some r) = record {
  content = r.content;
  err = elim r.err [ none ↦ none | some e ↦ some (fsm e) ];
}

unfoldable pub send_command : Link → Op → Payload → (username : String) → Answer
send_command l op payload username = elim (l.marshal payload) [
  | none ↦ failed encoding_failed
  | some content ↦ elim (l.marshal_command op content username) [
    | none ↦ failed encoding_failed
    | some entry ↦ elim (l.send_log entry) [
      | none ↦ failed not_logged
      | some answer ↦ of_result answer
    ]
  ]
]

-- A request that the handler refuses sends nothing.
unfoldable pub finish : Link → Handled → Answer
finish l (refused e) = failed (handler e)
finish l (send op payload username) = send_command l op payload username

-- `msgs, _ := res.([]core.Message)`: data of another type is no message.
unfoldable pub messages_in : Content → List Message
messages_in (messages ms) = ms
messages_in no_content = []
messages_in (changed b) = []

-- GetMessages converts the messages; an error comes with none.
unfoldable pub fetched : Answer → Answer
fetched a = elim a.err [
  | some e ↦ record { content = messages []; err = some e }
  | none ↦ record { content = messages (messages_in a.content); err = none }
]

-- The methods other than GetMessages return the error alone.
unfoldable pub reply : Link → Server → Context → Request → Answer
reply l s ctx (gets_messages queue amount) =
    fetched (finish l (handle s ctx (gets_messages queue amount)))
reply l s ctx q = record (finish l (handle s ctx q)) { content = no_content }

unfoldable pub login :
    Kdf
    → (hash : String → String) → (token : String) → (id : Bytes) → (now : ℕ)
    → (username password : String) → AuthManager
    → (Failure ⊎ String) × AuthManager
login key hash token id now username password a =
    if is_blank username
    then (inl (handler invalid_username), a)
    else if is_blank password
    then (inl (handler invalid_password), a)
    else let (err, b) = Account.login key token id now username (hash password) a in
      elim err [ some e ↦ (inl (auth e), b) | none ↦ (inr token, b) ]

unfoldable pub log_out :
    (answers : List Bool) → Context → AuthManager → Option Failure × AuthManager
log_out answers ctx a = elim ctx.username [
  | none ↦ (some (handler not_in_context), a)
  | some username ↦ elim ctx.token [
    | none ↦ (some (handler not_in_context), a)
    | some token ↦
        let (err, b) = Account.log_out answers username token a in
        (elim err [ none ↦ none | some e ↦ some (auth e) ], b)
  ]
]

-- The state of raft, `none` for a nil server.
unfoldable pub is_leader_node : (is_leader : Option Bool) → Failure ⊎ Bool
is_leader_node none = inl raft_not_initialised
is_leader_node (some b) = inr b
