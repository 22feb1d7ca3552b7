-- ===== src/Rest/Sent.antt =====
-- In whose name a request of pkg/rest/v1.go makes pkg/handler/Handler.go send a command.
use sybline.Base.{◌≡◌, sym, ap, subst, ◌∙◌, String, some, Bytes}
use sybline.Base.Search.{trim_prefix, split_once}
use sybline.Auth.Session
use sybline.Auth.Account.{get_consumer_id}
use sybline.Fsm.Command.{Op}
use sybline.Handler.Sending.{Payload, send, Context, Server}
use sybline.Handler.Request.{Request, handle}
use sybline.Handler.Reply.{Answer}
use sybline.Handler.Port.{request}
use sybline.Handler.Sender.{Names, handle-Names}
use sybline.Rest.{Reply}
use sybline.Rest.Middleware.{Site, Call, serve}
use sybline.Rest.Queues.{Uuids}
use sybline.Rest.Guarded.{Route, route, CallsOnly}
use sybline.Rest.Authentic.{Authentic, serve-Authentic}

some_inj : (a b : String) → some a ≡ some b → a ≡ b
some_inj a b e = cc

-- When a request leads to a call of the handler that sends a command, the command carries the user whom
-- the header of the request names, with a token of a session of this user that has not run out.
pub serve-sent :
    (s : Site) (c : Call) (u : Uuids) (bytes : String → Bytes) (r : Route) (server : Server)
    (ctx : Context) (q : Request) (f : Answer → Reply) (op : Op) (payload : Payload) (user : String)
    → (serve s c (route u bytes r)).0 ≡ request ctx q f
    → handle server ctx q ≡ send op payload user
    → (credentials : String) × (token : String) × (id : Bytes) × (s.decode
          (trim_prefix c.authorization "Basic ")
        ≡ some credentials)
      × (split_once ":" credentials ≡ some (user, token))
      × ((get_consumer_id s.now user token s.manager).0 ≡ Session.found id)
serve-sent s c u bytes r server ctx q f op payload user called sent =
    let known : Authentic s c ctx =
      subst (CallsOnly (Authentic s c)) called (serve-Authentic s c u bytes r) in
    let named : ctx.username ≡ some user = subst (Names ctx) sent (handle-Names ctx server q) in
    let (credentials, username, token, id, d, p, g, same) = known in
    let who = some_inj username user (sym (ap (λ (x : Context). x.username) same) ∙ named) in
    (
      credentials,
      token,
      id,
      d,
      p ∙ ap (λ n. some (n, token)) who,
      subst (λ n. (get_consumer_id s.now n token s.manager).0 ≡ Session.found id) who g,
    )
