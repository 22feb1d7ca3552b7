-- ===== src/Tests/Doors.antt =====
-- Calls of pkg/rpc and pkg/rest with concrete headers.
use sybline.Base.{
  ◌≡◌, refl, ◌⊎◌, true, false, none, some, [], ◌∷◌, arith, String, Bytes, str_eq, if◌then◌else◌,
}
use sybline.Base.Search.{
  has_prefix, has_suffix, contains, strip, trim_prefix, split_once, parse_uint, parse_digits,
}
use sybline.Base.Words.{add32}
use sybline.Base.Dict
use sybline.Rbac.Role.{scan_admin, scan_permissions}
use sybline.Rbac.Manager.{has_admin_permission}
use sybline.Auth.Session
use sybline.Auth.Session.{find_token}
use sybline.Auth.Account
use sybline.Auth.Metadata.{Metadata, get_username, get_username_token, propagate_session}
use sybline.Fsm.Command
use sybline.Handler.Validation.{validate_username_password}
use sybline.Handler.Sending.{Payload, valid, from_context, permitted}
use sybline.Handler.Request
use sybline.Handler.Request.{Request, handle, admin}
use sybline.Handler.Port.{no_values}
use sybline.Rpc.{delete_queue}
use sybline.Rpc.Intercept
use sybline.Rpc.Intercept.{values_of, intercept}
use sybline.Rpc.Guarded.{Refuses, Admits, intercept-Admits, propagate_session-intercept}
use sybline.Rest.{on_error, created, with_context, with_body}
use sybline.Rest.Middleware
use sybline.Rest.Middleware.{Call, is_exempt, is_leader, with_lookup, authenticate, serve}
use sybline.Rest.Queues.{Uuids}
use sybline.Rest.Accounts
use sybline.Rest.Guarded.{creates_user, creates_role, route, CallsOnly}
use sybline.Rest.Authentic.{Authentic, serve-Authentic}
use sybline.Rest.Sent.{serve-sent}
use sybline.Tests.Accounts.{manager}
use sybline.Tests.Machine.{server}

abbrev leader : Intercept.Site
leader = record { leader = true; manager = manager; token_name = "syb-token"; now = 60 }

-- The header of a call of ann.
abbrev headers : String → Metadata
headers token key = if str_eq key "username" then "ann" ∷ [] else token ∷ []

intercept-Admits_example :
    Refuses
      (intercept leader "/MQ.MQEndpoints/DeleteQueue"
        (some (headers "b"))
        (λ ctx. delete_queue ctx "jobs")).0
    ⊎ (leader.leader ≡ true)
      × Admits leader
          (λ ctx. delete_queue ctx "jobs")
          (intercept leader "/MQ.MQEndpoints/DeleteQueue"
            (some (headers "b"))
            (λ ctx. delete_queue ctx "jobs")).0
unfolding has_prefix
intercept-Admits_example =
    intercept-Admits leader (λ ctx. delete_queue ctx "jobs") "/MQ.MQEndpoints/DeleteQueue"
      (some (headers "b")) refl refl

abbrev invaded : Intercept.Site
invaded = record leader {
  manager = record manager {
    sessions = (propagate_session "c" "ann" (9 ∷ []) 100 manager.sessions).1;
  };
}

propagate_session-intercept_example :
    ((intercept
        (record leader { leader = false })
        "/auth.Session/PropagateSession"
        none
        (λ ctx. delete_queue ctx "any")).0
      ≡ delete_queue no_values "any")
    × ((intercept invaded "/MQ.MQEndpoints/DeleteQueue"
          (some (headers "c"))
          (λ ctx. delete_queue ctx "jobs")).0
        ≡ delete_queue (values_of "ann" (9 ∷ []) "c") "jobs")
unfolding has_prefix find_token get_username_token get_username Dict.get
propagate_session-intercept_example =
    propagate_session-intercept leader "ann" "c" (9 ∷ []) 100 (headers "c")
      "/MQ.MQEndpoints/DeleteQueue" (λ ctx. delete_queue ctx "any") (λ ctx. delete_queue ctx "jobs")
      refl refl (omega arith) refl refl refl

abbrev site : Middleware.Site
site = record {
  leader = true;
  manager = manager;
  now = 60;
  decode = λ s. if str_eq s "YW5uOmI=" then some "ann:b" else none;
}

abbrev post : Call
post = record {
  path = "/api/v1/accounts/roles/create";
  method = "POST";
  authorization = "Basic YW5uOmI=";
}

abbrev uuids : Uuids
uuids = record { from_string = λ s. none; from_bytes = λ b. none }

serve-Authentic_example :
    CallsOnly
      (Authentic site post)
      (serve site post (route uuids (λ s. []) (creates_role (some "{}")))).0
serve-Authentic_example = serve-Authentic site post uuids (λ s. []) (creates_role (some "{}"))

abbrev names_bob : Request
names_bob = Request.creates_user "bob" "right"

-- ann asks for an account of bob.
serve-sent_example :
    (credentials : String) × (token : String) × (id : Bytes) × (site.decode
        (trim_prefix post.authorization "Basic ")
      ≡ some credentials)
    × (split_once ":" credentials ≡ some ("ann", token))
    × ((Account.get_consumer_id site.now "ann" token site.manager).0 ≡ Session.found id)
unfolding route serve is_leader authenticate is_exempt with_lookup with_context with_body
    Account.get_consumer_id Session.get_consumer_id find_token Dict.get contains has_prefix
    has_suffix strip split_once Accounts.create_user handle Request.create_user valid
    validate_username_password admin from_context permitted has_admin_permission scan_admin
    scan_permissions add32
serve-sent_example =
    serve-sent site post uuids (λ s. [])
      (creates_user (some (record { username = "bob"; password = "right" }))) server
      (Middleware.locals_of "ann" (2 ∷ []) "b") names_bob (λ a. on_error created a.err)
      Command.create_account (Payload.creds (record { username = "bob"; password = "right" })) "ann"
      refl refl

-- SplitN leaves later colons in the token.
credentials_split : split_once ":" "ann:b:c" ≡ some ("ann", "b:c")
unfolding split_once
credentials_split = refl

-- A routing key with the name "metrics" is shown to everyone, on any node.
metrics_exempt :
    is_exempt (record { path = "/api/v1/info/routing/metrics"; method = "GET"; authorization = "" })
    ≡ true
unfolding is_exempt contains has_suffix has_prefix
metrics_exempt = refl

amounts : (parse_uint 4294967296 "12" ≡ some 12) × (parse_uint 4294967296 "4294967296" ≡ none)
unfolding parse_uint parse_digits
amounts = (refl, refl)
