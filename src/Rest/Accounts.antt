-- ===== src/Rest/Accounts.antt =====
-- The routes of createAccounts and createLogin in pkg/rest/v1.go. `locals` are the values that
-- Authentication has left; it leaves strings and bytes alone.
use sybline.Base.{ℕ, String, Bool, Option, none, some, List, Bytes, str_eq, if◌then◌else◌}
use sybline.Auth.Session
use sybline.Auth.Session.{Lookup}
use sybline.Auth.Account
use sybline.Auth.Account.{AuthManager, Kdf}
use sybline.Handler.Sending.{Context}
use sybline.Handler.Request.{Request}
use sybline.Handler.Port.{Step, respond, request}
use sybline.Rest.{
  Reply, no_body, text, logged_in, auth_fault, answer, with_context, with_body, on_error, created,
  ok, accepted, bad_request, unauthorized,
}

pub record AccountCredentials : Type 0 where
  pub username : String
  pub password : String

unfoldable pub create_user : (body : Option AccountCredentials) → Context → Step Reply
create_user body locals = with_context locals λ ctx.
    with_body body
      λ c. request ctx (Request.creates_user c.username c.password) λ a. on_error created a.err

unfoldable pub create_role : (body : Option String) → Context → Step Reply
create_role body locals = with_body body λ role.
    with_context locals λ ctx. request ctx (Request.creates_role role) λ a. on_error created a.err

-- The tests of the two parameters of the path.
unfoldable pub with_names : (username role : String) → Step Reply → Step Reply
with_names username role f =
    if str_eq username ""
    then respond (answer bad_request (text "invalid username length"))
    else if str_eq role ""
    then respond (answer bad_request (text "invalid role length"))
    else f

unfoldable pub assign_role : (username role : String) → Context → Step Reply
assign_role username role locals = with_names username role (
    with_context locals
      λ ctx. request ctx (Request.assigns_role role username) λ a. on_error created a.err)

unfoldable pub unassign_role : (username role : String) → Context → Step Reply
unassign_role username role locals = with_names username role (
    with_context locals
      λ ctx. request ctx (Request.unassigns_role role username) λ a. on_error ok a.err)

-- The user and the token, which createLogin reads from the locals itself.
unfoldable pub with_login :
    {A : Type 0} → Context → (refuse : Reply → A) → (String → String → A) → A
with_login locals refuse f = elim locals.username [
  | none ↦ refuse (answer unauthorized (text "user is not logged in two"))
  | some username ↦ elim locals.token [
    | none ↦ refuse (answer unauthorized (text "user is not logged in two"))
    | some token ↦ f username token
  ]
]

unfoldable pub of_lookup : Lookup × Session.Spawned → Reply × Session.Spawned
of_lookup (Session.found id, spawned) = (answer ok no_body, spawned)
of_lookup (Session.refused e, spawned) =
    (answer unauthorized (text "user is not valid or logged in"), spawned)

-- GET /login
unfoldable pub check_login : (now : ℕ) → Context → AuthManager → Reply × Session.Spawned
check_login now locals a =
    with_login locals (λ r. (r, none))
      λ username token. of_lookup (Account.get_consumer_id now username token a)

-- POST /login: the account manager is asked directly, and an empty name or password is not refused
-- first.
unfoldable pub login :
    Kdf
    → (hash : String → String) → (new_token : String) → (id : Bytes) → (now : ℕ)
    → (body : Option AccountCredentials) → AuthManager
    → Reply × AuthManager
login key hash new_token id now none a = (answer bad_request (text "Bad Request"), a)
login key hash new_token id now (some c) a =
    let (err, b) = Account.login key new_token id now c.username (hash c.password) a in
    elim err [
      | some e ↦ (answer bad_request (text "invalid credentials provided"), b)
      | none ↦ (answer ok (logged_in new_token), b)
    ]

-- POST /logout
unfoldable pub log_out : (answers : List Bool) → Context → AuthManager → Reply × AuthManager
log_out answers locals a =
    with_login locals (λ r. (r, a))
      λ username token.
        let (err, b) = Account.log_out answers username token a in
        elim err [
          | some e ↦ (answer bad_request (auth_fault e), b)
          | none ↦ (answer accepted no_body, b)
        ]
