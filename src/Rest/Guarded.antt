-- ===== src/Rest/Guarded.antt =====
-- The routes of pkg/rest/v1.go that call the handler, behind pkg/rest/middleware.go.
use sybline.Base.{
  ◌^◌, ◌≡◌, refl, inl, inr, String, Bool, true, false, Option, none, some, Bytes, str_eq,
  if◌then◌else◌, Option-cases,
}
use sybline.Base.Search.{parse_uint}
use sybline.Handler.Sending.{Context}
use sybline.Handler.Request.{Request}
use sybline.Handler.Reply.{Answer}
use sybline.Handler.Port
use sybline.Handler.Port.{Step, respond, request, no_values}
use sybline.Rest.{Reply, with_context, with_body}
use sybline.Rest.Queues
use sybline.Rest.Queues.{Uuids, AckRequest, CreateQueueReq, SubmitPayload}
use sybline.Rest.Accounts
use sybline.Rest.Accounts.{AccountCredentials, with_names}

pub data Route : Type 0 where
  creates_queue : Option CreateQueueReq → Route
  fetches : (queue amount : String) → Route
  acks nacks : Option AckRequest → Route
  submits : Option SubmitPayload → Route
  creates_user : Option AccountCredentials → Route
  creates_role : Option String → Route
  assigns_role unassigns_role : (username role : String) → Route

unfoldable pub route : Uuids → (bytes : String → Bytes) → Route → Context → Step Reply
route u bytes (creates_queue body) = Queues.create body
route u bytes (fetches queue amount) = Queues.fetch u queue amount
route u bytes (acks body) = Queues.ack u body
route u bytes (nacks body) = Queues.nack u body
route u bytes (submits body) = Queues.submit bytes body
route u bytes (creates_user body) = Accounts.create_user body
route u bytes (creates_role body) = Accounts.create_role body
route u bytes (assigns_role username role) = Accounts.assign_role username role
route u bytes (unassigns_role username role) = Accounts.unassign_role username role

-- The step calls the handler with a request in such a context, or not at all.
abbrev pub CallsOnly : (Context → Type 0) → Step Reply → Type 0
CallsOnly P (respond r) = Unit
CallsOnly P (request ctx q f) = P ctx
CallsOnly P (Port.login username password f) = ⊥
CallsOnly P (Port.log_out ctx f) = ⊥
CallsOnly P (Port.ask_leader f) = ⊥

pub CallsOnly-map :
    (P Q : Context → Type 0) (step : Step Reply)
    → ((ctx : Context) → P ctx → Q ctx)
    → CallsOnly P step
    → CallsOnly Q step
CallsOnly-map P Q (respond r) f h = tt
CallsOnly-map P Q (request ctx q g) f h = f ctx h
CallsOnly-map P Q (Port.login username password _) f h = absurd h
CallsOnly-map P Q (Port.log_out _ _) f h = absurd h
CallsOnly-map P Q (Port.ask_leader _) f h = absurd h

abbrev HasAll : Context → Type 0
HasAll c =
    (username : String) × (token : String) × (id : Bytes) × (c.username ≡ some username)
    × (c.token ≡ some token)
    × (c.consumer_id ≡ some id)

-- The context holds all the values of the locals.
abbrev pub Whole : Context → Context → Type 0
Whole locals ctx = HasAll locals × (ctx ≡ locals)

abbrev values : (username token : Option String) → Option Bytes → Context
values username token id = record { username = username; consumer_id = id; token = token }

values-CallsOnly :
    (f : Context → Step Reply) (username token : Option String) (id : Option Bytes)
    → (HasAll (values username token id)
        → CallsOnly (Whole (values username token id)) (f (values username token id)))
    → CallsOnly (Whole (values username token id)) (with_context (values username token id) f)
unfolding with_context
values-CallsOnly f u t none h = tt
values-CallsOnly f none t (some id) h = tt
values-CallsOnly f (some u) none (some id) h = tt
values-CallsOnly f (some u) (some t) (some id) h = h (u, t, id, refl, refl, refl)

module _ (locals : Context) where
  context-CallsOnly :
      (f : Context → Step Reply)
      → (HasAll locals → CallsOnly (Whole locals) (f locals))
      → CallsOnly (Whole locals) (with_context locals f)
  context-CallsOnly f h = values-CallsOnly f locals.username locals.token locals.consumer_id h

  asks :
      (q : Request) (g : Answer → Reply)
      → HasAll locals
      → CallsOnly (Whole locals) (request locals q g)
  asks q g a = (a, refl)

  body-CallsOnly :
      {A : Type 0} (o : Option A) (f : A → Step Reply)
      → ((x : A) → CallsOnly (Whole locals) (f x))
      → CallsOnly (Whole locals) (with_body o f)
  unfolding with_body
  body-CallsOnly none f h = tt
  body-CallsOnly (some x) f h = h x

  if-CallsOnly :
      (b : Bool) (x y : Step Reply)
      → CallsOnly (Whole locals) x
      → CallsOnly (Whole locals) y
      → CallsOnly (Whole locals) (if b then x else y)
  if-CallsOnly true x y h k = h
  if-CallsOnly false x y h k = k

  names-CallsOnly :
      (username role : String) (f : Step Reply)
      → CallsOnly (Whole locals) f
      → CallsOnly (Whole locals) (with_names username role f)
  unfolding with_names
  names-CallsOnly username role f h =
      if-CallsOnly (str_eq username "") _ _ tt (if-CallsOnly (str_eq role "") _ _ tt h)

  given_back :
      (method : String → Bytes → Request) (u : Uuids) (body : Option AckRequest)
      → CallsOnly (Whole locals) (Queues.give_back method u body locals)
  unfolding Queues.give_back
  given_back method u body = body-CallsOnly body _ λ req. context-CallsOnly _ λ all.
      elim (Option-cases (u.from_string req.id)) [
        | inl e ↦ rw e tt
        | inr (id, e) ↦ rw e (all, refl)
      ]

  fetched :
      (u : Uuids) (queue amount : String)
      → CallsOnly (Whole locals) (Queues.fetch u queue amount locals)
  unfolding Queues.fetch
  fetched u queue amount =
      if-CallsOnly (str_eq queue "") _ _ tt (elim (Option-cases (parse_uint (2 ^ 32) amount)) [
        | inl e ↦ rw e tt
        | inr (n, e) ↦ rw e (context-CallsOnly _ λ all. (all, refl))
      ])

  pub route-CallsOnly :
      (u : Uuids) (bytes : String → Bytes) (r : Route)
      → CallsOnly (Whole locals) (route u bytes r locals)
  unfolding route Queues.create Queues.ack Queues.nack Queues.submit Accounts.create_user
      Accounts.create_role Accounts.assign_role Accounts.unassign_role
  route-CallsOnly u bytes (creates_queue body) =
      body-CallsOnly body _ λ req. context-CallsOnly _ λ all. (all, refl)
  route-CallsOnly u bytes (fetches queue amount) = fetched u queue amount
  route-CallsOnly u bytes (acks body) = given_back Request.acks u body
  route-CallsOnly u bytes (nacks body) = given_back Request.nacks u body
  route-CallsOnly u bytes (submits body) =
      context-CallsOnly _ λ all. body-CallsOnly body _ λ payload. (all, refl)
  route-CallsOnly u bytes (creates_user body) =
      context-CallsOnly _ λ all. body-CallsOnly body _ λ c. (all, refl)
  route-CallsOnly u bytes (creates_role body) =
      body-CallsOnly body _ λ role. context-CallsOnly _ λ all. (all, refl)
  route-CallsOnly u bytes (assigns_role username role) =
      names-CallsOnly username role _ (context-CallsOnly _ λ all. (all, refl))
  route-CallsOnly u bytes (unassigns_role username role) =
      names-CallsOnly username role _ (context-CallsOnly _ λ all. (all, refl))
