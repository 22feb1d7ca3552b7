-- ===== src/Rpc/Guarded.antt =====
-- Which gRPC calls reach the handler past the interceptors of pkg/rpc/middleware.go, and the session
-- service of pkg/auth/sessionServer.go beside them.
use sybline.Base.{
  ℕ, ◌<◌, ◌≡◌, refl, ap, ◌∙◌, inl, inr, ◌⊎◌, String, Bool, true, false, ◌||◌, Option, none, some,
  Bytes, ltb, str_eq, arith, Bool-cases, Option-cases,
}
use sybline.Base.Dict
use sybline.Base.Search.{has_prefix}
use sybline.Auth.Session.{Lookup, found, refused}
use sybline.Auth.Session.Tokens.{Fresh, sessions_of, get_consumer_id-add_token}
use sybline.Auth.Account.{AuthError, get_consumer_id}
use sybline.Auth.Metadata.{Metadata, get_username_token, get_consumer_id_via_md, propagate_session}
use sybline.Handler.Sending.{Context}
use sybline.Handler.Port.{Step, respond, no_values}
use sybline.Rpc.{Reply, RpcError, refuse, no_auth_token, not_leader, metadata_not_found}
use sybline.Rpc.Intercept.{
  Site, values_of, with_session, authenticate, is_leader, intercept, Outcome,
}

-- The methods of the service that need no session.
abbrev pub is_open : (full_method : String) → Bool
is_open full_method =
    str_eq full_method "/MQ.MQEndpoints/Login" || str_eq full_method "/MQ.MQEndpoints/IsLeaderNode"

abbrev pub Refuses : Step Reply → Type 0
Refuses step = (e : RpcError) × (step ≡ respond (refuse e))

-- The handler runs with the values of a session that the user has.
abbrev pub Admits : Site → (Context → Step Reply) → Step Reply → Type 0
Admits s handler step =
    (username : String) × (token : String) × (id : Bytes) × ((get_consumer_id s.now username token
        s.manager).0
      ≡ found id)
    × (step ≡ handler (values_of username id token))

or-false-right : (a b : Bool) → (a || b) ≡ false → b ≡ false
or-false-right false b e = e
or-false-right true b e = absurd (cc)

module _ (s : Site) (handler : Context → Step Reply) where
  with_session-found :
      (md : Metadata) (username token : String) (id : Bytes)
      → get_username_token s.token_name md ≡ inr (username, token)
      → (get_consumer_id s.now username token s.manager).0 ≡ found id
      → (with_session s md handler).0 ≡ handler (values_of username id token)
  unfolding with_session get_consumer_id_via_md
  with_session-found md username token id e f =
      rw (with_session, get_consumer_id_via_md, e, f, e) refl

  looked_up :
      (md : Metadata) (username token : String) (l : Lookup)
      → get_username_token s.token_name md ≡ inr (username, token)
      → (get_consumer_id s.now username token s.manager).0 ≡ l
      → Refuses (with_session s md handler).0 ⊎ Admits s handler (with_session s md handler).0
  unfolding with_session get_consumer_id_via_md
  looked_up md username token (refused r) e f =
      inl (no_auth_token, rw (with_session, get_consumer_id_via_md, e, f) refl)
  looked_up md username token (found id) e f =
      inr (username, token, id, f, with_session-found md username token id e f)

  named :
      (md : Metadata) (o : AuthError ⊎ String × String)
      → get_username_token s.token_name md ≡ o
      → Refuses (with_session s md handler).0 ⊎ Admits s handler (with_session s md handler).0
  unfolding with_session get_consumer_id_via_md
  named md (inl err) e = inl (no_auth_token, rw (with_session, get_consumer_id_via_md, e) refl)
  named md (inr (username, token)) e =
      looked_up md username token (get_consumer_id s.now username token s.manager).0 e refl

  on_leader :
      (full_method : String) (md : Metadata)
      → has_prefix full_method "/MQ." ≡ true
      → is_open full_method ≡ false
      → s.leader ≡ true
      → intercept s full_method (some md) handler ≡ with_session s md handler
  unfolding is_leader authenticate
  on_leader full_method md mq closed lead =
      let asks =
        or-false-right (str_eq full_method "/MQ.MQEndpoints/Login")
          (str_eq full_method "/MQ.MQEndpoints/IsLeaderNode") closed in
      rw (is_leader, authenticate, mq, closed, asks, lead) refl

  -- A call of a method of the service other than Login and IsLeaderNode is refused, or the node is the
  -- leader and the handler runs with a user, a token and a consumer id that belong together in a
  -- session that has not run out.
  pub intercept-Admits :
      (full_method : String) (md : Option Metadata)
      → has_prefix full_method "/MQ." ≡ true
      → is_open full_method ≡ false
      → Refuses (intercept s full_method md handler).0
        ⊎ (s.leader ≡ true) × Admits s handler (intercept s full_method md handler).0
  unfolding is_leader authenticate
  intercept-Admits full_method md mq closed =
      let asks =
        or-false-right (str_eq full_method "/MQ.MQEndpoints/Login")
          (str_eq full_method "/MQ.MQEndpoints/IsLeaderNode") closed in
      elim (Bool-cases s.leader) [
        | inr away ↦ inl (not_leader, rw (is_leader, mq, asks, away) refl)
        | inl lead ↦ elim (Option-cases md) [
          | inl e ↦
              inl (metadata_not_found, rw (e, is_leader, authenticate, mq, closed, asks, lead) refl)
          | inr (found_md, e) ↦
              let same : intercept s full_method md handler ≡ with_session s found_md handler =
                rw e (on_leader full_method found_md mq closed lead) in
              elim (named found_md (get_username_token s.token_name found_md) refl) [
                | inl (err, r) ↦ inl (err, ap (λ (o : Outcome). o.0) same ∙ r)
                | inr (u, t, id, found_id, r) ↦
                    inr (lead, (u, t, id, found_id, ap (λ (o : Outcome). o.0) same ∙ r))
              ]
        ]
      ]

-- The session service lies behind neither test: PropagateSession is called without a session and on any
-- node. Whoever calls it with a token that is new to a user and a time to come can then call every
-- method as that user.
pub propagate_session-intercept :
    (s : Site) (username token : String) (id : Bytes) (ttl : ℕ) (md : Metadata)
    (full_method : String) (propagate handler : Context → Step Reply)
    → s.leader ≡ true
    → Fresh token (sessions_of (Dict.get s.manager.sessions username))
    → s.now < ttl
    → get_username_token s.token_name md ≡ inr (username, token)
    → has_prefix full_method "/MQ." ≡ true
    → is_open full_method ≡ false
    → let after = record s {
      manager = record (s.manager) {
        sessions = (propagate_session token username id ttl s.manager.sessions).1;
      };
    } in
      ((intercept (record s { leader = false }) "/auth.Session/PropagateSession" none propagate).0
        ≡ propagate no_values)
      × ((intercept after full_method (some md) handler).0 ≡ handler (values_of username id token))
unfolding is_leader authenticate propagate_session get_consumer_id has_prefix
propagate_session-intercept s username token id ttl md full_method propagate handler lead fresh
      alive e mq closed =
    let after : Site = record s {
      manager = record (s.manager) {
        sessions = (propagate_session token username id ttl s.manager.sessions).1;
      };
    } in
    let valid : ltb s.now ttl ≡ true = ground arith in
    (
      refl,
      ap (λ (o : Outcome). o.0) (on_leader after handler full_method md mq closed lead)
          ∙ with_session-found after handler md username token id e (
              get_consumer_id-add_token s.now token username id ttl s.manager.sessions fresh
              ∙ rw valid refl),
    )
