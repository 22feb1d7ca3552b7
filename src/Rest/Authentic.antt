-- ===== src/Rest/Authentic.antt =====
-- Who a request of pkg/rest/v1.go speaks for, after pkg/rest/middleware.go.
use sybline.Base.{◌≡◌, refl, inl, inr, ◌||◌, String, some, Bytes, str_eq, Bool-cases, Option-cases}
use sybline.Base.Search.{has_prefix, trim_prefix, split_once, contains}
use sybline.Auth.Session
use sybline.Auth.Session.{Lookup}
use sybline.Auth.Account.{get_consumer_id}
use sybline.Handler.Sending.{Context}
use sybline.Handler.Port.{Step, no_values}
use sybline.Rest.{Reply}
use sybline.Rest.Middleware.{
  Site, Call, locals_of, is_leader, is_exempt, with_lookup, authenticate, serve,
}
use sybline.Rest.Queues.{Uuids}
use sybline.Rest.Guarded.{Route, route, CallsOnly, CallsOnly-map, Whole, route-CallsOnly}

-- The header of the request names a user and a token that belong to a session which has not run out,
-- and the context holds them with the consumer id of the session.
abbrev pub Authentic : Site → Call → Context → Type 0
Authentic s c ctx =
    (credentials : String) × (username : String) × (token : String) × (id : Bytes) × (s.decode
        (trim_prefix c.authorization "Basic ")
      ≡ some credentials)
    × (split_once ":" credentials ≡ some (username, token))
    × ((get_consumer_id s.now username token s.manager).0 ≡ Session.found id)
    × (ctx ≡ locals_of username id token)

module _ (s : Site) (c : Call) (next : Context → Step Reply)
    (whole : (locals : Context) → CallsOnly (Whole locals) (next locals)) where
  unknown : CallsOnly (Authentic s c) (next no_values)
  unknown =
      CallsOnly-map (Whole no_values) (Authentic s c) (next no_values)
        (λ ctx w. let (all, same) = w in let (u, t, id, e, e1, e2) = all in absurd (cc))
        (whole no_values)

  looked_up :
      (credentials username token : String) (l : Lookup)
      → s.decode (trim_prefix c.authorization "Basic ") ≡ some credentials
      → split_once ":" credentials ≡ some (username, token)
      → (get_consumer_id s.now username token s.manager).0 ≡ l
      → CallsOnly
          (Authentic s c)
          (with_lookup username token
            (l, (get_consumer_id s.now username token s.manager).1)
            next).0
  unfolding with_lookup
  looked_up credentials username token (Session.refused e) d p f = tt
  looked_up credentials username token (Session.found id) d p f =
      CallsOnly-map (Whole (locals_of username id token)) (Authentic s c) _
        (λ ctx w. (credentials, username, token, id, d, p, f, w.1))
        (whole (locals_of username id token))

  authenticate-CallsOnly : CallsOnly (Authentic s c) (authenticate s c next).0
  unfolding authenticate
  authenticate-CallsOnly = elim (Bool-cases (is_exempt c)) [
    | inl e ↦ rw e unknown
    | inr e ↦ elim (Bool-cases (str_eq c.authorization "")) [
      | inl e1 ↦ rw (e, e1) tt
      | inr e1 ↦ elim (Bool-cases (has_prefix c.authorization "Basic ")) [
        | inr e2 ↦ rw (e, e1, e2) tt
        | inl e2 ↦ elim (Option-cases (s.decode (trim_prefix c.authorization "Basic "))) [
          | inl d ↦ rw (e, e1, e2, d) tt
          | inr (credentials, d) ↦ elim (Option-cases (split_once ":" credentials)) [
            | inl p ↦ rw (e, e1, e2, d, p) tt
            | inr ((username, token), p) ↦
                rw (e, e1, e2, d, p) (looked_up credentials username token _ d p refl)
          ]
        ]
      ]
    ]
  ]

-- Whatever the path of a request, whichever of these routes it takes and whether or not the path is
-- exempt from a test: the route calls the handler with the user, the token and the consumer id of a
-- session that the request's header names and that has not run out, or it does not call the handler.
pub serve-Authentic :
    (s : Site) (c : Call) (u : Uuids) (bytes : String → Bytes) (r : Route)
    → CallsOnly (Authentic s c) (serve s c (route u bytes r)).0
unfolding serve is_leader authenticate
serve-Authentic s c u bytes r =
    let passed =
      authenticate-CallsOnly s c (route u bytes r) (λ locals. route-CallsOnly locals u bytes r) in
    elim (Bool-cases
      (contains c.path "/info" || (contains c.path "/login" || contains c.path "/metrics"))) [
        | inl e ↦ rw e passed
        | inr e ↦ elim (Bool-cases s.leader) [ inl e1 ↦ rw (e, e1) passed | inr e1 ↦ rw (e, e1) tt ]
      ]
