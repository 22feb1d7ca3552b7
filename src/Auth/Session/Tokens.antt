-- ===== src/Auth/Session/Tokens.antt =====
-- The tokens of pkg/auth/SessionHandler.go.
use sybline.Base.{
  ℕ, String, ◌≡◌, refl, inl, inr, Option, none, some, List, [], ◌∷◌, ◌++◌, Bytes, ltb, eq_refl,
  if◌then◌else◌, arith, Bool-cases, Option-cases,
}
use sybline.Base.Dict
use sybline.Base.Dict.{Dict}
use sybline.Auth.Session.{
  no_user_session_exists, TimeSession, SessionHandler, find_token, found, refused, get_consumer_id,
  add_token,
}

-- A list of sessions without the token, and then one with it.
abbrev pub Fresh : String → List TimeSession → Type 0
Fresh token ss = find_token token ss ≡ none

find_token-snoc :
    (token : String) (ss : List TimeSession) (s : TimeSession)
    → Fresh token ss
    → s.token ≡ token
    → find_token token (ss ++ s ∷ []) ≡ some s
unfolding find_token
find_token-snoc token [] s n e = rw (e, eq_refl)
find_token-snoc token (t ∷ ts) s n e = ground (arith, find_token-snoc token ts s)

-- The sessions that a user has, none if the map has no entry.
abbrev pub sessions_of : Option (List TimeSession) → List TimeSession
sessions_of none = []
sessions_of (some ss) = ss

abbrev session : ℕ → Bytes → String → TimeSession
session time id token = record { time = time; id = id; token = token }

get-add :
    (token username : String) (id : Bytes) (ttl : ℕ) (m : SessionHandler)
    → Dict.get (add_token token username id ttl m) username
      ≡ some (sessions_of (Dict.get m username) ++ session ttl id token ∷ [])
unfolding add_token
get-add token username id ttl m =
    let s = session ttl id token in
    let self = eq_refl username in
    elim (Option-cases (Dict.get m username)) [
      | inl n ↦ rw (add_token, n, Dict.get-put m username username (s ∷ []), self) refl
      | inr (ss, e) ↦ rw (add_token, e, Dict.get-put m username username (ss ++ s ∷ []), self) refl
    ]

-- A new token is accepted with its consumer id until its time has passed, and refused from then on,
-- if the user had no session with that token.
pub get_consumer_id-add_token :
    (now : ℕ) (token username : String) (id : Bytes) (ttl : ℕ) (m : SessionHandler)
    → Fresh token (sessions_of (Dict.get m username))
    → (get_consumer_id now token username (add_token token username id ttl m)).0
      ≡ (if ltb now ttl then found id else refused no_user_session_exists)
unfolding get_consumer_id
get_consumer_id-add_token now token username id ttl m fresh =
    let s = session ttl id token in
    let ss = sessions_of (Dict.get m username) in
    rw (get_consumer_id, get-add token username id ttl m, find_token-snoc token ss s fresh refl)
      (elim (Bool-cases (ltb now ttl)) [ inl e ↦ rw e refl | inr e ↦ rw e refl ])
