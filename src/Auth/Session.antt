-- ===== src/Auth/Session.antt =====
-- pkg/auth/SessionHandler.go. Slices of the map share their arrays with the slices taken out of it, so
-- a write through one is seen through the other, and a shorter slice is not.
pub mod Tokens
use sybline.Base.{
  ℕ, suc, String, Bool, true, false, Option, none, some, List, [], ◌∷◌, ◌++◌, Bytes, length, ltb,
  ◌==◌, str_eq, set, last_of, index_where, if◌then◌else◌,
}
use sybline.Base.Dict
use sybline.Base.Dict.{Dict}

pub data SessionError : Type 0 where
  no_user_session_exists user_does_not_exist token_does_not_exist : SessionError

pub record TimeSession : Type 0 where
  pub time : ℕ
  pub id : Bytes
  pub token : String

abbrev pub SessionHandler : Type 0
SessionHandler = Dict (List TimeSession)

unfoldable pub has_token : String → TimeSession → Bool
has_token token s = str_eq s.token token

-- The first session with the token.
unfoldable pub find_token : String → List TimeSession → Option TimeSession
find_token token [] = none
find_token token (s ∷ ss) =
    let rest = find_token token ss in if str_eq s.token token then some s else rest

-- `go r.RemoveToken(username, token)`: the arguments of the call that runs later.
abbrev pub Spawned : Type 0
Spawned = Option (String × String)

pub data Lookup : Type 0 where
  found : Bytes → Lookup
  refused : SessionError → Lookup

-- `now` is what `time.Now()` returns.
unfoldable pub get_consumer_id :
    (now : ℕ) → (token username : String) → SessionHandler → Lookup × Spawned
get_consumer_id now token username sessions = elim (Dict.get sessions username) [
  | none ↦ (refused no_user_session_exists, none)
  | some ss ↦ elim (find_token token ss) [
    | none ↦ (refused no_user_session_exists, none)
    | some s ↦
        if ltb now s.time
        then (found s.id, none)
        else (refused no_user_session_exists, some (username, token))
  ]
]

-- What the map's slice shows after `remove(sess, i)`: the element at `i` is overwritten by the last
-- one, and the shorter slice is assigned to a local variable alone.
unfoldable pub overwrite : List TimeSession → ℕ → List TimeSession
overwrite [] i = []
overwrite (s ∷ ss) i = set (s ∷ ss) i (last_of s ss)

unfoldable pub remove_token :
    (token username : String) → SessionHandler → Option SessionError × SessionHandler
remove_token token username sessions = elim (Dict.get sessions username) [
  | none ↦ (some user_does_not_exist, sessions)
  | some ss ↦ elim (index_where (has_token token) ss) [
    | none ↦ (some token_does_not_exist, sessions)
    | some i ↦
        if length ss == 1
        then (none, Dict.delete sessions username)
        else (none, Dict.put sessions username (overwrite ss i))
  ]
]

unfoldable pub add_token :
    (token username : String) → Bytes → (ttl : ℕ) → SessionHandler → SessionHandler
add_token token username id ttl sessions =
    let s : TimeSession = record { time = ttl; id = id; token = token } in
    elim (Dict.get sessions username) [
      | some ss ↦ Dict.put sessions username (ss ++ s ∷ [])
      | none ↦ Dict.put sessions username (s ∷ [])
    ]

unfoldable pub delete_user : String → SessionHandler → SessionHandler
delete_user username sessions = Dict.delete sessions username
