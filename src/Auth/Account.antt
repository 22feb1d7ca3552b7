-- ===== src/Auth/Account.antt =====
-- pkg/auth/AuthManager.go and followerSessions.go. The key derivation of scrypt, the random salts and
-- the answers of the followers are arguments.
pub mod Unique
pub mod Login
use sybline.Base.{
  ℕ, suc, ◌+◌, String, Bool, true, false, Option, none, some, List, [], ◌∷◌, ◌++◌, Bytes, equal,
  length, ◌==◌, str_eq, swap_remove, index_where, if◌then◌else◌,
}
use sybline.Auth.Session
use sybline.Auth.Session.{SessionError, SessionHandler}

pub data AuthError : Type 0 where
  user_does_not_exist username_already_taken invalid_login at_least_one_account : AuthError
  no_salt_pass random_failed derivation_failed follower_failed missing_token missing_username :
      AuthError
  session_error : SessionError → AuthError

pub record SaltPassword : Type 0 where
  pub username : String
  pub salt : Bytes
  pub hash : Bytes

pub record AuthManager : Type 0 where
  pub credentials : List SaltPassword
  pub sessions : SessionHandler
  pub token_duration : ℕ

unfoldable pub is_user : String → SaltPassword → Bool
is_user username c = str_eq c.username username

unfoldable pub get_user_credentials : String → List SaltPassword → Option SaltPassword
get_user_credentials username [] = none
get_user_credentials username (c ∷ cs) =
    let rest = get_user_credentials username cs in
    if str_eq c.username username then some c else rest

unfoldable pub user_exists : String → List SaltPassword → Bool
user_exists username [] = false
user_exists username (c ∷ cs) = if str_eq c.username username then true else user_exists username cs

unfoldable pub get_accounts : List SaltPassword → List String
get_accounts [] = []
get_accounts (c ∷ cs) = c.username ∷ get_accounts cs

-- The last credentials take the place of the user's, and the slice is cut.
unfoldable pub delete_username : String → List SaltPassword → List SaltPassword
delete_username username cs = elim (index_where (is_user username) cs) [
  | none ↦ cs
  | some i ↦ swap_remove cs i
]

abbrev pub credential : String → (salt hash : Bytes) → SaltPassword
credential username salt hash = record { username = username; salt = salt; hash = hash }

-- `scrypt.Key(password, salt, …)`; `none` is an error.
abbrev pub Kdf : Type 0
Kdf = String → Bytes → Option Bytes

-- `rand.Read(buf)`: the random bytes, or an error.
abbrev pub Random : Type 0
Random = Option Bytes

-- PropagateSessions logs the errors of the followers and returns nil; DeleteSessions returns the
-- first error. An answer is `true` for success.
unfoldable pub delete_sessions : (answers : List Bool) → Bool
delete_sessions [] = true
delete_sessions (a ∷ as') = if a then delete_sessions as' else false

module _ (key : Kdf) where
  unfoldable pub create_user :
      Random → (username password : String) → AuthManager → Option AuthError × AuthManager
  create_user random username password a = elim (get_user_credentials username a.credentials) [
    | some c ↦ (some username_already_taken, a)
    | none ↦ elim random [
      | none ↦ (some random_failed, a)
      | some salt ↦ elim (key password salt) [
        | none ↦ (some derivation_failed, a)
        | some hash ↦
            (none, record a { credentials = a.credentials ++ credential username salt hash ∷ [] })
      ]
    ]
  ]

  -- The token, or an error. `token`, `id` and `now` are what the generators and the clock return.
  unfoldable pub login :
      (token : String)
      → (id : Bytes) → (now : ℕ) → (username password : String) → AuthManager
      → Option AuthError × AuthManager
  login token id now username password a = elim (get_user_credentials username a.credentials) [
    | none ↦ (some no_salt_pass, a)
    | some c ↦ elim (key password c.salt) [
      | none ↦ (some derivation_failed, a)
      | some hash ↦
          if equal hash c.hash
          then (
            none,
            record a {
              sessions = Session.add_token token username id (now + a.token_duration) a.sessions;
            },
          )
          else (some invalid_login, a)
    ]
  ]

  -- The pair of the code: whether the password was changed, and an error.
  unfoldable pub change_password :
      Random
      → (username old_password new_password : String) → AuthManager
      → (Bool × Option AuthError) × AuthManager
  change_password random username old_password new_password a =
      elim (get_user_credentials username a.credentials) [
        | none ↦ ((false, some user_does_not_exist), a)
        | some c ↦ elim (key old_password c.salt) [
          | none ↦ ((false, some derivation_failed), a)
          | some hash ↦
              if equal hash c.hash
              then elim random [
                | none ↦ ((false, some random_failed), a)
                | some salt ↦ elim (key new_password salt) [
                  | none ↦ ((false, some derivation_failed), a)
                  | some new_hash ↦ (
                    (true, none),
                    record a {
                      credentials =
                          delete_username username a.credentials
                          ++ credential username salt new_hash ∷ [];
                    },
                  )
                ]
              ]
              else ((false, none), a)
        ]
      ]

abbrev pub lift_error : Option SessionError → Option AuthError
lift_error none = none
lift_error (some e) = some (session_error e)

unfoldable pub log_out :
    (answers : List Bool) → (username token : String) → AuthManager → Option AuthError × AuthManager
log_out answers username token a =
    if delete_sessions answers
    then (let (err, s) = Session.remove_token token username a.sessions in
        (lift_error err, record a { sessions = s }))
    else (some follower_failed, a)

unfoldable pub delete_user : String → AuthManager → Option AuthError × AuthManager
delete_user username a = elim (get_user_credentials username a.credentials) [
  | none ↦ (some user_does_not_exist, a)
  | some c ↦ if length a.credentials == 1 then (some at_least_one_account, a) else (
    none,
    record a {
      sessions = Session.delete_user username a.sessions;
      credentials = delete_username username a.credentials;
    },
  )
]

unfoldable pub get_consumer_id :
    (now : ℕ) → (username token : String) → AuthManager → Session.Lookup × Session.Spawned
get_consumer_id now username token a = Session.get_consumer_id now token username a.sessions
