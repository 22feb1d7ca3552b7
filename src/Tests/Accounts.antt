-- ===== src/Tests/Accounts.antt =====
-- Accounts and sessions of pkg/auth.
use sybline.Base.{◌≡◌, refl, none, some, [], ◌∷◌, equal, count, str_eq, arith, if◌then◌else◌}
use sybline.Base.Dict
use sybline.Auth.Session.{
  TimeSession, SessionHandler, find_token, found, refused, no_user_session_exists, add_token,
}
use sybline.Auth.Session
use sybline.Auth.Session.Tokens.{get_consumer_id-add_token}
use sybline.Auth.Account.{
  AuthManager, Kdf, credential, get_user_credentials, is_user, create_user, change_password,
  delete_user, login, get_consumer_id, invalid_login,
}
use sybline.Auth.Account.Unique.{
  IsAccounts, snoc-IsAccounts, create_user-IsAccounts, change_password-IsAccounts,
  delete_user-IsAccounts,
}
use sybline.Auth.Account.Login.{login-get_consumer_id, login-refused, login-change_password}

abbrev old : TimeSession
old = record { time = 50; id = 1 ∷ []; token = "a" }

abbrev new : TimeSession
new = record { time = 90; id = 2 ∷ []; token = "b" }

abbrev handler : SessionHandler
handler = ("ann", old ∷ new ∷ []) ∷ []

-- The salt is put before the bytes of a fixed key, which stands for scrypt.
abbrev pub key : Kdf
key password salt = if str_eq password "right" then some (1 ∷ salt) else some (2 ∷ salt)

abbrev pub manager : AuthManager
manager = record {
  credentials = credential "ann" (5 ∷ []) (1 ∷ 5 ∷ []) ∷ [];
  sessions = handler;
  token_duration = 30;
}

pub manager-IsAccounts : IsAccounts manager.credentials
unfolding count is_user
manager-IsAccounts = snoc-IsAccounts "ann" (5 ∷ []) (1 ∷ 5 ∷ []) [] (λ v. omega arith) refl

get_consumer_id-add_token_example :
    (Session.get_consumer_id 40 "c" "ann" (add_token "c" "ann" (3 ∷ []) 70 handler)).0
    ≡ found (3 ∷ [])
unfolding Dict.get find_token
get_consumer_id-add_token_example = get_consumer_id-add_token 40 "c" "ann" (3 ∷ []) 70 handler refl

create_user-IsAccounts_example :
    IsAccounts (create_user key (some (6 ∷ [])) "bob" "right" manager).1.credentials
create_user-IsAccounts_example =
    create_user-IsAccounts key (some (6 ∷ [])) "bob" "right" manager manager-IsAccounts

change_password-IsAccounts_example :
    IsAccounts (change_password key (some (6 ∷ [])) "ann" "right" "left" manager).1.credentials
change_password-IsAccounts_example =
    change_password-IsAccounts key (some (6 ∷ [])) "ann" "right" "left" manager manager-IsAccounts

delete_user-IsAccounts_example : IsAccounts (delete_user "ann" manager).1.credentials
delete_user-IsAccounts_example = delete_user-IsAccounts "ann" manager manager-IsAccounts

login-get_consumer_id_example :
    ((login key "c" (3 ∷ []) 40 "ann" "right" manager).0 ≡ none)
    × ((get_consumer_id 60 "ann" "c" (login key "c" (3 ∷ []) 40 "ann" "right" manager).1).0
        ≡ found (3 ∷ []))
unfolding get_user_credentials Dict.get find_token
login-get_consumer_id_example =
    login-get_consumer_id key "c" (3 ∷ []) 40 60 "ann" "right"
      (credential "ann" (5 ∷ []) (1 ∷ 5 ∷ [])) manager refl refl refl

login-refused_example :
    login key "c" (3 ∷ []) 40 "ann" "wrong" manager ≡ (some invalid_login, manager)
unfolding get_user_credentials equal
login-refused_example =
    login-refused key "c" (3 ∷ []) 40 "ann" "wrong" (credential "ann" (5 ∷ []) (1 ∷ 5 ∷ []))
      (2 ∷ 5 ∷ []) manager refl refl refl

login-change_password_example :
    ((login key "c" (3 ∷ []) 40 "ann" "right" manager).0 ≡ none)
    × ((login key "c"
          (3 ∷ [])
          40
          "ann"
          "left"
          (change_password key (some (6 ∷ [])) "ann" "right" "left" manager).1).0
        ≡ none)
unfolding change_password get_user_credentials equal
login-change_password_example =
    login-change_password key (some (6 ∷ [])) "c" (3 ∷ []) 40 "ann" "right" "left" manager
      manager-IsAccounts refl
