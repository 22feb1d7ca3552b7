-- ===== src/Auth/Metadata.antt =====
-- The metadata of a gRPC call as pkg/auth/AuthManager.go reads it, and pkg/auth/sessionServer.go.
use sybline.Base.{ℕ, String, Bool, true, Option, none, List, [], ◌∷◌, Bytes, ◌⊎◌, inl, inr, is_none}
use sybline.Auth.Session
use sybline.Auth.Session.{SessionHandler}
use sybline.Auth.Account
use sybline.Auth.Account.{AuthError, missing_token, missing_username, session_error, AuthManager}

-- `md.Get`: the values of a key.
abbrev pub Metadata : Type 0
Metadata = String → List String

unfoldable pub get_username : Metadata → AuthError ⊎ String
get_username md = elim (md "username") [ [] ↦ inl missing_username | u ∷ us ↦ inr u ]

-- `token_name` is the field tokenName, "syb-token".
unfoldable pub get_username_token : (token_name : String) → Metadata → AuthError ⊎ String × String
get_username_token token_name md = elim (get_username md) [
  | inl e ↦ inl e
  | inr username ↦ elim (md token_name) [ [] ↦ inl missing_token | t ∷ ts ↦ inr (username, t) ]
]

abbrev pub of_lookup : Session.Lookup → AuthError ⊎ Bytes
of_lookup (Session.found id) = inr id
of_lookup (Session.refused e) = inl (session_error e)

unfoldable pub get_consumer_id_via_md :
    (token_name : String)
    → (now : ℕ) → Metadata
    → AuthManager
    → (AuthError ⊎ Bytes) × Session.Spawned
get_consumer_id_via_md token_name now md a = elim (get_username_token token_name md) [
  | inl e ↦ (inl e, none)
  | inr (username, token) ↦
      let (outcome, spawned) = Account.get_consumer_id now username token a in
      (of_lookup outcome, spawned)
]

-- AddToken returns no error.
unfoldable pub propagate_session :
    (token username : String)
    → (consumer_id : Bytes) → (time_to_live : ℕ) → SessionHandler
    → (Bool × Option Session.SessionError) × SessionHandler
propagate_session token username consumer_id time_to_live s =
    ((true, none), Session.add_token token username consumer_id time_to_live s)

unfoldable pub delete_session :
    (token username : String)
    → SessionHandler
    → (Bool × Option Session.SessionError) × SessionHandler
delete_session token username s =
    let (err, t) = Session.remove_token token username s in ((is_none err, err), t)
