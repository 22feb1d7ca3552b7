-- ===== src/Auth/Account/Login.antt =====
-- Login of pkg/auth/AuthManager.go, with CreateUser and ChangePassword.
use sybline.Base.{
  ℕ, ◌+◌, String, ◌≡◌, refl, ap, inl, inr, true, false, none, some, List, [], ◌∷◌, ◌++◌, Bytes,
  equal, equal_refl, eq_refl, ltb, if◌then◌else◌, arith, Bool-cases, Option-cases,
}
use sybline.Base.Dict
use sybline.Auth.Session.{found, refused, no_user_session_exists}
use sybline.Auth.Session.Tokens.{Fresh, sessions_of, get_consumer_id-add_token}
use sybline.Auth.Account.{
  invalid_login, AuthManager, SaltPassword, Random, Kdf, get_user_credentials, delete_username,
  credential, create_user, change_password, login, get_consumer_id,
}
use sybline.Auth.Account.Unique.{IsAccounts, times-zero, deleted}

get_user_credentials-snoc :
    (u : String) (salt hash : Bytes) (cs : List SaltPassword)
    → get_user_credentials u cs ≡ none
    → get_user_credentials u (cs ++ credential u salt hash ∷ []) ≡ some (credential u salt hash)
unfolding get_user_credentials
get_user_credentials-snoc u salt hash [] n = rw (eq_refl u) refl
get_user_credentials-snoc u salt hash (c ∷ cs) n =
    ground (arith, get_user_credentials-snoc u salt hash cs)

module _ (key : Kdf) (token : String) (id : Bytes) (now : ℕ) where
  -- A login with the password whose hash is kept opens a session, if its token is new to the user:
  -- the token stands for the consumer id until the duration is over.
  pub login-get_consumer_id :
      (later : ℕ) (u pw : String) (c : SaltPassword) (a : AuthManager)
      → get_user_credentials u a.credentials ≡ some c
      → key pw c.salt ≡ some c.hash
      → Fresh token (sessions_of (Dict.get a.sessions u))
      → ((login key token id now u pw a).0 ≡ none)
        × ((get_consumer_id later u token (login key token id now u pw a).1).0 ≡ (
            if ltb later (now + a.token_duration)
            then found id
            else refused no_user_session_exists))
  unfolding login get_consumer_id
  login-get_consumer_id later u pw c a e k fresh =
      let same = equal_refl c.hash in
      (
        rw (login, e, k, same) refl,
        rw (login, e, k, same)
            (get_consumer_id-add_token later token u id (now + a.token_duration) a.sessions fresh),
      )

  -- A password whose hash differs from the kept one is refused, and no session is opened.
  pub login-refused :
      (u pw : String) (c : SaltPassword) (hash : Bytes) (a : AuthManager)
      → get_user_credentials u a.credentials ≡ some c
      → key pw c.salt ≡ some hash
      → equal hash c.hash ≡ false
      → login key token id now u pw a ≡ (some invalid_login, a)
  unfolding login
  login-refused u pw c hash a e k wrong = rw (login, e, k, wrong) refl

module _ (key : Kdf) (random : Random) where
  -- If CreateUser reports success, a login with the password succeeds.
  pub login-create_user :
      (token : String) (id : Bytes) (now : ℕ) (u pw : String) (a : AuthManager)
      → (create_user key random u pw a).0 ≡ none
      → (login key token id now u pw (create_user key random u pw a).1).0 ≡ none
  unfolding create_user login
  login-create_user token id now u pw a done =
      elim (Option-cases (get_user_credentials u a.credentials)) [
        | inr (c, e) ↦ absurd (let d = rw (create_user, e) at done in ground arith)
        | inl n ↦ elim (Option-cases random) [
          | inl r ↦ absurd (let d = rw (create_user, n, r) at done in ground arith)
          | inr (salt, r) ↦ elim (Option-cases (key pw salt)) [
            | inl k ↦ absurd (let d = rw (create_user, n, r, k) at done in ground arith)
            | inr (hash, k) ↦
                rw (create_user, n, r, k)
                  (rw
                    (
                      login,
                      get_user_credentials-snoc u salt hash a.credentials n,
                      k,
                      equal_refl hash,
                    )
                    refl)
          ]
        ]
      ]

  -- If ChangePassword reports a change, the old password was right, and from then on a login
  -- succeeds with the new password; the names are distinct, which the code relies on.
  pub login-change_password :
      (token : String) (id : Bytes) (now : ℕ) (u old new : String) (a : AuthManager)
      → IsAccounts a.credentials
      → (change_password key random u old new a).0 ≡ (true, none)
      → ((login key token id now u old a).0 ≡ none)
        × ((login key token id now u new (change_password key random u old new a).1).0 ≡ none)
  unfolding change_password login
  login-change_password token id now u old new a w done =
      elim (Option-cases (get_user_credentials u a.credentials)) [
        | inl n ↦ absurd (let d = ap (λ p. p.0) (rw (change_password, n) at done) in ground arith)
        | inr (c, e) ↦ elim (Option-cases (key old c.salt)) [
          | inl k ↦
              absurd (let d = ap (λ p. p.0) (rw (change_password, e, k) at done) in ground arith)
          | inr (hash, k) ↦ elim (Bool-cases (equal hash c.hash)) [
            | inr wrong ↦
                absurd (
                  let d = ap (λ p. p.0) (rw (change_password, e, k, wrong) at done) in ground arith)
            | inl held ↦ (rw (login, e, k, held) refl, changed c hash e k held)
          ]
        ]
      ]
    where
      changed :
          (c : SaltPassword) (hash : Bytes)
          → get_user_credentials u a.credentials ≡ some c
          → key old c.salt ≡ some hash
          → equal hash c.hash ≡ true
          → (login key token id now u new (change_password key random u old new a).1).0 ≡ none
      changed c hash e k held = elim (Option-cases random) [
        | inl r ↦
            absurd
              (let d = ap (λ p. p.0) (rw (change_password, e, k, held, r) at done) in ground arith)
        | inr (salt, r) ↦ elim (Option-cases (key new salt)) [
          | inl k' ↦ absurd (
              let d = ap (λ p. p.0) (rw (change_password, e, k, held, r, k') at done) in
              ground arith)
          | inr (new_hash, k') ↦
              rw (change_password, e, k, held, r, k')
                (rw
                  (
                    login,
                    get_user_credentials-snoc u salt new_hash (delete_username u a.credentials)
                        (times-zero u (delete_username u a.credentials) (deleted u w)),
                    k',
                    equal_refl new_hash,
                  )
                  refl)
        ]
      ]
