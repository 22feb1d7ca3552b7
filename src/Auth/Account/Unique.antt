-- ===== src/Auth/Account/Unique.antt =====
-- The credentials of pkg/auth/AuthManager.go, by the number of entries of a user.
use sybline.Base.{
  ℕ, ◌+◌, ◌-◌, ◌≤◌, String, ◌≡◌, refl, ap, subst, ◌∙◌, inl, inr, true, none, List, [], ◌∷◌, ◌++◌,
  Bytes, equal, length, ◌==◌, str_eq, eq_refl, eq_iff, swap_remove, index_where, count, one_if,
  count-append, count-swap_remove, index_where-some, index_where-none, length-swap_remove,
  length-append, if◌then◌else◌, arith, Bool-cases, Option-cases,
}
use sybline.Auth.Account.{
  AuthManager, SaltPassword, Random, Kdf, is_user, get_user_credentials, delete_username,
  credential, create_user, change_password, delete_user,
}

abbrev pub times : String → List SaltPassword → ℕ
times u cs = count (is_user u) cs

pub record IsAccounts (cs : List SaltPassword) : Type 0 where
  pub unique : (u : String) → times u cs ≤ 1
  pub some_account : 1 ≤ length cs

pub times-snoc :
    (u v : String) (salt hash : Bytes) (cs : List SaltPassword)
    → times v (cs ++ credential u salt hash ∷ []) ≡ times v cs + one_if (str_eq u v)
unfolding is_user count
times-snoc u v salt hash cs =
    omega (arith, count-append (is_user v) cs (credential u salt hash ∷ []))

pub get_user_credentials-none :
    (u : String) (cs : List SaltPassword) → get_user_credentials u cs ≡ none → times u cs ≡ 0
unfolding get_user_credentials count is_user
get_user_credentials-none u [] h = refl
get_user_credentials-none u (c ∷ cs) h = ground (arith, get_user_credentials-none u cs)

pub times-zero :
    (u : String) (cs : List SaltPassword) → times u cs ≡ 0 → get_user_credentials u cs ≡ none
unfolding get_user_credentials count is_user
times-zero u [] h = refl
times-zero u (c ∷ cs) h = ground (arith, times-zero u cs)

same_name : (c : SaltPassword) (u v : String) → is_user u c ≡ true → is_user v c ≡ str_eq u v
unfolding is_user
same_name c u v h = ap (λ w. str_eq w v) ((eq_iff c.username u).0 h)

-- Deleting a user takes one entry of this user, if there is one, and none of another.
pub times-delete_username :
    (u v : String) (cs : List SaltPassword)
    → times v (delete_username u cs) ≡ (if str_eq u v then times v cs - 1 else times v cs)
unfolding delete_username
times-delete_username u v cs = elim (Option-cases (index_where (is_user u) cs)) [
  | inl n ↦
      rw (delete_username, n)
        (elim (Bool-cases (str_eq u v)) [
          | inl e ↦
              let zero_times : times v cs ≡ 0 =
                subst (λ w. times w cs ≡ 0) ((eq_iff u v).0 e)
                  (index_where-none (is_user u) cs n) in
              rw (e, zero_times) (omega arith)
          | inr e ↦ rw e refl
        ])
  | inr (i, e) ↦
      let (c, at, named) = index_where-some (is_user u) cs i e in
      let taken : times v (swap_remove cs i) + one_if (str_eq u v) ≡ times v cs =
        rw (← same_name c u v named) (count-swap_remove (is_user v) cs i c at) in
      rw (delete_username, e)
        (elim (Bool-cases (str_eq u v)) [
          | inl same ↦ rw same (omega (arith, rw same at taken))
          | inr other ↦ rw other (omega (arith, rw other at taken))
        ])
]

-- A user whose credentials were deleted has none left, if there was at most one entry.
pub deleted :
    {cs : List SaltPassword} (u : String) → IsAccounts cs → times u (delete_username u cs) ≡ 0
deleted {cs} u w =
    let left : times u (delete_username u cs) ≡ times u cs - 1 =
      times-delete_username u u cs ∙ rw (eq_refl u) refl in
    omega (arith, left, w.unique u)

-- Appending an entry of a user without one.
pub snoc-IsAccounts :
    (u : String) (salt hash : Bytes) (cs : List SaltPassword)
    → ((v : String) → times v cs ≤ 1)
    → times u cs ≡ 0
    → IsAccounts (cs ++ credential u salt hash ∷ [])
snoc-IsAccounts u salt hash cs w none_yet = record {
  unique = λ v. elim (Bool-cases (str_eq u v)) [
    | inl e ↦
        let zero_times : times v cs ≡ 0 = subst (λ w. times w cs ≡ 0) ((eq_iff u v).0 e) none_yet in
        let added = times-snoc u v salt hash cs in omega (arith, zero_times, rw e at added)
    | inr e ↦ let added = times-snoc u v salt hash cs in omega (arith, w v, rw e at added)
  ];
  some_account = omega (arith, length-append cs (credential u salt hash ∷ []));
}

length-delete_username :
    (u : String) (cs : List SaltPassword) → length cs ≤ length (delete_username u cs) + 1
unfolding delete_username
length-delete_username u cs = elim (Option-cases (index_where (is_user u) cs)) [
  | inl n ↦ rw (delete_username, n) (omega arith)
  | inr (i, e) ↦ rw (delete_username, e) (omega (arith, length-swap_remove cs i))
]

pub delete_unique :
    {cs : List SaltPassword} (u v : String) → IsAccounts cs → times v (delete_username u cs) ≤ 1
delete_unique {cs} u v w = elim (Bool-cases (str_eq u v)) [
  | inl e ↦ let left = times-delete_username u v cs in omega (arith, w.unique v, rw e at left)
  | inr e ↦ let left = times-delete_username u v cs in omega (arith, w.unique v, rw e at left)
]

module _ (key : Kdf) (random : Random) where
  -- CreateUser keeps the user names distinct and an account in place, whatever it returns.
  pub create_user-IsAccounts :
      (u pw : String) (a : AuthManager)
      → IsAccounts a.credentials
      → IsAccounts (create_user key random u pw a).1.credentials
  unfolding create_user
  create_user-IsAccounts u pw a w = elim (Option-cases (get_user_credentials u a.credentials)) [
    | inr (c, e) ↦ rw (create_user, e) w
    | inl n ↦ elim (Option-cases random) [
      | inl r ↦ rw (create_user, n, r) w
      | inr (salt, r) ↦ elim (Option-cases (key pw salt)) [
        | inl k ↦ rw (create_user, n, r, k) w
        | inr (hash, k) ↦
            rw (create_user, n, r, k)
              (snoc-IsAccounts u salt hash a.credentials w.unique
                (get_user_credentials-none u a.credentials n))
      ]
    ]
  ]

  -- ChangePassword keeps the user names distinct and an account in place, whatever it returns.
  pub change_password-IsAccounts :
      (u old new : String) (a : AuthManager)
      → IsAccounts a.credentials
      → IsAccounts (change_password key random u old new a).1.credentials
  unfolding change_password
  change_password-IsAccounts u old new a w =
      elim (Option-cases (get_user_credentials u a.credentials)) [
        | inl n ↦ rw (change_password, n) w
        | inr (c, e) ↦ elim (Option-cases (key old c.salt)) [
          | inl k ↦ rw (change_password, e, k) w
          | inr (hash, k) ↦ elim (Bool-cases (equal hash c.hash)) [
            | inr wrong ↦ rw (change_password, e, k, wrong) w
            | inl held ↦ elim (Option-cases random) [
              | inl r ↦ rw (change_password, e, k, held, r) w
              | inr (salt, r) ↦ elim (Option-cases (key new salt)) [
                | inl k' ↦ rw (change_password, e, k, held, r, k') w
                | inr (new_hash, k') ↦
                    rw (change_password, e, k, held, r, k')
                      (snoc-IsAccounts u salt new_hash (delete_username u a.credentials)
                        (λ v. delete_unique u v w) (deleted u w))
              ]
            ]
          ]
        ]
      ]

-- DeleteUser keeps the user names distinct and never removes the last account.
pub delete_user-IsAccounts :
    (u : String) (a : AuthManager)
    → IsAccounts a.credentials
    → IsAccounts (delete_user u a).1.credentials
unfolding delete_user
delete_user-IsAccounts u a w = elim (Option-cases (get_user_credentials u a.credentials)) [
  | inl n ↦ rw (delete_user, n) w
  | inr (c, e) ↦ elim (Bool-cases (length a.credentials == 1)) [
    | inl one ↦ rw (delete_user, e, one) w
    | inr more ↦
        let several : 2 ≤ length a.credentials = ground (arith, w.some_account) in
        rw (delete_user, e, more)
          (record {
            unique = λ v. delete_unique u v w;
            some_account = omega (arith, several, length-delete_username u a.credentials);
          })
  ]
]
