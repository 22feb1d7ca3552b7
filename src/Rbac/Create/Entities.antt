-- ===== src/Rbac/Create/Entities.antt =====
-- The actions on entities in the loop of CreateRole in pkg/rbac/rbacManager.go.
use sybline.Base.{
  ℕ, ◌≡◌, refl, ap, sym, subst, ◌∙◌, inl, inr, String, Bool, false, Option, none, some, [], ◌∷◌,
  ◌==◌, str_eq, eq_iff, if◌then◌else◌, arith, Bool-cases, Option-cases,
}
use sybline.Base.Dict
use sybline.Base.Dict.{Dict}
use sybline.Rbac.Role.{
  Permissions, Action, Role, get_messages_action, submit_message_action, submit_batch_action,
  ack_action, batch_ack_action, permissions_for,
}
use sybline.Rbac.Parse.{ok, Parsed-cases, parse_permissions}
use sybline.Rbac.Create.{
  Leaf, Case, entities, admin, cases, set_permissions, add_permission, read_case, read_action,
  read_actions,
}
use sybline.Rbac.Create.Labels.{IsMap, number, case-IsCoded, number-label}
use sybline.Rbac.Create.Actions.{read_admin, read_entities, set_permissions-admin}

set_permissions-for :
    (a b : Action) (mp : Permissions) (r : Role)
    → permissions_for a (set_permissions b mp r)
      ≡ (if number (entities b) == number (entities a) then mp else permissions_for a r)
unfolding set_permissions permissions_for number
set_permissions-for get_messages_action b mp r = ground arith
set_permissions-for submit_message_action b mp r = ground arith
set_permissions-for submit_batch_action b mp r = ground arith
set_permissions-for ack_action b mp r = ground arith
set_permissions-for batch_ack_action b mp r = ground arith

add_permission-for :
    (a : Action) (p : ℕ) (r : Role) → permissions_for a (add_permission p r) ≡ permissions_for a r
unfolding add_permission permissions_for
add_permission-for get_messages_action p r = refl
add_permission-for submit_message_action p r = refl
add_permission-for submit_batch_action p r = refl
add_permission-for ack_action p r = refl
add_permission-for batch_ack_action p r = refl

-- The map `after` is what the member's text says, or the map `before` without a member.
abbrev pub Gives : (before after : Permissions) → Option Leaf → Type 0
Gives before after none = after ≡ before
Gives before after (some none) = ⊥
Gives before after (some (some perm)) = parse_permissions perm ≡ ok after

module _ (a : Action) (label : String) (labelled : Dict.get cases label ≡ some (entities a)) where
  read_case-Gives :
      (k : String) (c : Case) (perm : String) (r r' : Role)
      → Dict.get cases k ≡ some c
      → read_case c perm r ≡ ok r'
      → Gives
          (permissions_for a r)
          (permissions_for a r')
          (if str_eq k label then some (some perm) else none)
  unfolding number
  read_case-Gives k (admin x y) perm r r' at h =
      let far = (set_permissions-admin a [] r).1 in
      let coded = case-IsCoded k (admin x y) at in
      let other : str_eq k label ≡ false =
        sym (number-label k label (admin x y) (entities a) at labelled) ∙ ground arith in
      rw other (elim (read_admin x y perm r r' h) [
        | inl (_, e) ↦ rw e (add_permission-for a x r)
        | inr (_, e) ↦ rw e (add_permission-for a y r)
      ])
  read_case-Gives k (entities b) perm r r' at h =
      let (mp, parsed, e) = read_entities b perm r r' h in
      let now : permissions_for a r' ≡ (if str_eq k label then mp else permissions_for a r) =
        rw e (set_permissions-for a b mp r)
        ∙ ap (λ (t : Bool). if t then mp else permissions_for a r)
            (number-label k label (entities b) (entities a) at labelled) in
      elim (Bool-cases (str_eq k label)) [
        | inl t ↦ rw (t, now, t) parsed
        | inr t ↦ rw (t, now, t) refl
      ]

  read_action-Gives :
      (k : String) (v : Leaf) (r r' : Role)
      → read_action k v r ≡ ok r'
      → Gives (permissions_for a r) (permissions_for a r') (if str_eq k label then some v else none)
  unfolding read_action
  read_action-Gives k none r r' h = absurd (cc)
  read_action-Gives k (some perm) r r' h = elim (Option-cases (Dict.get cases k)) [
    | inl n ↦ absurd (ground (arith, n))
    | inr (c, at) ↦ read_case-Gives k c perm r r' at (ground (arith, at))
  ]

  -- What the loop leaves in the map of this action.
  pub read_actions-Gives :
      (ms : Dict Leaf) (r r' : Role)
      → IsMap ms
      → read_actions ms r ≡ ok r'
      → Gives (permissions_for a r) (permissions_for a r') (Dict.get ms label)
  unfolding read_actions Dict.get
  read_actions-Gives [] r r' _ h = ground arith
  read_actions-Gives ((k, v) ∷ ms) r r' (new, once) h = elim (Parsed-cases (read_action k v r)) [
    | inr (e, bad) ↦ absurd (ground arith)
    | inl (r1, at) ↦
        let rest = read_actions-Gives ms r1 r' once (ground arith) in
        let step = read_action-Gives k v r r1 at in
        elim (Bool-cases (str_eq k label)) [
          | inl e ↦
              let gone : Dict.get ms label ≡ none =
                subst (λ l. Dict.get ms l ≡ none) ((eq_iff k label).0 e) new in
              let kept : permissions_for a r' ≡ permissions_for a r1 =
                subst (Gives (permissions_for a r1) (permissions_for a r')) gone rest in
              let given : Gives (permissions_for a r) (permissions_for a r1) (some v) =
                subst
                  (λ t.
                    Gives (permissions_for a r) (permissions_for a r1) (if t then some v else none))
                  e step in
              rw e (subst (λ after. Gives (permissions_for a r) after (some v)) (sym kept) given)
          | inr e ↦
              let kept : permissions_for a r1 ≡ permissions_for a r =
                subst
                  (λ t.
                    Gives (permissions_for a r) (permissions_for a r1) (if t then some v else none))
                  e step in
              rw e (
                subst (λ before. Gives before (permissions_for a r') (Dict.get ms label)) kept rest)
        ]
  ]

set_permissions-name :
    (a : Action) (mp : Permissions) (r : Role) → (set_permissions a mp r).name ≡ r.name
unfolding set_permissions
set_permissions-name get_messages_action mp r = refl
set_permissions-name submit_message_action mp r = refl
set_permissions-name submit_batch_action mp r = refl
set_permissions-name ack_action mp r = refl
set_permissions-name batch_ack_action mp r = refl

-- The loop leaves the name alone.
read_case-name :
    (c : Case) (perm : String) (r r' : Role) → read_case c perm r ≡ ok r' → r'.name ≡ r.name
unfolding read_case add_permission
read_case-name (admin x y) perm r r' h = elim (read_admin x y perm r r' h) [
  | inl (_, e) ↦ rw e refl
  | inr (_, e) ↦ rw e refl
]
read_case-name (entities b) perm r r' h =
    let (mp, _, e) = read_entities b perm r r' h in rw e (set_permissions-name b mp r)

read_action-name :
    (k : String) (v : Leaf) (r r' : Role) → read_action k v r ≡ ok r' → r'.name ≡ r.name
unfolding read_action
read_action-name k none r r' h = absurd (cc)
read_action-name k (some perm) r r' h = elim (Option-cases (Dict.get cases k)) [
  | inl n ↦ absurd (ground (arith, n))
  | inr (c, at) ↦ read_case-name c perm r r' (ground (arith, at))
]

pub read_actions-name :
    (ms : Dict Leaf) (r r' : Role) → read_actions ms r ≡ ok r' → r'.name ≡ r.name
unfolding read_actions
read_actions-name [] r r' h = ground arith
read_actions-name ((k, v) ∷ ms) r r' h = elim (Parsed-cases (read_action k v r)) [
  | inr (e, bad) ↦ absurd (ground arith)
  | inl (r1, at) ↦ read_actions-name ms r1 r' (ground arith) ∙ read_action-name k v r r1 at
]
