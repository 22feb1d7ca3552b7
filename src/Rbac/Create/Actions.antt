-- ===== src/Rbac/Create/Actions.antt =====
-- The administrators' actions in the loop of CreateRole in pkg/rbac/rbacManager.go.
use sybline.Base.{
  ◌≡◌, refl, subst, ◌≤◌, ◌⊎◌, inl, inr, String, Bool, true, false, ◌&&◌, ◌||◌, Option, none, some,
  List, [], ◌∷◌, ◌++◌, ◌==◌, str_eq, eq_iff, arith, Bool-cases, Option-cases,
}
use sybline.Base.Dict
use sybline.Base.Dict.{Dict}
use sybline.Rbac.Role.{
  AdminPermission, Permissions, Action, Role, get_messages_action, submit_message_action,
  submit_batch_action, ack_action, batch_ack_action,
}
use sybline.Rbac.Precedence.{lists}
use sybline.Rbac.Parse.{ok, Parsed-cases, parse_admin_permissions, parse_permissions}
use sybline.Rbac.Create.Labels.{IsMap, number, IsCoded, case-IsCoded, number-label}
use sybline.Rbac.Create.{
  Leaf, Case, entities, admin, cases, set_permissions, add_permission, read_case, read_action,
  read_actions,
}

-- The member says this word to an administrator's action.
abbrev pub says : String → Option Leaf → Bool
says w none = false
says w (some none) = false
says w (some (some perm)) = str_eq perm w

lists-snoc :
    (p q : AdminPermission) (ps : List AdminPermission)
    → lists p (ps ++ q ∷ []) ≡ (lists p ps || (q == p))
unfolding lists
lists-snoc p q [] = ground arith
lists-snoc p q (r ∷ ps) = ground (arith, lists-snoc p q ps)

pub read_admin :
    (x y : AdminPermission) (perm : String) (r r' : Role)
    → read_case (admin x y) perm r ≡ ok r'
    → ((perm ≡ "allow") × (r' ≡ add_permission x r)) ⊎ ((perm ≡ "deny") × (r' ≡ add_permission y r))
unfolding read_case parse_admin_permissions
read_admin x y perm r r' h = elim (Bool-cases (str_eq perm "allow")) [
  | inl e ↦ inl ((eq_iff perm "allow").0 e, ground arith)
  | inr e ↦ elim (Bool-cases (str_eq perm "deny")) [
    | inl d ↦ inr ((eq_iff perm "deny").0 d, ground arith)
    | inr d ↦ absurd (ground arith)
  ]
]

pub read_entities :
    (a : Action) (perm : String) (r r' : Role)
    → read_case (entities a) perm r ≡ ok r'
    → (mp : Permissions) × (parse_permissions perm ≡ ok mp) × (r' ≡ set_permissions a mp r)
unfolding read_case
read_entities a perm r r' h = elim (Parsed-cases (parse_permissions perm)) [
  | inl (mp, e) ↦ (mp, e, ground arith)
  | inr (e, bad) ↦ absurd (ground arith)
]

pub set_permissions-admin :
    (a : Action) (mp : Permissions) (r : Role)
    → ((set_permissions a mp r).admin_permissions ≡ r.admin_permissions)
      × (22 ≤ number (entities a))
unfolding set_permissions number
set_permissions-admin get_messages_action mp r = (refl, omega arith)
set_permissions-admin submit_message_action mp r = (refl, omega arith)
set_permissions-admin submit_batch_action mp r = (refl, omega arith)
set_permissions-admin ack_action mp r = (refl, omega arith)
set_permissions-admin batch_ack_action mp r = (refl, omega arith)

-- The lists of `r'` have what those of `r` have, and the word of a case of this number.
module _ (allow deny : AdminPermission) where
  abbrev pub Adds : (same : Bool) → Option Leaf → Role → Role → Type 0
  Adds same v r r' =
      (lists allow r'.admin_permissions
        ≡ (lists allow r.admin_permissions || (same && says "allow" v)))
      × (lists deny r'.admin_permissions
          ≡ (lists deny r.admin_permissions || (same && says "deny" v)))

  add_permission-Adds :
      (x y : AdminPermission) (r : Role)
      → IsCoded (admin x y)
      → IsCoded (admin allow deny)
      → Adds (x == allow) (some (some "allow")) r (add_permission x r)
        × Adds (x == allow) (some (some "deny")) r (add_permission y r)
  unfolding add_permission
  add_permission-Adds x y r k l =
      rw
        (
          lists-snoc allow x r.admin_permissions,
          lists-snoc allow y r.admin_permissions,
          lists-snoc deny x r.admin_permissions,
          lists-snoc deny y r.admin_permissions,
        )
        ((ground arith, ground arith), (ground arith, ground arith))

  read_case-Adds :
      (c : Case) (perm : String) (r r' : Role)
      → IsCoded c
      → IsCoded (admin allow deny)
      → read_case c perm r ≡ ok r'
      → Adds (number c == allow) (some (some perm)) r r'
  unfolding number
  read_case-Adds (admin x y) perm r r' k l h = elim (read_admin x y perm r r' h) [
    | inl (e, f) ↦ rw (e, f) (add_permission-Adds x y r k l).0
    | inr (e, f) ↦ rw (e, f) (add_permission-Adds x y r k l).1
  ]
  read_case-Adds (entities a) perm r r' k l h =
      let (mp, e, f) = read_entities a perm r r' h in
      let (same, far) = set_permissions-admin a mp r in
      let no : (number (entities a) == allow) ≡ false = ground arith in
      rw (f, same, no) (ground arith, ground arith)

  module _ (label : String) (labelled : Dict.get cases label ≡ some (admin allow deny)) where
    read_action-Adds :
        (k : String) (v : Leaf) (r r' : Role)
        → read_action k v r ≡ ok r'
        → Adds (str_eq k label) (some v) r r'
    unfolding read_action number
    read_action-Adds k none r r' h = absurd (cc)
    read_action-Adds k (some perm) r r' h = elim (Option-cases (Dict.get cases k)) [
      | inl n ↦ absurd (ground (arith, n))
      | inr (c, at) ↦
          let same = number-label k label c (admin allow deny) at labelled in
          subst (λ b. Adds b (some (some perm)) r r') same
            (read_case-Adds c perm r r' (case-IsCoded k c at)
              (case-IsCoded label (admin allow deny) labelled) (ground (arith, at)))
    ]

    pub read_actions-Adds :
        (ms : Dict Leaf) (r r' : Role)
        → IsMap ms
        → read_actions ms r ≡ ok r'
        → Adds true (Dict.get ms label) r r'
    unfolding read_actions Dict.get
    read_actions-Adds [] r r' _ h = ground arith
    read_actions-Adds ((k, v) ∷ ms) r r' (new, once) h = elim (Parsed-cases (read_action k v r)) [
      | inr (e, bad) ↦ absurd (ground arith)
      | inl (r1, at) ↦
          let rest = read_actions-Adds ms r1 r' once (ground arith) in
          let step = read_action-Adds k v r r1 at in
          elim (Bool-cases (str_eq k label)) [
            | inl e ↦
                let gone : Dict.get ms label ≡ none =
                  subst (λ l. Dict.get ms l ≡ none) ((eq_iff k label).0 e) new in
                let rest' : Adds true none r1 r' = subst (λ o. Adds true o r1 r') gone rest in
                let step' : Adds true (some v) r r1 = subst (λ b. Adds b (some v) r r1) e step in
                rw e (ground arith, ground arith)
            | inr e ↦
                let step' : Adds false (some v) r r1 = subst (λ b. Adds b (some v) r r1) e step in
                rw e (ground arith, ground arith)
          ]
    ]
