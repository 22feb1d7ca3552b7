-- ===== src/Rbac/Create/Order.antt =====
-- The order in which CreateRole of pkg/rbac/rbacManager.go visits the map of actions.
use sybline.Base.{
  ◌≡◌, refl, sym, subst, ◌∙◌, inl, inr, String, Bool, true, false, ◌&&◌, Option, none, some, [],
  ◌∷◌, ◌==◌, str_eq, eq_iff, eq_refl, arith, Bool-cases, Option-cases, length,
}
use sybline.Base.Dict
use sybline.Base.Dict.{Dict}
use sybline.Rbac.Role.{Role}
use sybline.Rbac.Manager.{RoleManager}
use sybline.Rbac.Parse.{Parsed, ok, err, Parsed-cases, parse_admin_permissions, parse_permissions}
use sybline.Rbac.Create.{
  Leaf, Value, text, object, other, Case, entities, admin, cases, read_case, read_action,
  read_actions, empty_role, read_object, read_named, create_role,
}
use sybline.Rbac.Create.Labels.{IsMap}
use sybline.Rbac.Create.Accepted.{Visits, actions_of, object_of}

abbrev pub is_ok {ℓ} : {A : Type ℓ} → Parsed A → Bool
is_ok (ok a) = true
is_ok (err e) = false

abbrev blank : Role
blank = empty_role "" ""

read_case-is_ok :
    (c : Case) (perm : String) (r : Role)
    → is_ok (read_case c perm r) ≡ is_ok (read_case c perm blank)
unfolding read_case
read_case-is_ok (entities a) perm r = elim (Parsed-cases (parse_permissions perm)) [
  | inl (mp, e) ↦ rw e refl
  | inr (x, e) ↦ rw e refl
]
read_case-is_ok (admin x y) perm r = elim (Parsed-cases (parse_admin_permissions perm)) [
  | inl (b, e) ↦ rw e refl
  | inr (x, e) ↦ rw e refl
]

read_action-is_ok :
    (k : String) (v : Leaf) (r : Role) → is_ok (read_action k v r) ≡ is_ok (read_action k v blank)
unfolding read_action
read_action-is_ok k none r = refl
read_action-is_ok k (some perm) r = elim (Option-cases (Dict.get cases k)) [
  | inl n ↦ rw (n, read_action) refl
  | inr (c, at) ↦ rw (at, read_action) (read_case-is_ok c perm r)
]

all_ok : Dict Leaf → Bool
all_ok [] = true
all_ok ((k, v) ∷ ms) = is_ok (read_action k v blank) && all_ok ms

read_actions-is_ok : (ms : Dict Leaf) (r : Role) → is_ok (read_actions ms r) ≡ all_ok ms
unfolding read_actions all_ok
read_actions-is_ok [] r = refl
read_actions-is_ok ((k, v) ∷ ms) r =
    rw (sym (read_action-is_ok k v r)) (elim (Parsed-cases (read_action k v r)) [
      | inl (r1, e) ↦ rw e (read_actions-is_ok ms r1)
      | inr (x, e) ↦ rw e refl
    ])

all_ok-get :
    (ms : Dict Leaf) (k : String) (v : Leaf)
    → all_ok ms ≡ true
    → Dict.get ms k ≡ some v
    → is_ok (read_action k v blank) ≡ true
unfolding all_ok Dict.get
all_ok-get [] k v h g = absurd (cc)
all_ok-get ((j, w) ∷ ms) k v h g = elim (Bool-cases (str_eq j k)) [
  | inl e ↦
      let here : is_ok (read_action j w blank) ≡ true = ground arith in
      let found : some w ≡ some v = ground arith in
      let at : w ≡ v = ground (arith, found) in
      subst (λ l. is_ok (read_action l v blank) ≡ true) ((eq_iff j k).0 e)
        (subst (λ x. is_ok (read_action j x blank) ≡ true) at here)
  | inr e ↦ all_ok-get ms k v (ground arith) (ground arith)
]

get-all_ok :
    (ms : Dict Leaf)
    → IsMap ms
    → ((k : String) (v : Leaf) → Dict.get ms k ≡ some v → is_ok (read_action k v blank) ≡ true)
    → all_ok ms ≡ true
unfolding all_ok Dict.get
get-all_ok [] _ h = refl
get-all_ok ((j, w) ∷ ms) (new, once) h =
    let here : is_ok (read_action j w blank) ≡ true = h j w (rw (eq_refl j) refl) in
    let rest = get-all_ok ms once (λ k v g. h k v (ground (arith, eq_iff j k))) in
    rw (here, rest) refl

all_ok-Visits :
    (visit visit' : Dict Leaf → Dict Leaf) (actions : Dict Leaf)
    → Visits visit actions
    → Visits visit' actions
    → all_ok (visit actions) ≡ true
    → all_ok (visit' actions) ≡ true
all_ok-Visits visit visit' actions v v' h =
    get-all_ok (visit' actions) v'.once
      (λ k x g. all_ok-get (visit actions) k x h (v.same k ∙ sym (v'.same k) ∙ g))

eq_by_truth : (a b : Bool) → (a ≡ true → b ≡ true) → (b ≡ true → a ≡ true) → a ≡ b
eq_by_truth true b f g = sym (f refl)
eq_by_truth false true f g = g refl
eq_by_truth false false f g = refl

module _ (unmarshal : String → Option (Dict Value)) (visit visit' : Dict Leaf → Dict Leaf)
    (actions : Dict Leaf) (first : Visits visit actions) (second : Visits visit' actions) where
  read_object-is_ok :
      (value : Option Value) (r : Role)
      → object_of value ≡ some actions
      → is_ok (read_object unmarshal visit value r) ≡ is_ok (read_object unmarshal visit' value r)
  unfolding read_object
  read_object-is_ok none r h = refl
  read_object-is_ok (some (text s)) r h = refl
  read_object-is_ok (some other) r h = refl
  read_object-is_ok (some (object found)) r h =
      let same : found ≡ actions = ground (arith, h) in
      let both : all_ok (visit found) ≡ all_ok (visit' found) =
        subst (λ l. all_ok (visit l) ≡ all_ok (visit' l)) (sym same)
          (eq_by_truth (all_ok (visit actions)) (all_ok (visit' actions))
            (all_ok-Visits visit visit' actions first second)
            (all_ok-Visits visit' visit actions second first)) in
      elim (Bool-cases (length found == 0)) [
        | inl e ↦ rw e refl
        | inr e ↦
            rw e (
              read_actions-is_ok (visit found) r ∙ both ∙ sym (read_actions-is_ok (visit' found) r))
      ]

  read_named-is_ok :
      (value : Option Value) (role_data : Dict Value) (json : String) (m : RoleManager)
      → object_of (Dict.get role_data "actions") ≡ some actions
      → is_ok (read_named unmarshal visit value role_data json m)
        ≡ is_ok (read_named unmarshal visit' value role_data json m)
  unfolding read_named
  read_named-is_ok none role_data json m h = refl
  read_named-is_ok (some (object found)) role_data json m h = refl
  read_named-is_ok (some other) role_data json m h = refl
  read_named-is_ok (some (text name)) role_data json m h = elim (Bool-cases (str_eq name "")) [
    | inl e ↦ rw e refl
    | inr e ↦ rw e (elim (Option-cases (Dict.get m.roles name)) [
      | inr (r, taken) ↦ rw (taken) refl
      | inl new ↦ rw new (read_object-is_ok (Dict.get role_data "actions") (empty_role name json) h)
    ])
  ]

  -- Whether CreateRole accepts a JSON text does not hang on the order in which the loop visits the
  -- map of actions, as long as each order visits every entry once.
  pub create_role-is_ok :
      (json : String) (m : RoleManager)
      → actions_of unmarshal json ≡ some actions
      → is_ok (create_role unmarshal visit json m) ≡ is_ok (create_role unmarshal visit' json m)
  unfolding create_role
  create_role-is_ok json m read = elim (Option-cases (unmarshal json)) [
    | inl n ↦ rw (n, create_role) refl
    | inr (role_data, at) ↦
        rw (at, create_role)
          (read_named-is_ok (Dict.get role_data "role") role_data json m (ground (arith, at, read)))
  ]
