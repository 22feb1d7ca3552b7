-- ===== src/Rbac/Assign.antt =====
-- How often a user has a role, and what the operations of the role manager do to that number.
use mathlib.Core.Option
use sybline.Base.{
  ℕ, ◌+◌, ◌-◌, ◌≡◌, refl, ap, subst, inl, inr, String, Bool, true, false, Option, none, some, List,
  [], ◌∷◌, ◌++◌, str_eq, ◌==◌, eq_iff, swap_remove, count, one_if, count-append, count-swap_remove,
  index_where-some, index_where-none, if◌then◌else◌, arith, Bool-cases, Option-cases,
}
use sybline.Base.Dict
use sybline.Base.Dict.{Dict}
use sybline.Rbac.Role.{Role}
use sybline.Rbac.Manager.{
  RoleManager, role_does_not_exist, role_not_assigned, unassign_role, remove, index_of,
  remove_named, strip_role, delete_role, assign_role,
}

abbrev pub named : String → Role → Bool
named name r = str_eq r.name name

abbrev pub roles_of : Option (List Role) → List Role
roles_of none = []
roles_of (some rs) = rs

-- How often the user has a role of this name.
abbrev pub times : (user name : String) → RoleManager → ℕ
times user name m = count (named name) (roles_of (Dict.get m.users user))

-- A list after the first role of the name was taken out, if there is one.
abbrev stripped : String → List Role → List Role
stripped role rs = elim (remove_named role rs) [ none ↦ rs | some left ↦ left ]

same_name : (r : Role) (a b : String) → named a r ≡ true → named b r ≡ str_eq a b
same_name r a b h = ap (λ w. str_eq w b) ((eq_iff r.name a).0 h)

-- The number of roles with the name `b` after the first role with the name `a` went.
abbrev pub one_less : (a b : String) → ℕ → ℕ
one_less a b n = if str_eq a b then n - 1 else n

-- The index at which the loop stops, and one role less of that name.
taken :
    (a b : String) (rs : List Role) (i : ℕ)
    → index_of a rs ≡ some i
    → count (named b) (remove rs i) ≡ one_less a b (count (named b) rs)
unfolding index_of remove
taken a b rs i e =
    let (r, at, hit) = index_where-some (named a) rs i e in
    let less : count (named b) (swap_remove rs i) + one_if (str_eq a b) ≡ count (named b) rs =
      rw (← same_name r a b hit) (count-swap_remove (named b) rs i r at) in
    elim (Bool-cases (str_eq a b)) [
      | inl same ↦ rw same (omega (arith, rw same at less))
      | inr other ↦ rw other (omega (arith, rw other at less))
    ]

none_left :
    (a b : String) (rs : List Role)
    → index_of a rs ≡ none
    → count (named b) rs ≡ one_less a b (count (named b) rs)
unfolding index_of
none_left a b rs n = elim (Bool-cases (str_eq a b)) [
  | inr other ↦ rw other refl
  | inl same ↦
      let zero_times : count (named b) rs ≡ 0 =
        subst (λ w. count (named w) rs ≡ 0) ((eq_iff a b).0 same)
          (index_where-none (named a) rs n) in
      rw (same, zero_times) (omega arith)
]

count-stripped :
    (a b : String) (rs : List Role)
    → count (named b) (stripped a rs) ≡ one_less a b (count (named b) rs)
unfolding remove_named
count-stripped a b rs = elim (Option-cases (index_of a rs)) [
  | inl n ↦ rw (stripped, remove_named, n) (none_left a b rs n)
  | inr (i, e) ↦ rw (stripped, remove_named, e) (taken a b rs i e)
]

get-strip_role :
    (role : String) (users : Dict (List Role)) (user : String)
    → Dict.get (strip_role role users) user ≡ Option.map (stripped role) (Dict.get users user)
unfolding Dict.get strip_role
get-strip_role role [] user = refl
get-strip_role role ((u, rs) ∷ users) user = elim (Bool-cases (str_eq u user)) [
  | inl e ↦ rw (Dict.get, strip_role, e) refl
  | inr e ↦ rw (Dict.get, strip_role, e) (get-strip_role role users user)
]

counted :
    (a b : String) (o : Option (List Role))
    → count (named b) (roles_of (Option.map (stripped a) o))
      ≡ one_less a b (count (named b) (roles_of o))
unfolding count
counted a b none = ground arith
counted a b (some rs) = count-stripped a b rs

-- DeleteRole fails exactly if there is no role of the name. In either case no role of the name is left
-- and the other roles stay. If it succeeds, each user who has a role of this name has it once less,
-- not necessarily not at all, and if it fails, as often as before; how often a user has a role of
-- another name does not change.
pub delete_role-times :
    (a : String) (m : RoleManager)
    → ((delete_role a m).0
        ≡ elim (Dict.get m.roles a) [ none ↦ some role_does_not_exist | some r ↦ none ])
      × ((b : String)
          → Dict.get (delete_role a m).1.roles b
            ≡ (if str_eq a b then none else Dict.get m.roles b))
      × ((user b : String)
          → times user b (delete_role a m).1 ≡ elim (Dict.get m.roles a) [
            | none ↦ times user b m
            | some r ↦ one_less a b (times user b m)
          ])
unfolding delete_role
delete_role-times a m = elim (Option-cases (Dict.get m.roles a)) [
  | inl n ↦ (
    rw (delete_role, n) refl,
    λ b.
        rw (delete_role, n)
          (elim (Bool-cases (str_eq a b)) [
            | inl same ↦ rw same (subst (λ w. Dict.get m.roles w ≡ none) ((eq_iff a b).0 same) n)
            | inr other ↦ rw other refl
          ]),
    λ user b. rw (delete_role, n) refl,
  )
  | inr (r, e) ↦ (
    rw (delete_role, e) refl,
    λ b. rw (delete_role, e) (Dict.get-delete m.roles a b),
    λ user b.
        rw (delete_role, e)
          (rw (get-strip_role a m.users user) (counted a b (Dict.get m.users user))),
  )
]

-- One role more in the list of `user`.
put-count :
    (user u b : String) (r : Role) (users : Dict (List Role)) (rs : List Role)
    → roles_of (Dict.get users user) ≡ rs
    → count (named b) (roles_of (Dict.get (Dict.put users user (rs ++ r ∷ [])) u))
      ≡ count (named b) (roles_of (Dict.get users u))
        + one_if (if str_eq user u then str_eq r.name b else false)
unfolding count
put-count user u b r users rs h = elim (Bool-cases (str_eq user u)) [
  | inl e ↦
      let old : roles_of (Dict.get users u) ≡ rs =
        subst (λ w. roles_of (Dict.get users w) ≡ rs) ((eq_iff user u).0 e) h in
      rw (Dict.get-put users user u (rs ++ r ∷ []), e, old)
        (omega (arith, count-append (named b) rs (r ∷ [])))
  | inr e ↦ rw (Dict.get-put users user u (rs ++ r ∷ []), e) (omega arith)
]

-- AssignRole of a known role succeeds, and the user has it once more than before; a user who has it
-- already has it twice. Nobody else's roles change.
pub assign_role-times :
    (user name : String) (r : Role) (m : RoleManager)
    → Dict.get m.roles name ≡ some r
    → ((assign_role user name m).0 ≡ none)
      × ((u b : String)
          → times u b (assign_role user name m).1
            ≡ times u b m + one_if (if str_eq user u then str_eq r.name b else false))
unfolding assign_role
assign_role-times user name r m e = elim (Option-cases (Dict.get m.users user)) [
  | inl n ↦ (
    rw (assign_role, e, n) refl,
    λ u b. rw (assign_role, e, n) (put-count user u b r m.users [] (ap roles_of n)),
  )
  | inr (rs, h) ↦ (
    rw (assign_role, e, h) refl,
    λ u b. rw (assign_role, e, h) (put-count user u b r m.users rs (ap roles_of h)),
  )
]

positive :
    (a : String) (rs : List Role) (i : ℕ)
    → index_of a rs ≡ some i
    → (count (named a) rs == 0) ≡ false
unfolding index_of
positive a rs i e =
    let (r, at, hit) = index_where-some (named a) rs i e in
    let less = count-swap_remove (named a) rs i r at in
    let less' : count (named a) (swap_remove rs i) + 1 ≡ count (named a) rs = rw hit at less in
    ground arith

-- What is put for `user`, and nothing for another user.
put-times :
    (user u b : String) (users : Dict (List Role)) (old new : List Role) (n : ℕ → ℕ)
    → Dict.get users user ≡ some old
    → count (named b) new ≡ n (count (named b) old)
    → count (named b) (roles_of (Dict.get (Dict.put users user new) u)) ≡ (
        if str_eq user u
        then n (count (named b) (roles_of (Dict.get users u)))
        else count (named b) (roles_of (Dict.get users u)))
put-times user u b users old new n h e = elim (Bool-cases (str_eq user u)) [
  | inl same ↦
      let there : Dict.get users u ≡ some old =
        subst (λ w. Dict.get users w ≡ some old) ((eq_iff user u).0 same) h in
      rw (Dict.get-put users user u new, same, there) e
  | inr other ↦ rw (Dict.get-put users user u new, other) refl
]

-- UnassignRole of a known role from a user with a list of roles fails exactly if the user does not
-- have it, and otherwise takes it away once. Nobody else's roles change.
pub unassign_role-times :
    (user name : String) (r : Role) (rs : List Role) (m : RoleManager)
    → Dict.get m.roles name ≡ some r
    → Dict.get m.users user ≡ some rs
    → ((unassign_role user name m).0
        ≡ (if count (named name) rs == 0 then some role_not_assigned else none))
      × ((u b : String)
          → times u b (unassign_role user name m).1
            ≡ (if str_eq user u then one_less name b (times u b m) else times u b m))
unfolding unassign_role remove_named
unassign_role-times user name r rs m e h = elim (Option-cases (index_of name rs)) [
  | inl n ↦
      let nothing : count (named name) rs ≡ 0 =
        index_where-none (named name) rs (unfold index_of in n) in
      (
        rw (unassign_role, e, h, remove_named, n, nothing) refl,
        λ u b.
            rw (unassign_role, e, h, remove_named, n)
              (elim (Bool-cases (str_eq user u)) [
                | inl same ↦
                    let there : Dict.get m.users u ≡ some rs =
                      subst (λ w. Dict.get m.users w ≡ some rs) ((eq_iff user u).0 same) h in
                    rw (same, there) (none_left name b rs n)
                | inr other ↦ rw other refl
              ]),
      )
  | inr (i, n) ↦ (
    rw (unassign_role, e, h, remove_named, n, positive name rs i n) refl,
    λ u b.
        rw (unassign_role, e, h, remove_named, n)
          (put-times user u b m.users rs (remove rs i) (one_less name b) h (taken name b rs i n)),
  )
]
