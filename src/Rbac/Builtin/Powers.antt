-- ===== src/Rbac/Builtin/Powers.antt =====
-- What the roles of pkg/rbac/builtin.go permit.
use sybline.Base.{
  ◌≡◌, refl, ap, ◌∙◌, String, Bool, true, false, not, ◌&&◌, ◌||◌, none, some, List, [], ◌∷◌, ◌++◌,
  arith, if◌then◌else◌,
}
use sybline.Base.Words.{add32}
use sybline.Base.Dict
use sybline.Rbac.Role.{
  AdminPermission, Action, Role, get_messages_action, submit_message_action, submit_batch_action,
  ack_action, batch_ack_action, verdict, permissions_for,
}
use sybline.Rbac.Manager.{RoleManager, has_admin_permission, has_permission}
use sybline.Rbac.Precedence.{
  lists, says, some_lists, some_says, has_admin_permission-precedence, has_permission-precedence,
}
use sybline.Rbac.Create.{Case, entities, admin, cases}
use sybline.Rbac.Create.Labels.{get-AllCases}
use sybline.Rbac.Builtin
use sybline.Rbac.Builtin.{all_admin, deny_admin, root, deny, producer, consumer}

some_lists-among :
    (p : AdminPermission) (front : List Role) (r : Role) (back : List Role)
    → lists p r.admin_permissions ≡ true
    → some_lists p (front ++ r ∷ back) ≡ true
unfolding some_lists
some_lists-among p [] r back h = rw h refl
some_lists-among p (f ∷ front) r back h = ground (arith, some_lists-among p front r back h)

some_says-among :
    (v : Bool) (a : Action) (entity : String) (front : List Role) (r : Role) (back : List Role)
    → says v (verdict (permissions_for a r) entity) ≡ true
    → some_says v a entity (front ++ r ∷ back) ≡ true
unfolding some_says
some_says-among v a entity [] r back h = rw h refl
some_says-among v a entity (f ∷ front) r back h =
    ground (arith, some_says-among v a entity front r back h)

abbrev Listed : Case → Type 0
Listed (entities a) = Unit
Listed (admin allow d) =
    (lists allow all_admin ≡ true)
    × (lists d deny_admin ≡ true)
    × (add32 allow 1 ≡ d)
    × (lists d all_admin ≡ false)

case-Listed : (label : String) (c : Case) → Dict.get cases label ≡ some c → Listed c
unfolding lists add32
case-Listed label c = get-AllCases Listed cases label c (ground arith)

and_true : (b : Bool) → (b && true) ≡ b
and_true true = refl
and_true false = refl

verdict-root : (a : Action) (entity : String) → verdict (permissions_for a root) entity ≡ some true
unfolding verdict permissions_for Dict.get
verdict-root get_messages_action entity = refl
verdict-root submit_message_action entity = refl
verdict-root submit_batch_action entity = refl
verdict-root ack_action entity = refl
verdict-root batch_ack_action entity = refl

verdict-deny : (a : Action) (entity : String) → verdict (permissions_for a deny) entity ≡ some false
unfolding verdict permissions_for Dict.get
verdict-deny get_messages_action entity = refl
verdict-deny submit_message_action entity = refl
verdict-deny submit_batch_action entity = refl
verdict-deny ack_action entity = refl
verdict-deny batch_ack_action entity = refl

module _ (user label entity : String) (a : Action) (allow d : AdminPermission)
    (labelled : Dict.get cases label ≡ some (admin allow d)) (front back : List Role)
    (m : RoleManager) where
  -- Of a user among whose roles is DENY, HasPermission and HasAdminPermission refuse every action on
  -- every entity and every administrator's action, whatever the other roles are.
  pub deny_refuses :
      Dict.get m.users user ≡ some (front ++ deny ∷ back)
      → (has_permission user entity a m ≡ some false)
        × (has_admin_permission user allow m ≡ some false)
  deny_refuses u =
      let (_, denied, code, _) = case-Listed label (admin allow d) labelled in
      (
        has_permission-precedence user entity a m
            ∙ rw
                (
                  u,
                  some_says-among false a entity front deny back
                      (ap (says false) (verdict-deny a entity)),
                )
                refl,
        has_admin_permission-precedence user allow m
            ∙ rw (u, code, some_lists-among d front deny back denied) refl,
      )

  -- Of a user among whose roles is ROOT, HasPermission and HasAdminPermission allow exactly what no
  -- role of the user denies.
  pub root_allows :
      Dict.get m.users user ≡ some (front ++ root ∷ back)
      → (has_permission user entity a m
          ≡ some (not (some_says false a entity (front ++ root ∷ back))))
        × (has_admin_permission user allow m ≡ some (not (some_lists d (front ++ root ∷ back))))
  root_allows u =
      let (allowed, _, code, _) = case-Listed label (admin allow d) labelled in
      (
        has_permission-precedence user entity a m
            ∙ rw
                (
                  u,
                  some_says-among true a entity front root back
                      (ap (says true) (verdict-root a entity)),
                )
                (ap some (and_true (not (some_says false a entity (front ++ root ∷ back))))),
        has_admin_permission-precedence user allow m
            ∙ rw (u, code, some_lists-among allow front root back allowed)
                (ap some (and_true (not (some_lists d (front ++ root ∷ back))))),
      )

-- The built-in roles for one duty each.
pub data Duty : Type 0 where
  producing consuming administrating : Duty

abbrev pub role_of : Duty → Role
role_of producing = producer
role_of consuming = consumer
role_of administrating = Builtin.admin

-- What belongs to the duty.
abbrev pub permits : Duty → Action → Bool
permits producing submit_message_action = true
permits producing submit_batch_action = true
permits consuming get_messages_action = true
permits consuming ack_action = true
permits consuming batch_ack_action = true
permits _ _ = false

abbrev pub administers : Duty → Bool
administers administrating = true
administers _ = false

verdict-role_of :
    (duty : Duty) (a : Action) (entity : String)
    → verdict (permissions_for a (role_of duty)) entity
      ≡ (if permits duty a then some true else none)
unfolding verdict permissions_for Dict.get
verdict-role_of producing get_messages_action entity = refl
verdict-role_of producing submit_message_action entity = refl
verdict-role_of producing submit_batch_action entity = refl
verdict-role_of producing ack_action entity = refl
verdict-role_of producing batch_ack_action entity = refl
verdict-role_of consuming get_messages_action entity = refl
verdict-role_of consuming submit_message_action entity = refl
verdict-role_of consuming submit_batch_action entity = refl
verdict-role_of consuming ack_action entity = refl
verdict-role_of consuming batch_ack_action entity = refl
verdict-role_of administrating get_messages_action entity = refl
verdict-role_of administrating submit_message_action entity = refl
verdict-role_of administrating submit_batch_action entity = refl
verdict-role_of administrating ack_action entity = refl
verdict-role_of administrating batch_ack_action entity = refl

permitted :
    (b : Bool)
    → (not (says false (if b then some true else none) || false)
        && (says true (if b then some true else none) || false))
      ≡ b
permitted true = refl
permitted false = refl

all_lists :
    (allow d : AdminPermission)
    → Listed (admin allow d)
    → (not (some_lists d (Builtin.admin ∷ [])) && some_lists allow (Builtin.admin ∷ [])) ≡ true
unfolding some_lists
all_lists allow d (allowed, _, _, free) = rw (allowed, free) refl

duty_lists :
    (duty : Duty) (allow d : AdminPermission)
    → Listed (admin allow d)
    → (not (some_lists d (role_of duty ∷ [])) && some_lists allow (role_of duty ∷ []))
      ≡ administers duty
unfolding some_lists lists
duty_lists producing allow d h = refl
duty_lists consuming allow d h = refl
duty_lists administrating allow d h = all_lists allow d h

-- A user whose only role is PRODUCER may submit to every entity and do nothing else; one whose only
-- role is CONSUMER may fetch from and acknowledge on every entity and do nothing else; one whose only
-- role is ADMIN may do every administrator's action and nothing on an entity.
pub duties_apart :
    (duty : Duty) (user label entity : String) (a : Action) (allow d : AdminPermission)
    (m : RoleManager)
    → Dict.get cases label ≡ some (admin allow d)
    → Dict.get m.users user ≡ some (role_of duty ∷ [])
    → (has_permission user entity a m ≡ some (permits duty a))
      × (has_admin_permission user allow m ≡ some (administers duty))
unfolding some_says
duties_apart duty user label entity a allow d m labelled u =
    let listed = case-Listed label (admin allow d) labelled in
    (
      has_permission-precedence user entity a m
          ∙ rw (u, verdict-role_of duty a entity) (ap some (permitted (permits duty a))),
      has_admin_permission-precedence user allow m
          ∙ rw (u, listed.2) (ap some (duty_lists duty allow d listed)),
    )
