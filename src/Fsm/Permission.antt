-- ===== src/Fsm/Permission.antt =====
-- What permission each command of pkg/fsm needs.
use mathlib.Core.Option
use mathlib.Core.Logic.{◌⊎◌}
use sybline.Base.{
  ◌≡◌, refl, inl, inr, String, Bool, true, false, ◌&&◌, Option, none, some, List, [], ◌∷◌, Bytes,
  arith, Option-cases,
}
use sybline.Rbac.Role.{
  AdminPermission, Action, allow_create_queue, allow_delete_queue, allow_create_user,
  allow_delete_user, allow_create_role, allow_assign_role, allow_unassign_role,
  allow_change_password, allow_add_routing_key, allow_delete_routing_key, get_messages_action,
  submit_message_action, submit_batch_action, ack_action, batch_ack_action,
}
use sybline.Rbac.Manager.{RoleManager, has_admin_permission, has_permission}
use sybline.Fsm.Command
use sybline.Fsm.Command.{Op, Messages, Decoder, op_of}
use sybline.Fsm.Apply
use sybline.Fsm.Apply.{
  Error, State, Env, Outcome, fail, decoded, refusal, guarded, first_refusal, dispatch,
  apply_single,
}

-- A right of the administrator, or an action on each of some names.
pub data Need : Type 0 where
  admin : AdminPermission → Need
  each : Action → List String → Need

abbrev pub is_granted : Option Bool → Bool
is_granted none = false
is_granted (some b) = b

unfoldable pub may_each : String → Action → List String → RoleManager → Bool
may_each user action [] r = true
may_each user action (n ∷ ns) r =
    is_granted (has_permission user n action r) && may_each user action ns r

unfoldable pub may : String → RoleManager → Option Need → Bool
may user r none = false
may user r (some (admin p)) = is_granted (has_admin_permission user p r)
may user r (some (each action ns)) = may_each user action ns r

abbrev pub keys_of : List Messages → List String
keys_of [] = []
keys_of (m ∷ ms) = m.rk ∷ keys_of ms

abbrev on : Action → String → Need
on action name = each action (name ∷ [])

module _ (d : Decoder) where
  -- The table of needs; `none` for what is no command.
  unfoldable pub need : Op → Bytes → Option Need
  need Command.create_queue b = Option.map (λ q. admin allow_create_queue) (d.queue_info b)
  need Command.delete_queue b = Option.map (λ q. admin allow_delete_queue) (d.name b)
  need Command.submit_message b = Option.map (λ m. on submit_message_action m.rk) (d.message_info b)
  need Command.add_routing_key b = Option.map (λ q. admin allow_add_routing_key) (d.route b)
  need Command.delete_routing_key b = Option.map (λ q. admin allow_delete_routing_key) (d.route b)
  need Command.get_messages b = Option.map (λ q. on get_messages_action q.queue_name) (d.request b)
  need Command.ack b = Option.map (λ u. on ack_action u.queue_name) (d.ack_update b)
  need Command.nack b = Option.map (λ u. on ack_action u.queue_name) (d.ack_update b)
  need Command.create_account b = Option.map (λ c. admin allow_create_user) (d.creds b)
  need Command.change_password b = Option.map (λ c. admin allow_change_password) (d.change b)
  need Command.remove_locks b = none
  need Command.submit_batch_message b =
      Option.map (λ ms. each submit_batch_action (keys_of ms)) (d.batch_messages b)
  need Command.delete_user b = Option.map (λ n. admin allow_delete_user) (d.name b)
  need Command.batch_ack b = Option.map (λ u. on batch_ack_action u.queue_name) (d.batch_update b)
  need Command.batch_nack b = Option.map (λ u. on batch_ack_action u.queue_name) (d.batch_update b)
  need Command.create_role b = Option.map (λ r. admin allow_create_role) (d.role b)
  need Command.assign_role b = Option.map (λ r. admin allow_assign_role) (d.role_username b)
  need Command.unassign_role b = Option.map (λ r. admin allow_unassign_role) (d.role_username b)
  need Command.unknown b = none

  -- The entry is a command that its user may perform.
  unfoldable pub authorized : Bytes → RoleManager → Bool
  authorized entry r = elim (d.payload entry) [
    | none ↦ false
    | some p ↦ may p.username r (need (op_of p.op) p.content)
  ]

-- The command fails and leaves the state alone.
abbrev pub Refused : Outcome → State → Type 0
Refused o s = (e : Error) × (o ≡ fail e s)

guarded-Refused :
    (permitted : Option Bool) (s : State) (act : Outcome)
    → is_granted permitted ≡ false
    → Refused (guarded permitted s act) s
unfolding guarded refusal
guarded-Refused none s act h = (_, refl)
guarded-Refused (some true) s act h = absurd (ground arith)
guarded-Refused (some false) s act h = (_, refl)

one_of : (b : Bool) → (b && true) ≡ false → b ≡ false
one_of b h = ground arith

-- One name.
entity-Refused :
    (user name : String) (action : Action) (s : State) (act : Outcome)
    → may user s.rbac (some (on action name)) ≡ false
    → Refused (guarded (has_permission user name action s.rbac) s act) s
unfolding may may_each
entity-Refused user name action s act h =
    guarded-Refused (has_permission user name action s.rbac) s act (one_of _ h)

admin-Refused :
    (user : String) (p : AdminPermission) (s : State) (act : Outcome)
    → may user s.rbac (some (admin p)) ≡ false
    → Refused (guarded (has_admin_permission user p s.rbac) s act) s
unfolding may
admin-Refused user p s act h = guarded-Refused (has_admin_permission user p s.rbac) s act h

decoded-Refused :
    {A : Type 0} (o : Option A) (f : A → Outcome) (want : A → Need) (user : String) (s : State)
    → ((a : A) → may user s.rbac (some (want a)) ≡ false → Refused (f a) s)
    → may user s.rbac (Option.map want o) ≡ false
    → Refused (decoded o s f) s
unfolding decoded
decoded-Refused none f want user s step h = (_, refl)
decoded-Refused (some a) f want user s step h = step a h

refusal-cases :
    (o : Option Bool)
    → ((e : Error) × (refusal o ≡ some e)) ⊎ ((refusal o ≡ none) × (is_granted o ≡ true))
unfolding refusal
refusal-cases none = inl (_, refl)
refusal-cases (some true) = inr (refl, refl)
refusal-cases (some false) = inl (_, refl)

-- The loop of a batch refuses if one of its keys is refused.
first_refusal-refused :
    (user : String) (ms : List Messages) (r : RoleManager)
    → may_each user submit_batch_action (keys_of ms) r ≡ false
    → (e : Error) × (first_refusal user ms r ≡ some e)
unfolding first_refusal may_each
first_refusal-refused user [] r h = absurd (ground arith)
first_refusal-refused user (m ∷ ms) r h =
    elim (refusal-cases (has_permission user m.rk submit_batch_action r)) [
      | inl (e, refused) ↦ (e, rw (first_refusal, refused) refl)
      | inr (go, granted) ↦
          let (e, held) = first_refusal-refused user ms r (rw (may_each, granted) at h) in
          (e, rw (first_refusal, go) held)
    ]

batch-Refused :
    (env : Env) (user : String) (s : State) (ms : List Messages)
    → may user s.rbac (some (each submit_batch_action (keys_of ms))) ≡ false
    → Refused (Apply.submit_batch_message env user ms s) s
unfolding may Apply.submit_batch_message
batch-Refused env user s ms h =
    let (e, held) = first_refusal-refused user ms s.rbac h in
    (e, rw (Apply.submit_batch_message, held) refl)

module _ (d : Decoder) (env : Env) where
  dispatch-Refused :
      (op : Op) (user : String) (b : Bytes) (s : State)
      → may user s.rbac (need d op b) ≡ false
      → Refused (dispatch d env op user b s) s
  unfolding dispatch need Apply.create_queue Apply.delete_queue Apply.submit_message Apply.ack
      Apply.add_routing_key Apply.delete_routing_key Apply.get_messages Apply.nack Apply.batch_ack
      Apply.batch_nack Apply.create_account Apply.change_password Apply.delete_user
      Apply.create_role Apply.assign_role Apply.unassign_role
  dispatch-Refused Command.create_queue user b s =
      decoded-Refused _ _ _ user s λ q. admin-Refused user allow_create_queue s _
  dispatch-Refused Command.delete_queue user b s =
      decoded-Refused _ _ _ user s λ q. admin-Refused user allow_delete_queue s _
  dispatch-Refused Command.submit_message user b s =
      decoded-Refused _ _ _ user s λ m. entity-Refused user m.rk submit_message_action s _
  dispatch-Refused Command.add_routing_key user b s =
      decoded-Refused _ _ _ user s λ q. admin-Refused user allow_add_routing_key s _
  dispatch-Refused Command.delete_routing_key user b s =
      decoded-Refused _ _ _ user s λ q. admin-Refused user allow_delete_routing_key s _
  dispatch-Refused Command.get_messages user b s =
      decoded-Refused _ _ _ user s λ q. entity-Refused user q.queue_name get_messages_action s _
  dispatch-Refused Command.ack user b s =
      decoded-Refused _ _ _ user s λ u. entity-Refused user u.queue_name ack_action s _
  dispatch-Refused Command.nack user b s =
      decoded-Refused _ _ _ user s λ u. entity-Refused user u.queue_name ack_action s _
  dispatch-Refused Command.create_account user b s =
      decoded-Refused _ _ _ user s λ c. admin-Refused user allow_create_user s _
  dispatch-Refused Command.change_password user b s =
      decoded-Refused _ _ _ user s λ c. admin-Refused user allow_change_password s _
  dispatch-Refused Command.remove_locks user b s = λ h. (_, refl)
  dispatch-Refused Command.submit_batch_message user b s =
      decoded-Refused _ _ _ user s λ ms. batch-Refused env user s ms
  dispatch-Refused Command.delete_user user b s =
      decoded-Refused _ _ _ user s λ n. admin-Refused user allow_delete_user s _
  dispatch-Refused Command.batch_ack user b s =
      decoded-Refused _ _ _ user s λ u. entity-Refused user u.queue_name batch_ack_action s _
  dispatch-Refused Command.batch_nack user b s =
      decoded-Refused _ _ _ user s λ u. entity-Refused user u.queue_name batch_ack_action s _
  dispatch-Refused Command.create_role user b s =
      decoded-Refused _ _ _ user s λ r. admin-Refused user allow_create_role s _
  dispatch-Refused Command.assign_role user b s =
      decoded-Refused _ _ _ user s λ r. admin-Refused user allow_assign_role s _
  dispatch-Refused Command.unassign_role user b s =
      decoded-Refused _ _ _ user s λ r. admin-Refused user allow_unassign_role s _
  dispatch-Refused Command.unknown user b s = λ h. (_, refl)

  -- An entry that is no command its user may perform, by the table `need`, gets an error and leaves
  -- queues, accounts and roles as they are.
  pub apply_single-unauthorized :
      (entry : Bytes) (s : State)
      → authorized d entry s.rbac ≡ false
      → (e : Error) × (apply_single d env entry s ≡ fail e s)
  unfolding apply_single authorized decoded
  apply_single-unauthorized entry s h = elim (Option-cases (d.payload entry)) [
    | inl n ↦ (Apply.decoding_failed, rw (apply_single, n) refl)
    | inr (p, e) ↦
        let (err, held) =
          dispatch-Refused (op_of p.op) p.username p.content s (rw (authorized, e) at h) in
        (err, rw (apply_single, e) held)
  ]
