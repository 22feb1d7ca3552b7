-- ===== src/Fsm/Accounts.antt =====
-- The accounts of pkg/auth under the commands of pkg/fsm.
use sybline.Base.{
  ℕ, suc, ◌≡◌, subst, inl, inr, String, Bool, true, false, Option, none, some, List, [], ◌∷◌, Bytes,
  length, ◌==◌, ◌||◌, Bool-cases, Option-cases,
}
use sybline.Core.Run.{Run, ok, panic, out_of_fuel, ◌>>=◌}
use sybline.Rbac.Manager
use sybline.Auth.Account
use sybline.Auth.Account.Unique.{
  IsAccounts, create_user-IsAccounts, change_password-IsAccounts, delete_user-IsAccounts,
}
use sybline.Fsm.Command
use sybline.Fsm.Command.{Op, Messages, Decoder, RoleUsername, op_of}
use sybline.Fsm.Apply
use sybline.Fsm.Apply.{
  Result, State, Env, Outcome, fail, decoded, refusal, guarded, dispatch, apply_single,
}
use sybline.Fsm.Log.{apply_entries, apply, Answer}

abbrev pub Kept : State → Type 0
Kept s = IsAccounts s.auth.credentials

-- If the run comes to an end, the accounts are well-formed in its state.
abbrev pub Ends : {R : Type 0} → Run (R × State) → Type 0
Ends (ok (r, t)) = Kept t
Ends panic = Unit
Ends out_of_fuel = Unit

guarded-Kept :
    (permitted : Option Bool) (s : State) (act : Outcome)
    → Kept s
    → Ends act
    → Ends (guarded permitted s act)
unfolding guarded refusal
guarded-Kept none s act w a = w
guarded-Kept (some true) s act w a = a
guarded-Kept (some false) s act w a = w

decoded-Kept :
    {A : Type 0} (o : Option A) (s : State) (f : A → Outcome)
    → Kept s
    → ((a : A) → Ends (f a))
    → Ends (decoded o s f)
unfolding decoded
decoded-Kept none s f w step = w
decoded-Kept (some a) s f w step = step a

-- A command that runs the queues and then returns a state with the same accounts.
bind-Kept :
    {A : Type 0} (run : Run A) (f : A → Result × State)
    → ((a : A) → Kept (f a).1)
    → Ends (run >>= λ a. ok (f a))
bind-Kept (ok a) f w = w a
bind-Kept panic f w = tt
bind-Kept out_of_fuel f w = tt

known-Kept :
    (r : RoleUsername) (s : State) (act : Outcome)
    → Kept s
    → Ends act
    → Ends (Apply.with_known r s act)
unfolding Apply.with_known
known-Kept r s act w a = elim (Bool-cases (Account.user_exists r.username s.auth.credentials)) [
  | inr missing ↦ rw (Apply.with_known, missing) w
  | inl found ↦ elim (Bool-cases (Manager.role_exists r.role s.rbac)) [
    | inr missing ↦ rw (Apply.with_known, found, missing) w
    | inl there ↦ rw (Apply.with_known, found, there) a
  ]
]

batch-Kept :
    (env : Env) (user : String) (ms : List Messages) (s : State)
    → Kept s
    → Ends (Apply.submit_batch_message env user ms s)
unfolding Apply.submit_batch_message
batch-Kept env user ms s w = elim (Option-cases (Apply.first_refusal user ms s.rbac)) [
  | inr (e, refused) ↦ rw (Apply.submit_batch_message, refused) w
  | inl go ↦
      rw (Apply.submit_batch_message, go) (bind-Kept (Apply.submit_all env 0 ms s.broker) _ λ r. w)
]

module _ (d : Decoder) (env : Env) where
  dispatch-Kept :
      (op : Op) (user : String) (b : Bytes) (s : State) → Kept s → Ends (dispatch d env op user b s)
  unfolding dispatch Apply.create_queue Apply.delete_queue Apply.submit_message Apply.ack
      Apply.add_routing_key Apply.delete_routing_key Apply.get_messages Apply.nack Apply.batch_ack
      Apply.batch_nack Apply.create_account Apply.change_password Apply.delete_user
      Apply.create_role Apply.assign_role Apply.unassign_role
  dispatch-Kept Command.create_queue user b s w = decoded-Kept _ s _ w λ q. guarded-Kept _ s _ w w
  dispatch-Kept Command.delete_queue user b s w = decoded-Kept _ s _ w λ q. guarded-Kept _ s _ w w
  dispatch-Kept Command.submit_message user b s w =
      decoded-Kept _ s _ w λ q. guarded-Kept _ s _ w (bind-Kept _ _ λ r. w)
  dispatch-Kept Command.add_routing_key user b s w =
      decoded-Kept _ s _ w λ q. guarded-Kept _ s _ w w
  dispatch-Kept Command.delete_routing_key user b s w =
      decoded-Kept _ s _ w λ q. guarded-Kept _ s _ w (bind-Kept _ _ λ r. w)
  dispatch-Kept Command.get_messages user b s w =
      decoded-Kept _ s _ w λ q. guarded-Kept _ s _ w (bind-Kept _ _ λ r. w)
  dispatch-Kept Command.ack user b s w =
      decoded-Kept _ s _ w λ q. guarded-Kept _ s _ w (bind-Kept _ _ λ r. w)
  dispatch-Kept Command.nack user b s w =
      decoded-Kept _ s _ w λ q. guarded-Kept _ s _ w (bind-Kept _ _ λ r. w)
  dispatch-Kept Command.create_account user b s w = decoded-Kept _ s _ w λ c.
      guarded-Kept _ s _ w
        (create_user-IsAccounts env.key env.random c.username c.password s.auth w)
  dispatch-Kept Command.change_password user b s w = decoded-Kept _ s _ w λ c.
      guarded-Kept _ s _ w (
        change_password-IsAccounts env.key env.random c.username c.old_password c.new_password
          s.auth w)
  dispatch-Kept Command.remove_locks user b s w = w
  dispatch-Kept Command.submit_batch_message user b s w =
      decoded-Kept _ s _ w λ ms. batch-Kept env user ms s w
  dispatch-Kept Command.delete_user user b s w =
      decoded-Kept _ s _ w λ n. guarded-Kept _ s _ w (delete_user-IsAccounts n s.auth w)
  dispatch-Kept Command.batch_ack user b s w =
      decoded-Kept _ s _ w λ q. guarded-Kept _ s _ w (bind-Kept _ _ λ r. w)
  dispatch-Kept Command.batch_nack user b s w =
      decoded-Kept _ s _ w λ q. guarded-Kept _ s _ w (bind-Kept _ _ λ r. w)
  dispatch-Kept Command.create_role user b s w = decoded-Kept _ s _ w λ q. guarded-Kept _ s _ w w
  dispatch-Kept Command.assign_role user b s w =
      decoded-Kept _ s _ w λ r. guarded-Kept _ s _ w (known-Kept r s _ w w)
  dispatch-Kept Command.unassign_role user b s w =
      decoded-Kept _ s _ w λ r. guarded-Kept _ s _ w (known-Kept r s _ w w)
  dispatch-Kept Command.unknown user b s w = w

  apply_single-Kept : (entry : Bytes) (s : State) → Kept s → Ends (apply_single d env entry s)
  unfolding apply_single
  apply_single-Kept entry s w =
      decoded-Kept (d.payload entry) s _ w λ p. dispatch-Kept (op_of p.op) p.username p.content s w

module _ (d : Decoder) (env : ℕ → Env) where
  collected :
      (run : Run (List Result × State))
      → Ends run
      → Ends (do (rs, t) ← run; ok (Answer.results rs, t))
  collected (ok (rs, t)) h = h
  collected panic h = tt
  collected out_of_fuel h = tt

  -- One entry, and then the others.
  one_more :
      (run : Outcome) (rest : State → Run (List Result × State))
      → Ends run
      → ((t : State) → Kept t → Ends (rest t))
      → Ends (do (r, t) ← run; (rs, u) ← rest t; ok (r ∷ rs, u))
  one_more (ok (r, t)) rest a step = go (rest t) (step t a)
    where
      go : (run : Run (List Result × State)) → Ends run → Ends (do (rs, u) ← run; ok (r ∷ rs, u))
      go (ok (rs, u)) h = h
      go panic h = tt
      go out_of_fuel h = tt
  one_more panic rest a step = tt
  one_more out_of_fuel rest a step = tt

  apply_entries-Kept :
      (i : ℕ) (es : List Bytes) (s : State) → Kept s → Ends (apply_entries d env i es s)
  unfolding apply_entries
  apply_entries-Kept i [] s w = w
  apply_entries-Kept i (e ∷ es) s w = elim (Bool-cases (length e == 0)) [
    | inl empty ↦ rw (apply_entries, empty) (apply_entries-Kept (suc i) es s w)
    | inr some_bytes ↦
        rw (apply_entries, some_bytes)
          (one_more (apply_single d (env i) e s) (apply_entries d env (suc i) es)
            (apply_single-Kept d (env i) e s w) (apply_entries-Kept (suc i) es))
  ]

  apply-Ends :
      (raft_log : Bool) (content : Bytes) (s : State)
      → Kept s
      → Ends (apply d env raft_log content s)
  unfolding apply
  apply-Ends raft_log content s w = elim (Bool-cases (raft_log || (length content == 0))) [
    | inl skip ↦ rw (apply, skip) w
    | inr go ↦ elim (Option-cases (d.entries content)) [
      | inl n ↦ rw (apply, go, n) w
      | inr (es, e) ↦
          rw (apply, go, e) (collected (apply_entries d env 0 es s) (apply_entries-Kept 0 es s w))
    ]
  ]

  -- Whatever a log record holds, and whatever salts, orders and keys its entries run with: when
  -- Apply comes to an end, each user name still has at most one entry of credentials, and there is
  -- an account.
  pub apply-IsAccounts :
      (raft_log : Bool) (content : Bytes) (s : State) (answer : Answer) (t : State)
      → IsAccounts s.auth.credentials
      → apply d env raft_log content s ≡ ok (answer, t)
      → IsAccounts t.auth.credentials
  apply-IsAccounts raft_log content s answer t w e = subst Ends e (apply-Ends raft_log content s w)
