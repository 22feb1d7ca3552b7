-- ===== src/Handler/Grouped.antt =====
-- The loop of SubmitBatchedMessages in pkg/handler/Handler.go, and what the state machine asks of it.
use mathlib.Core.List.{Permᴰ}
use sybline.Base.{
  ℕ, suc, ◌≡◌, refl, ap, ◌∙◌, sym, inl, inr, String, Bool, true, Option, none, some, List, [], ◌∷◌,
  Bytes, arith, str_eq, Bool-cases, Option-cases,
}
use sybline.Base.Dict
use sybline.Base.Dict.{Dict}
use sybline.Rbac.Role.{submit_batch_action}
use sybline.Rbac.Manager.{RoleManager, has_permission}
use sybline.Fsm.Command.{Decoder, Messages}
use sybline.Fsm.Permission.{is_granted, may_each, keys_of}
use sybline.Handler.Sending.{Handled, Context, Server, values}
use sybline.Handler.Request.{group}
use sybline.Handler.Granted.{Granted, valid-Granted, permitted-Granted}

module _ (r : RoleManager) (user : String) where
  abbrev pub AllMay : List Messages → Type 0
  AllMay ms = may_each user submit_batch_action (keys_of ms) r ≡ true

  abbrev pub submits : String → Bool
  submits rk = is_granted (has_permission user rk submit_batch_action r)

  -- A key of the map was checked when it was put there.
  get-AllMay :
      (routes : Dict Messages) (k : String) (m : Messages)
      → AllMay (values routes)
      → Dict.get routes k ≡ some m
      → submits m.rk ≡ true
  unfolding Dict.get may_each
  get-AllMay [] k m a e = ground arith
  get-AllMay ((j, w) ∷ routes) k m a e = elim (Bool-cases (str_eq j k)) [
    | inl hit ↦
        let same : some w ≡ some m = rw (Dict.get, hit) at e in
        let first : submits w.rk ≡ true = ground arith in
        ap (λ o. submits (rk_of w o)) (sym same) ∙ first
    | inr miss ↦ get-AllMay routes k m (ground arith) (rw (Dict.get, miss) at e)
  ]
    where
      rk_of : Messages → Option Messages → String
      rk_of w none = w.rk
      rk_of w (some m) = m.rk

  put-AllMay :
      (routes : Dict Messages) (k : String) (m : Messages)
      → AllMay (values routes)
      → submits m.rk ≡ true
      → AllMay (values (Dict.put routes k m))
  unfolding Dict.put may_each
  put-AllMay [] k m a e = rw e refl
  put-AllMay ((j, w) ∷ routes) k m a e = elim (Bool-cases (str_eq j k)) [
    | inl hit ↦ rw (Dict.put, hit) (ground arith)
    | inr miss ↦
        let rest = put-AllMay routes k m (ground arith) e in rw (Dict.put, miss) (ground arith)
  ]

  -- The order in which the map is visited does not matter.
  pub AllMay-Perm : {ms ns : List Messages} → Permᴰ ms ns → AllMay ns → AllMay ms
  unfolding may_each
  AllMay-Perm Permᴰ.nil a = a
  AllMay-Perm (Permᴰ.cons {a = x} {b = y} e p) a =
      let first : submits x.rk ≡ submits y.rk = ap (λ z. submits z.rk) e in
      let rest = AllMay-Perm p (ground arith) in ground arith
  AllMay-Perm (Permᴰ.swap {a = x} {b = y} {a' = x'} {b' = y'} e f) a =
      let first : submits x.rk ≡ submits y'.rk = ap (λ z. submits z.rk) e in
      let second : submits y.rk ≡ submits x'.rk = ap (λ z. submits z.rk) f in ground arith
  AllMay-Perm (Permᴰ.trans p q) a = AllMay-Perm p (AllMay-Perm q a)

module _ (d : Decoder) (s : Server) (ctx : Context) (user : String) (f : Dict Messages → Handled)
    (g : (routes : Dict Messages)
      → AllMay s.rbac user (values routes)
      → Granted d s.rbac (f routes)) where
  pub group-Granted :
      (n : ℕ) (ms : List (String × Bytes)) (routes : Dict Messages)
      → AllMay s.rbac user (values routes)
      → Granted d s.rbac (group s ctx user n ms routes f)
  unfolding group
  group-Granted n [] routes a = g routes a
  group-Granted n ((rk, content) ∷ ms) routes a = elim (Option-cases (Dict.get routes rk)) [
    | inr (old, e) ↦
        rw (group, e)
          (valid-Granted d s.rbac _ _ (
            group-Granted (suc n) ms _
              (put-AllMay s.rbac user routes rk _ a (get-AllMay s.rbac user routes rk old a e))))
    | inl missing ↦
        rw (group, missing)
          (valid-Granted d s.rbac _ _ (
            permitted-Granted d s.rbac _ _
              λ e. group-Granted (suc n) ms _ (put-AllMay s.rbac user routes rk _ a e)))
  ]
