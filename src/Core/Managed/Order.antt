-- ===== src/Core/Managed/Order.antt =====
-- The order in which the goroutines of AddMessage of pkg/core/Broker.go get their locks.
use mathlib.Core.List.{Permᴰ}
use sybline.Base.{
  ◌≡◌, refl, ap, ap₂, sym, ◌∙◌, fun_ext, inl, inr, false, none, some, List, Bytes, String, ◌==◌,
  ==→eq, arith, Bool-cases, Option-cases, if◌then◌else◌,
}
use sybline.Base.Dict
use sybline.Base.Dict.{Dict}
use sybline.Core.QueueManager.{Ref}
use sybline.Core.Managed.{Contents, update, pushed, submitted, submitted_all}

module _ (id val : Bytes) where
  abbrev push_at : Ref → (Ref → Contents) → Ref → Contents
  push_at r c = update c r (pushed id val (c r))

  -- Two queues, one after the other.
  push_twice :
      (r s : Ref) (c : Ref → Contents) (t : Ref)
      → (s == r) ≡ false
      → push_at s (push_at r c) t ≡ (if t == s then pushed id val (c s) else push_at r c t)
  push_twice r s c t differ = rw differ refl

  push_commutes :
      (r s : Ref) (c : Ref → Contents) (t : Ref)
      → push_at s (push_at r c) t ≡ push_at r (push_at s c) t
  push_commutes r s c t = elim (Bool-cases (s == r)) [
    | inl same ↦
        let e : s ≡ r = ==→eq s r same in
        ap (λ q. push_at q (push_at r c) t) e ∙ ap (λ q. push_at r (push_at q c) t) (sym e)
    | inr differ ↦
        let differ' : (r == s) ≡ false = ground arith in
        push_twice r s c t differ ∙ meet r s c t differ ∙ sym (push_twice s r c t differ')
  ]
    where
      meet :
          (r s : Ref) (c : Ref → Contents) (t : Ref)
          → (s == r) ≡ false
          → (if t == s then pushed id val (c s) else push_at r c t)
            ≡ (if t == r then pushed id val (c r) else push_at s c t)
      meet r s c t differ = elim (Bool-cases (t == s)) [
        | inr other ↦ rw other refl
        | inl here ↦ let away : (t == r) ≡ false = ground arith in rw (here, away) refl
      ]

  module _ (queues : Dict Ref) where
    submitted-none :
        (a : String) (c : Ref → Contents)
        → Dict.get queues a ≡ none
        → submitted id val queues a c ≡ c
    unfolding submitted
    submitted-none a c n = rw (submitted, n) refl

    submitted-some :
        (a : String) (r : Ref) (c : Ref → Contents)
        → Dict.get queues a ≡ some r
        → submitted id val queues a c ≡ push_at r c
    unfolding submitted
    submitted-some a r c e = rw (submitted, e) refl

    -- Both names lead to queues.
    both_there :
        (a b : String) (r s : Ref) (c : Ref → Contents)
        → Dict.get queues a ≡ some r
        → Dict.get queues b ≡ some s
        → submitted id val queues b (submitted id val queues a c) ≡ push_at s (push_at r c)
    both_there a b r s c e f =
        submitted-some b s (submitted id val queues a c) f ∙ ap (push_at s) (submitted-some a r c e)

    submitted_commutes :
        (a b : String) (c : Ref → Contents)
        → submitted id val queues b (submitted id val queues a c)
          ≡ submitted id val queues a (submitted id val queues b c)
    submitted_commutes a b c = elim (Option-cases (Dict.get queues a)) [
      | inl n ↦
          ap (submitted id val queues b) (submitted-none a c n)
          ∙ sym (submitted-none a (submitted id val queues b c) n)
      | inr (r, e) ↦ elim (Option-cases (Dict.get queues b)) [
        | inl n ↦
            submitted-none b (submitted id val queues a c) n
            ∙ ap (submitted id val queues a) (sym (submitted-none b c n))
        | inr (s, f) ↦
            both_there a b r s c e f
            ∙ fun_ext (push_commutes r s c)
            ∙ sym (both_there b a s r c f e)
      ]
    ]

    -- Submitting one message to the same queues in another order comes to the same.
    pub submitted_all-Perm :
        {ns ms : List String} (c : Ref → Contents)
        → Permᴰ ns ms
        → submitted_all id val queues ns c ≡ submitted_all id val queues ms c
    unfolding submitted_all
    submitted_all-Perm c Permᴰ.nil = refl
    submitted_all-Perm c (Permᴰ.cons {a} {b} {l₁} {l₂} e p) =
        ap (λ n. submitted_all id val queues l₁ (submitted id val queues n c)) e
        ∙ submitted_all-Perm (submitted id val queues b c) p
    submitted_all-Perm c (Permᴰ.swap {a} {b} {a'} {b'} {l} e f) =
        ap (submitted_all id val queues l) (
          submitted_commutes a b c
          ∙ ap₂ (λ x y. submitted id val queues x (submitted id val queues y c)) e f)
    submitted_all-Perm c (Permᴰ.trans p q) = submitted_all-Perm c p ∙ submitted_all-Perm c q
