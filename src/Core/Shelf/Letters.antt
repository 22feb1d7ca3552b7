-- ===== src/Core/Shelf/Letters.antt =====
-- Nack of pkg/core/QueueManager.go, with the dead-letter queues, as the shelf specifies it.
use sybline.Base.{
  ◌+◌, ◌≡◌, refl, ap, fun_ext, ◌∙◌, sym, subst, inl, inr, false, Option, none, some, List, length,
  ◌==◌, arith, Bool-cases, ==→eq,
}
use sybline.Core.Run.{Run, ok, ◌>>=◌}
use sybline.Core.Node.{LinkedList, DeadLetter, no_pointer, nil_queue, to_queue}
use sybline.Core.LinkedList.{dead_enqueue}
use sybline.Core.Chain.{Item}
use sybline.Core.Spec.{Holds, push, new_item, bury}
use sybline.Core.Refine.Config.{Config, config, HasConfig, enqueue-HasConfig}
use sybline.Core.Refine.Dead.{buried, bury-to_queue}
use sybline.Core.QueueManager.{Ref, QueueManager, put_list, put_both}
use sybline.Core.Shelf.{Reply, Shelf, set_items, expire}
use sybline.Core.Shelf.Follows.{Stands, Follows, both_end, put_list-Stands}

set_items_same : (r : Ref) (s : Shelf) → set_items r (s.stock r).items s ≡ s
set_items_same r s = ap (λ f. record s { stock = f }) (fun_ext pointwise)
  where
    pointwise : (t : Ref) → (set_items r (s.stock r).items s).stock t ≡ s.stock t
    pointwise t = elim (Bool-cases (t == r)) [
      | inl e ↦ rw e (ap s.stock (sym (==→eq t r e)))
      | inr e ↦ rw e refl
    ]

set_items_swap :
    (r q : Ref) (xs ys : List Item) (s : Shelf)
    → (q == r) ≡ false
    → set_items r xs (set_items q ys s) ≡ set_items q ys (set_items r xs s)
set_items_swap r q xs ys s apart = ap (λ f. record s { stock = f }) (fun_ext pointwise)
  where
    swapped : (r == q) ≡ false
    swapped = ground arith

    pointwise :
        (t : Ref)
        → (set_items r xs (set_items q ys s)).stock t ≡ (set_items q ys (set_items r xs s)).stock t
    pointwise t = elim (Bool-cases (t == r)) [
      | inl e ↦ elim (Bool-cases (t == q)) [
        | inl f ↦ absurd (ground arith)
        | inr f ↦ rw (e, f, swapped) refl
      ]
      | inr e ↦ elim (Bool-cases (t == q)) [
        | inl f ↦ rw (e, f, apart) refl
        | inr f ↦ rw (e, f) refl
      ]
    ]

bury-HasConfig :
    (kind : DeadLetter) (o : Option Item) (dlq : LinkedList)
    → HasConfig (config dlq) (bury kind o dlq)
unfolding bury dead_enqueue
bury-HasConfig kind none dlq = refl
bury-HasConfig no_pointer (some x) dlq = refl
bury-HasConfig nil_queue (some x) dlq = tt
bury-HasConfig to_queue (some x) dlq = enqueue-HasConfig x.id x.val dlq

-- `put_both` by the kind of the dead-letter pointer.
abbrev put_by : DeadLetter → Ref → LinkedList → LinkedList → QueueManager → QueueManager
put_by kind r l d m = elim kind [
  | to_queue ↦ put_list r l (put_list (m.objects r).dead d m)
  | _ ↦ put_list r l m
]

put_both_by :
    (r : Ref) (l d : LinkedList) (m : QueueManager) (kind : DeadLetter)
    → l.dead_letter ≡ kind
    → put_both r l d m ≡ put_by kind r l d m
put_both_by r l d m kind e = ap (λ k. put_by k r l d m) e

put_both_one :
    (r : Ref) (l d : LinkedList) (m : QueueManager) (kind : DeadLetter)
    → l.dead_letter ≡ kind
    → (kind ≡ to_queue → ⊥)
    → put_both r l d m ≡ put_list r l m
put_both_one r l d m no_pointer e n = put_both_by r l d m no_pointer e
put_both_one r l d m nil_queue e n = put_both_by r l d m nil_queue e
put_both_one r l d m to_queue e n = absurd (n refl)

put_both_two :
    (r : Ref) (l d : LinkedList) (m : QueueManager)
    → l.dead_letter ≡ to_queue
    → put_both r l d m ≡ put_list r l (put_list (m.objects r).dead d m)
put_both_two r l d m e = put_both_by r l d m to_queue e

-- The end of a Nack that has left the items `xs` in the list `l`.
module _ (m : QueueManager) (s : Shelf) (v : Stands m s) (r : Ref) (l : LinkedList) (xs : List Item)
    (h : Holds l xs 0) (reply : Reply) where
  abbrev pub dead : Ref
  dead = (m.objects r).dead

  abbrev pub dlq : LinkedList
  dlq = (m.objects dead).list

  abbrev pub rest : Shelf
  rest = set_items r xs s

  one-Stands :
      (kind : DeadLetter)
      → config l ≡ config (m.objects r).list
      → (m.objects r).list.dead_letter ≡ kind
      → (kind ≡ to_queue → ⊥)
      → Stands (put_both r l dlq m) rest
  one-Stands kind kept is n =
      subst (λ k. Stands k rest)
        (sym (put_both_one r l dlq m kind (ap (λ (c : Config). c.dead_letter) kept ∙ is) n))
        (put_list-Stands m s r l xs v h kept)

  expire-buried :
      (o : Option Item)
      → (dead == r) ≡ false
      → expire to_queue dead o rest
        ≡ ok (
            set_items dead
              (buried dlq.cap (length (s.stock dead).items + 0) o (s.stock dead).items)
              rest)
  unfolding expire
  expire-buried none apart =
      let same : rest.stock dead ≡ s.stock dead = rw apart refl in
      ap ok (sym (subst (λ q. set_items dead q.items rest ≡ rest) same (set_items_same dead rest)))
  expire-buried (some x) apart =
      let same : rest.stock dead ≡ s.stock dead = rw apart refl in
      let cap : (s.stock dead).settings.cap ≡ dlq.cap =
        ap (λ (c : Config). c.cap) (sym (v.queues dead).1) in
      let q = s.stock dead in
      let item = new_item x.id x.val in
      ap (λ t. ok (set_items dead (push t.settings.cap (length t.items + 0) item t.items) rest))
        same
      ∙ ap (λ k. ok (set_items dead (push k (length q.items + 0) item q.items) rest)) cap

  two-Stands :
      (d : LinkedList) (ys : List Item)
      → config l ≡ config (m.objects r).list
      → (m.objects r).list.dead_letter ≡ to_queue
      → (dead == r) ≡ false
      → Holds d ys 0
      → config d ≡ config dlq
      → Stands (put_both r l d m) (set_items dead ys rest)
  two-Stands d ys kept is apart held same =
      let n = put_list dead d m in
      let first = put_list-Stands m s dead d ys v held same in
      let swapped : (r == dead) ≡ false = ground arith in
      let alone : (n.objects r).list ≡ (m.objects r).list = rw swapped refl in
      let second =
        put_list-Stands n (set_items dead ys s) r l xs first h (kept ∙ ap config (sym alone)) in
      subst (λ k. Stands k (set_items dead ys rest))
        (sym (put_both_two r l d m (ap (λ (c : Config). c.dead_letter) kept ∙ is)))
        (subst (Stands (put_list r l n)) (set_items_swap r dead xs ys s apart) second)

  -- The replies of the run, once the dead-letter queue is dealt with.
  abbrev pub ended : LinkedList → Run (Reply × QueueManager)
  ended d = ok (reply, put_both r l d m)

  pub bury-Follows :
      (o : Option Item) (kind : DeadLetter)
      → ((d : LinkedList) → bury kind o dlq ≡ ok d → config l ≡ config (m.objects r).list)
      → (m.objects r).list.dead_letter ≡ kind
      → (kind ≡ to_queue → (dead == r) ≡ false)
      → Follows (expire kind dead o rest >>= λ t. ok (reply, t)) (bury kind o dlq >>= ended)
  unfolding bury dead_enqueue expire
  bury-Follows none no_pointer kept is apart =
      (put_both r l dlq m, refl, one-Stands no_pointer (kept dlq refl) is (λ e. cc))
  bury-Follows none nil_queue kept is apart =
      (put_both r l dlq m, refl, one-Stands nil_queue (kept dlq refl) is (λ e. cc))
  bury-Follows (some x) no_pointer kept is apart =
      (put_both r l dlq m, refl, one-Stands no_pointer (kept dlq refl) is (λ e. cc))
  bury-Follows (some x) nil_queue kept is apart = refl
  bury-Follows o to_queue kept is apart =
      let (d, e, held) = bury-to_queue to_queue o refl (v.queues dead).0 in
      let same : config d ≡ config dlq =
        subst (HasConfig (config dlq)) e (bury-HasConfig to_queue o dlq) in
      let ys = buried dlq.cap (length (s.stock dead).items + 0) o (s.stock dead).items in
      both_end reply (put_both r l d m) (set_items dead ys rest)
        (ap (λ (run : Run Shelf). run >>= λ t. ok (reply, t)) (expire-buried o (apart refl)))
        (ap (λ (run : Run LinkedList). run >>= ended) e)
        (two-Stands d ys (kept d e) is (apart refl) held same)
