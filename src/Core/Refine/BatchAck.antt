-- ===== src/Core/Refine/BatchAck.antt =====
-- UnlockAndEmptyBatch of pkg/core/LinkedList.go and the counter.
use sybline.Base.{
  ℕ, zero, suc, ◌≡◌, ◌≢◌, refl, subst, inl, inr, ◌||◌, not, List, [], ◌∷◌, ◌++◌, Bytes, length, ltb,
  ◌==◌, Bool-cases,
}
use sybline.Base.Words.{lt64}
use sybline.Core.Run.{Run, ok, panic, out_of_fuel, ◌>>=◌}
use sybline.Core.Node.{Ptr, null, LinkedList, write}
use sybline.Core.LinkedList.{set_next}
use sybline.Core.LinkedList.Ack.{
  AckResult, Acked, Taken, wanted, take_head, take_tail, take_loop, relink, put_behind_head,
  finish_batch, empty_many, empty_batch, unlock_and_empty_batch, last_of,
}

-- If the run comes to an end, the list that it leaves has this counter.
abbrev HasAmount : {A : Type 0} → (A → LinkedList) → ℕ → Run A → Type 0
HasAmount f a (ok x) = (f x).amount ≡ a
HasAmount f a panic = Unit
HasAmount f a out_of_fuel = Unit

abbrev self : LinkedList → LinkedList
self l = l

abbrev of_taken : Taken → LinkedList
of_taken (nodes, current, l) = l

abbrev of_acked : Acked → LinkedList
of_acked (r, l) = l

then_amount :
    {A B : Type 0} (f : A → LinkedList) (g : B → LinkedList) (a : ℕ) (run : Run A) (k : A → Run B)
    → HasAmount f a run
    → ((x : A) → (f x).amount ≡ a → HasAmount g a (k x))
    → HasAmount g a (run >>= k)
then_amount f g a (ok x) k h step = step x h
then_amount f g a panic k h step = tt
then_amount f g a out_of_fuel k h step = tt

set_next-HasAmount :
    (p q : Ptr) (l : LinkedList) (a : ℕ) → l.amount ≡ a → HasAmount self a (set_next p q l)
unfolding set_next write
set_next-HasAmount p q l a h = elim (Bool-cases (p == null)) [
  | inl e ↦ rw (set_next, e) tt
  | inr e ↦ rw (set_next, e) h
]

take_tail-HasAmount :
    (prev : Ptr) (l : LinkedList) (a : ℕ) → l.amount ≡ a → HasAmount self a (take_tail prev l)
unfolding take_tail
take_tail-HasAmount prev l a h = elim (Bool-cases (l.head == l.tail)) [
  | inl e ↦ rw (take_tail, e) h
  | inr e ↦ rw (take_tail, e) (set_next-HasAmount prev null (record l { tail = prev }) a h)
]

take_loop-HasAmount :
    (k : ℕ) (consumer : Bytes) (ids : List Bytes) (prev current : Ptr) (nodes : List Ptr)
    (l : LinkedList) (a : ℕ)
    → l.amount ≡ a
    → HasAmount of_taken a (take_loop k consumer ids prev current nodes l)
unfolding take_loop
take_loop-HasAmount zero consumer ids prev current nodes l a h = tt
take_loop-HasAmount (suc k) consumer ids prev current nodes l a h =
    elim (Bool-cases ((current == null) || not (ltb (length nodes) (length ids)))) [
      | inl stop ↦ rw (take_loop, stop) h
      | inr go ↦ elim (Bool-cases (wanted consumer ids l current)) [
        | inr skip ↦
            rw (take_loop, go, skip)
              (take_loop-HasAmount k consumer ids current (l.cells current).next nodes l a h)
        | inl take ↦ elim (Bool-cases (current == l.tail)) [
          | inl last ↦
              rw (take_loop, go, take, last)
                (then_amount self of_taken a (take_tail prev l) _ (take_tail-HasAmount prev l a h)
                  (λ m e. e))
          | inr inner ↦ elim (Bool-cases (prev == null)) [
            | inl first ↦
                rw (take_loop, go, take, inner, first)
                  (take_loop-HasAmount k consumer ids null (l.cells l.head).next
                    (nodes ++ current ∷ []) _ a h)
            | inr behind ↦
                rw (take_loop, go, take, inner, behind)
                  (then_amount self of_taken a (set_next prev (l.cells current).next l) _
                    (set_next-HasAmount prev (l.cells current).next l a h)
                    (λ m e.
                      take_loop-HasAmount k consumer ids prev (l.cells current).next
                        (nodes ++ current ∷ []) m a e))
          ]
        ]
      ]
    ]

relink-HasAmount :
    (start current : Ptr) (ns : List Ptr) (l : LinkedList) (a : ℕ)
    → l.amount ≡ a
    → HasAmount self a (relink start current ns l)
unfolding relink
relink-HasAmount start current [] l a h = h
relink-HasAmount start current (n ∷ ns) l a h =
    then_amount self self a (set_next start n l) _ (set_next-HasAmount start n l a h) (λ m e.
      elim (Bool-cases (current == null)) [
        | inl nil ↦ rw nil tt
        | inr node ↦ rw node (relink-HasAmount (m.cells current).next current ns m a e)
      ])

put_behind_head-HasAmount :
    (first last : Ptr) (l : LinkedList) (a : ℕ)
    → l.amount ≡ a
    → HasAmount self a (put_behind_head first last l)
unfolding put_behind_head
put_behind_head-HasAmount first last l a h =
    then_amount self self a (set_next l.head first l) _ (set_next-HasAmount l.head first l a h)
      (λ m e. set_next-HasAmount last (l.cells l.head).next m a e)

finish_batch-HasAmount :
    (ids : List Bytes) (taken : Taken) (a : ℕ)
    → (of_taken taken).amount ≡ a
    → HasAmount of_acked a (finish_batch ids taken)
unfolding finish_batch
finish_batch-HasAmount ids ([], current, l) a h = h
finish_batch-HasAmount ids (n ∷ [], current, l) a h = elim (Bool-cases (length ids == 1)) [
  | inl all ↦ rw (finish_batch, all) h
  | inr fewer ↦
      rw (finish_batch, fewer)
        (then_amount self of_acked a (put_behind_head n n l) _ (put_behind_head-HasAmount n n l a h)
          (λ m e. e))
]
finish_batch-HasAmount ids (n ∷ m ∷ ns, current, l) a h =
    elim (Bool-cases (length ids == suc (suc (length ns)))) [
      | inl all ↦ rw (finish_batch, all) h
      | inr fewer ↦
          rw (finish_batch, fewer)
            (then_amount self of_acked a (relink n current (m ∷ ns) l) _
              (relink-HasAmount n current (m ∷ ns) l a h)
              (λ o e.
                then_amount self of_acked a (put_behind_head n (last_of m ns) o) _
                  (put_behind_head-HasAmount n (last_of m ns) o a e) (λ o e. e)))
    ]

take_head-amount :
    (consumer : Bytes) (ids : List Bytes) (l : LinkedList)
    → (take_head consumer ids l).1.amount ≡ l.amount
unfolding take_head
take_head-amount consumer ids l = elim (Bool-cases (wanted consumer ids l l.head)) [
  | inl e ↦ rw (take_head, e) refl
  | inr e ↦ rw (take_head, e) refl
]

empty_many-HasAmount :
    (consumer : Bytes) (ids : List Bytes) (l : LinkedList)
    → HasAmount of_acked l.amount (empty_many consumer ids l)
unfolding empty_many
empty_many-HasAmount consumer ids l = elim (Bool-cases (lt64 l.amount (length ids))) [
  | inl few ↦ rw (empty_many, few) refl
  | inr enough ↦
      let first = take_head consumer ids l in
      rw (empty_many, enough)
        (then_amount of_taken of_acked l.amount
          (take_loop (suc l.fresh) consumer ids null first.1.head first.0 first.1) _
          (take_loop-HasAmount (suc l.fresh) consumer ids null first.1.head first.0 first.1 l.amount
            (take_head-amount consumer ids l))
          (λ taken e. finish_batch-HasAmount ids taken l.amount e))
]

empty_batch-HasAmount :
    (consumer : Bytes) (ids : List Bytes) (l : LinkedList)
    → length ids ≢ 1
    → HasAmount of_acked l.amount (empty_batch consumer ids l)
unfolding empty_batch
empty_batch-HasAmount consumer [] l several = empty_many-HasAmount consumer [] l
empty_batch-HasAmount consumer (i ∷ []) l several = absurd (several refl)
empty_batch-HasAmount consumer (i ∷ j ∷ ids) l several =
    empty_many-HasAmount consumer (i ∷ j ∷ ids) l

whole :
    (consumer : Bytes) (ids : List Bytes) (l : LinkedList)
    → length ids ≢ 1
    → HasAmount of_acked l.amount (unlock_and_empty_batch consumer ids l)
unfolding unlock_and_empty_batch
whole consumer ids l several = elim (Bool-cases (l.head == null)) [
  | inl e ↦ rw (unlock_and_empty_batch, e) refl
  | inr e ↦ rw (unlock_and_empty_batch, e) (empty_batch-HasAmount consumer ids l several)
]

-- UnlockAndEmptyBatch of no or several ids, when it returns, leaves the counter as it is, whatever it
-- answers.
pub unlock_and_empty_batch-amount :
    (consumer : Bytes) (ids : List Bytes) (ll l : LinkedList) (r : AckResult)
    → length ids ≢ 1
    → unlock_and_empty_batch consumer ids ll ≡ ok (r, l)
    → l.amount ≡ ll.amount
unlock_and_empty_batch-amount consumer ids ll l r several run =
    subst (HasAmount of_acked ll.amount) run (whole consumer ids ll several)
