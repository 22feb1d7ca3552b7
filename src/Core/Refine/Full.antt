-- ===== src/Core/Refine/Full.antt =====
-- UnlockAndEmptyBatch and Enqueue of pkg/core/LinkedList.go: a batch that takes every message.
use sybline.Base.{
  ℕ, zero, suc, ◌+◌, ◌≤◌, ◌≡◌, refl, ap, sym, subst, ◌∙◌, true, false, ◌&&◌, List, [], ◌∷◌, ◌++◌,
  Bytes, equal, length, length-append, append_assoc, ltb, leb, ◌==◌, arith,
}
use sybline.Base.Words.{lt64, lt64_small}
use sybline.Core.Run.{ok}
use sybline.Core.Node.{Ptr, null, Node, LinkedList}
use sybline.Core.LinkedList.{is_full, enqueue}
use sybline.Core.LinkedList.Ack.{
  acked, byte_slice_exists, wanted, take_head, take_tail, take_loop, finish_batch, empty_many,
  empty_batch, unlock_and_empty_batch,
}
use sybline.Core.Chain.{Item, items, Seg, has, Distinct, last_or, IsLast}
use sybline.Core.Spec.{Holds, push}
use sybline.Core.Refine.Enqueue.{is_full_lem, enqueue-push}

-- The consumer has locked each of the items, and its id is among these.
abbrev pub AllOwned : (consumer : Bytes) → (ids : List Bytes) → List Item → Type 0
AllOwned consumer ids [] = Unit
AllOwned consumer ids (x ∷ xs) =
    ((equal x.consumer_id consumer && byte_slice_exists ids x.id) ≡ true) × AllOwned consumer ids xs

-- The list without its nodes, with the counter and the pool as they are.
abbrev pub emptied : LinkedList → LinkedList
emptied ll = record ll { head = null; tail = null }

last_other : (p q : Ptr) (qs : List Ptr) → has p (q ∷ qs) ≡ false → (p == last_or q qs) ≡ false
last_other p q [] h = ground arith
last_other p q (r ∷ rs) h = last_other p r rs (ground arith)

length-items : (cells : Ptr → Node) (ps : List Ptr) → length (items cells ps) ≡ length ps
length-items cells [] = refl
length-items cells (p ∷ ps) = ap suc (length-items cells ps)

counted :
    {ll : LinkedList} {xs : List Item} {drift : ℕ} (h : Holds ll xs drift)
    → length h.nodes ≡ length xs
counted {ll} h = sym (length-items ll.cells h.nodes) ∙ ap length h.holds

module _ (consumer : Bytes) (ids : List Bytes) (ll : LinkedList) where
  -- From `current` on every node is taken, at the head.
  take_loop-all :
      (k : ℕ) (current : Ptr) (ps nodes : List Ptr)
      → Seg ll.cells null current ps
      → 1 ≤ length ps
      → IsLast ll.tail ps
      → Distinct ps
      → AllOwned consumer ids (items ll.cells ps)
      → length nodes + length ps ≡ length ids
      → length ps ≤ k
      → take_loop k consumer ids null current nodes (record ll { head = current })
        ≡ ok (nodes ++ ps, ll.tail, emptied ll)
  unfolding take_loop take_tail wanted
  take_loop-all zero current ps nodes s some_left t d o n fuel = absurd (omega arith)
  take_loop-all (suc k) current [] nodes s some_left t d o n fuel = absurd (omega arith)
  take_loop-all (suc k) current (p ∷ []) nodes s some_left t d o n fuel =
      let positive : (p == null) ≡ false = ground arith in
      let more : ltb (length nodes) (length ids) ≡ true = ground arith in
      let at_tail : (p == ll.tail) ≡ true = ground arith in
      rw (s.0, positive, more, o.0, at_tail) (ap (λ e. ok (nodes ++ p ∷ [], e, emptied ll)) (sym t))
  take_loop-all (suc k) current (p ∷ q ∷ qs) nodes s some_left t d o n fuel =
      let positive : (p == null) ≡ false = ground arith in
      let more : ltb (length nodes) (length ids) ≡ true = ground arith in
      let inner : (p == ll.tail) ≡ false = rw t (last_other p q qs d.0) in
      rw (s.0, positive, more, o.0, inner)
        (take_loop-all k (ll.cells p).next (q ∷ qs) (nodes ++ p ∷ []) s.2 (omega arith) t d.1 o.1
            (omega (arith, n, length-append nodes (p ∷ []))) (omega arith)
          ∙ ap (λ ns. ok (ns, ll.tail, emptied ll)) (append_assoc nodes (p ∷ []) (q ∷ qs)))

  empty_many-all :
      (p q : Ptr) (qs : List Ptr)
      → Seg ll.cells null ll.head (p ∷ q ∷ qs)
      → IsLast ll.tail (p ∷ q ∷ qs)
      → Distinct (p ∷ q ∷ qs)
      → AllOwned consumer ids (items ll.cells (p ∷ q ∷ qs))
      → length (p ∷ q ∷ qs) ≡ length ids
      → lt64 ll.amount (length ids) ≡ false
      → length (p ∷ q ∷ qs) ≤ ll.fresh
      → empty_many consumer ids ll ≡ ok (acked, emptied ll)
  unfolding empty_many take_head finish_batch wanted
  empty_many-all p q qs s t d o n enough fuel =
      let all : (length ids == suc (suc (length qs))) ≡ true = ground arith in
      rw (empty_many, enough, take_head, wanted, s.0, o.0)
        (rw
          (take_loop-all (suc ll.fresh) (ll.cells p).next (q ∷ qs) (p ∷ []) s.2 (omega arith) t d.1
            o.1 (omega (arith, n)) (omega arith))
          (rw (finish_batch, all) refl))

  emptied-all :
      (ps : List Ptr)
      → 2 ≤ length ps
      → Seg ll.cells null ll.head ps
      → IsLast ll.tail ps
      → Distinct ps
      → AllOwned consumer ids (items ll.cells ps)
      → length ps ≡ length ids
      → lt64 ll.amount (length ids) ≡ false
      → length ps ≤ ll.fresh
      → unlock_and_empty_batch consumer ids ll ≡ ok (acked, emptied ll)
  unfolding unlock_and_empty_batch empty_batch
  emptied-all [] two s t d o n enough fuel = absurd (omega arith)
  emptied-all (p ∷ []) two s t d o n enough fuel = absurd (omega arith)
  emptied-all (p ∷ q ∷ qs) two s t d o n enough fuel =
      let some_head : (ll.head == null) ≡ false = ground arith in
      rw (unlock_and_empty_batch, some_head)
        (several ids (omega (arith, n)) ∙ empty_many-all p q qs s t d o n enough fuel)
    where
      several :
          (is : List Bytes) → 2 ≤ length is → empty_batch consumer is ll ≡ empty_many consumer is ll
      several [] h = absurd (omega arith)
      several (i ∷ []) h = absurd (omega arith)
      several (i ∷ j ∷ is) h = refl

emptied-Holds :
    {ll : LinkedList} {xs : List Item} {drift : ℕ}
    → Holds ll xs drift
    → Holds (emptied ll) [] (length xs + drift)
emptied-Holds {ll} {xs} h =
    let q = h.queue in
    record {
      nodes = [];
      queue = record {
        chain = refl;
        tail = tt;
        store = record {
          distinct = tt;
          pooled = q.store.pooled;
          apart = tt;
          below = tt;
          pool_below = q.store.pool_below;
          blanks = q.store.blanks;
          room = omega (arith, q.store.room);
        };
        amount = omega (arith, q.amount, counted h);
        amount_fits = q.amount_fits;
        cap_fits = q.cap_fits;
      };
      holds = refl;
    }

-- Take a full queue with two messages or more, all of which a consumer has locked and acknowledges in
-- one call of UnlockAndEmptyBatch, with as many ids as there are messages. The call returns with
-- success and leaves no message, but the counter stays as it was, above their number by what it
-- counted before: an Enqueue after it returns, and the queue still has no message.
pub unlock_and_empty_batch-full :
    {ll : LinkedList} {xs : List Item} {drift : ℕ} (consumer id val : Bytes) (ids : List Bytes)
    → Holds ll xs drift
    → is_full ll ≡ true
    → 2 ≤ length xs
    → AllOwned consumer ids xs
    → length ids ≡ length xs
    → (l l' : LinkedList) × (unlock_and_empty_batch consumer ids ll ≡ ok (acked, l))
      × Holds l [] (length xs + drift)
      × (enqueue id val l ≡ ok l')
      × Holds l' [] (length xs + drift)
unfolding push
unlock_and_empty_batch-full {ll} {xs} {drift} consumer id val ids h full two owned n =
    let q = h.queue in
    let same = counted h in
    let small : lt64 ll.amount (length ids) ≡ false =
      lt64_small ll.amount (length ids) q.amount_fits
        (omega (arith, q.amount, same, n, q.amount_fits))
      ∙ ground (arith, q.amount, same, n) in
    let none_left = emptied-Holds h in
    let (l', run, holds) = enqueue-push id val none_left in
    let at_cap : leb ll.cap (0 + (length xs + drift)) ≡ true =
      ap (leb ll.cap) (omega (arith, q.amount, same))
      ∙ sym (is_full_lem ll q.cap_fits q.amount_fits)
      ∙ full in
    (
      emptied ll,
      l',
      emptied-all consumer ids ll h.nodes (omega (arith, same)) q.chain q.tail q.store.distinct
          (subst (AllOwned consumer ids) (sym h.holds) owned) (omega (arith, same, n)) small
          (omega (arith, q.store.room)),
      none_left,
      run,
      rw at_cap at holds,
    )
