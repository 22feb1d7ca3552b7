-- ===== src/Core/Refine/UnlockAll.antt =====
-- UnlockAllFromConsumer of pkg/core/LinkedList.go.
use sybline.Base.{
  ℕ, zero, suc, ◌<◌, ◌≡◌, refl, ap, ◌∙◌, inl, inr, false, List, [], ◌∷◌, ◌++◌, Bytes, equal, length,
  ◌==◌, arith, Bool-cases, if◌then◌else◌,
}
use sybline.Core.Run.{ok}
use sybline.Core.Node.{Ptr, null, Node, no_consumer, LinkedList, write}
use sybline.Core.LinkedList.Dequeue.{unlock_all_loop, unlock_all_from_consumer}
use sybline.Core.Chain.{Item, item, items, Seg, IsQueue}
use sybline.Core.Chain.Frame.{items-append}
use sybline.Core.Spec.{Holds}
use sybline.Core.Refine.Touch.{write-IsQueue, touch-Seg, touch-items_snoc, touch-after}
use sybline.Core.Refine.Dequeue.{regroup-IsQueue, ungroup-IsQueue, ungroup-items}

-- An item of the consumer has no consumer afterwards; others stay as they are.
abbrev pub freed : Bytes → Item → Item
freed consumer x = if equal x.consumer_id consumer then record x { consumer_id = [] } else x

abbrev pub free_all : Bytes → List Item → List Item
free_all consumer [] = []
free_all consumer (x ∷ xs) = freed consumer x ∷ free_all consumer xs

module _ (consumer : Bytes) {drift : ℕ} where
  -- The loop has passed the nodes `us` and stands before `ps`.
  unlock_all_loop-free_all :
      (k : ℕ) (ll : LinkedList) (cur : Ptr) (us ps : List Ptr)
      → IsQueue ll (us ++ ps) drift
      → Seg ll.cells null cur ps
      → length ps < k
      → (l : LinkedList) × (unlock_all_loop k consumer cur ll ≡ ok l)
        × IsQueue l (us ++ ps) drift
        × (items l.cells (us ++ ps) ≡ items ll.cells us ++ free_all consumer (items ll.cells ps))
  unfolding unlock_all_loop
  unlock_all_loop-free_all zero ll cur us ps q s fuel = absurd (omega arith)
  unlock_all_loop-free_all (suc k) ll cur us [] q s fuel =
      (ll, rw s refl, q, items-append ll.cells us [])
  unlock_all_loop-free_all (suc k) ll cur us (p ∷ ps) q s fuel =
      let positive : (p == null) ≡ false = ground arith in
      let n = ll.cells p in
      elim (Bool-cases (equal n.consumer_id consumer)) [
        | inl own ↦
            let m : Node = record n { consumer_id = no_consumer } in
            let l1 = write p m ll in
            let (l, e, q2, h) =
              unlock_all_loop-free_all k l1 n.next (us ++ p ∷ []) ps
                (regroup-IsQueue l1 p us ps (write-IsQueue ll p m us ps q refl))
                (touch-Seg ll p m us ps q null n.next s.2) (omega arith) in
            (
              l,
              rw (s.0, positive, own) e,
              ungroup-IsQueue l p us ps q2,
              rw own (
                  ungroup-items l p us ps (items ll.cells us)
                    (free_all consumer (items ll.cells ps)) _
                    (h
                      ∙ ap (λ zs. zs ++ free_all consumer (items l1.cells ps))
                          (touch-items_snoc ll p m us ps q)
                      ∙ ap (λ zs. (items ll.cells us ++ item m ∷ []) ++ free_all consumer zs)
                          (touch-after ll p m us ps q))),
            )
        | inr other ↦
            let (l, e, q2, h) =
              unlock_all_loop-free_all k ll n.next (us ++ p ∷ []) ps (regroup-IsQueue ll p us ps q)
                s.2 (omega arith) in
            (
              l,
              rw (s.0, positive, other) e,
              ungroup-IsQueue l p us ps q2,
              rw other (
                  ungroup-items l p us ps (items ll.cells us)
                    (free_all consumer (items ll.cells ps)) (item n)
                    (h
                      ∙ ap (λ zs. zs ++ free_all consumer (items ll.cells ps))
                          (items-append ll.cells us (p ∷ [])))),
            )
      ]

-- UnlockAllFromConsumer returns: every item of the consumer is given back, without counting a fetch,
-- and nothing else changes.
pub unlock_all_from_consumer-free_all :
    {ll : LinkedList} {xs : List Item} {drift : ℕ} (consumer : Bytes)
    → Holds ll xs drift
    → (l : LinkedList) × (unlock_all_from_consumer consumer ll ≡ ok l)
      × Holds l (free_all consumer xs) drift
unfolding unlock_all_from_consumer
unlock_all_from_consumer-free_all {ll} consumer h =
    let ps = h.nodes in
    let (l, e, q, held) =
      unlock_all_loop-free_all consumer (suc ll.fresh) ll ll.head [] ps h.queue h.queue.chain
        (omega (arith, h.queue.store.room)) in
    (l, e, record { nodes = ps; queue = q; holds = held ∙ ap (free_all consumer) h.holds })
