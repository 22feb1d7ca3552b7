-- ===== src/Core/Refine/Touch.antt =====
-- New fields for a node of the list, with the same successor.
use sybline.Base.{ℕ, ◌≡◌, refl, ◌∙◌, true, false, List, [], ◌∷◌, ◌++◌, arith}
use sybline.Core.Node.{Ptr, null, Node, LinkedList, write}
use sybline.Core.Chain.{item, items, Seg, has, IsQueue}
use sybline.Core.Chain.Frame.{
  Seg-put, Seg-put_same, IsStore-put, items-put, items-append, has-append,
}
use sybline.Core.Chain.Middle.{Distinct-middle, has-middle}

module _ (ll : LinkedList) (p : Ptr) (m : Node) (ps : List Ptr) {drift : ℕ}
    (q : IsQueue ll ps drift) where
  pub touch-IsQueue : has p ps ≡ true → m.next ≡ (ll.cells p).next → IsQueue (write p m ll) ps drift
  unfolding write
  touch-IsQueue used same = record {
    chain = Seg-put_same ll.cells p m null ll.head ps same q.chain;
    tail = q.tail;
    store = IsStore-put ll.cells ll.pool ll.fresh ps p m q.store used;
    amount = q.amount;
    amount_fits = q.amount_fits;
    cap_fits = q.cap_fits;
  }

pub node_ttl-write : (ll : LinkedList) (p : Ptr) (m : Node) → (write p m ll).node_ttl ≡ ll.node_ttl
unfolding write
node_ttl-write ll p m = refl

module _ (ll : LinkedList) (p : Ptr) (m : Node) (us vs : List Ptr) {drift : ℕ}
    (q : IsQueue ll (us ++ p ∷ vs) drift) where
  touched_out : (has p us ≡ false) × (has p vs ≡ false)
  touched_out =
      let out = (Distinct-middle p us vs q.store.distinct).0 in
      (ground (arith, has-append p us vs), ground (arith, has-append p us vs))

  pub touch-before : items (write p m ll).cells us ≡ items ll.cells us
  unfolding write
  touch-before = items-put ll.cells p m us touched_out.0

  pub touch-after : items (write p m ll).cells vs ≡ items ll.cells vs
  unfolding write
  touch-after = items-put ll.cells p m vs touched_out.1

  pub touch-at : (write p m ll).cells p ≡ m
  unfolding write
  touch-at = ground arith

  pub touch-items :
      items (write p m ll).cells (us ++ p ∷ vs) ≡ items ll.cells us ++ item m ∷ items ll.cells vs
  touch-items =
      items-append (write p m ll).cells us (p ∷ vs) ∙ rw (touch-before, touch-after, touch-at) refl

  pub write-IsQueue : m.next ≡ (ll.cells p).next → IsQueue (write p m ll) (us ++ p ∷ vs) drift
  write-IsQueue same =
      touch-IsQueue ll p m (us ++ p ∷ vs) q (ground (arith, has-middle p p us vs)) same

  pub touch-Seg : (stop c : Ptr) → Seg ll.cells stop c vs → Seg (write p m ll).cells stop c vs
  unfolding write
  touch-Seg stop c s = Seg-put ll.cells p m stop c vs touched_out.1 s

  -- The same with the node counted to what stands before the rest.
  pub touch-items_snoc :
      items (write p m ll).cells (us ++ p ∷ []) ≡ items ll.cells us ++ item m ∷ []
  touch-items_snoc =
      items-append (write p m ll).cells us (p ∷ []) ∙ rw (touch-before, touch-at) refl
