-- ===== src/Core/Refine/Remove.antt =====
-- A node that leaves the list: the chain, the pool and the counter.
use sybline.Base.{
  ℕ, ◌+◌, ◌-◌, ◌<◌, ◌^◌, ◌≡◌, ◌∙◌, inl, inr, List, ◌∷◌, ◌++◌, length, ltb, arith, Bool-cases,
}
use sybline.Base.Words.{sub64, sub64_small}
use sybline.Core.Node.{Ptr, null, blank, LinkedList, put_cell, decrement, release_object}
use sybline.Core.Chain.{items, Seg, Blank, IsLast, IsQueue}
use sybline.Core.Chain.Frame.{Seg-put, items-put, items-append, Blank-put}
use sybline.Core.Chain.Middle.{
  Distinct-middle, Disjoint-middle, length-middle, IsStore-drop, IsStore-release,
}
use sybline.Core.Spec.{Holds}

-- `l` is `ll` with the node between `us` and `vs` out of the chain, and nothing else changed.
pub record IsUnlinked (ll : LinkedList) (us vs : List Ptr) (l : LinkedList) : Type 0 where
  pub chain : Seg l.cells null l.head (us ++ vs)
  pub tail : IsLast l.tail (us ++ vs)
  pub same : items l.cells (us ++ vs) ≡ items ll.cells (us ++ vs)
  pub blanks : Blank l.cells ll.pool
  pub pool : l.pool ≡ ll.pool
  pub fresh : l.fresh ≡ ll.fresh
  pub amount : l.amount ≡ ll.amount
  pub cap : l.cap ≡ ll.cap

module _ (ll : LinkedList) (p : Ptr) (us vs : List Ptr) {drift : ℕ}
    (q : IsQueue ll (us ++ p ∷ vs) drift) {l : LinkedList} (u : IsUnlinked ll us vs l) where
  released-IsQueue : IsQueue (decrement (release_object p l)) (us ++ vs) drift
  unfolding decrement release_object
  released-IsQueue =
      let out = (Distinct-middle p us vs q.store.distinct).0 in
      let unpooled = (Disjoint-middle p us vs ll.pool q.store.apart).0 in
      let new = put_cell l.cells p blank in
      let chain = Seg-put l.cells p blank null l.head (us ++ vs) out u.chain in
      let blanks = Blank-put l.cells p blank ll.pool unpooled u.blanks in
      let longer = length-middle p us vs in
      let count : sub64 l.amount 1 ≡ l.amount - 1 =
        sub64_small l.amount 1 (omega (arith, u.amount, q.amount, longer))
          (omega (arith, u.amount, q.amount_fits)) in
      let amount : sub64 l.amount 1 ≡ length (us ++ vs) + drift =
        omega (arith, count, u.amount, q.amount, longer) in
      let fits : sub64 l.amount 1 < 2 ^ 63 = omega (arith, count, u.amount, q.amount_fits) in
      elim (Bool-cases (ltb (length l.pool) l.max_size)) [
        | inl free ↦ rw free (record {
          chain = chain;
          tail = u.tail;
          store =
              rw (u.pool, u.fresh)
                (IsStore-release ll.cells new ll.pool ll.fresh p us vs q.store blanks
                  (ground arith));
          amount = amount;
          amount_fits = fits;
          cap_fits = rw u.cap q.cap_fits;
        })
        | inr full ↦ rw full (record {
          chain = chain;
          tail = u.tail;
          store =
              rw (u.pool, u.fresh)
                (IsStore-drop ll.cells new ll.pool ll.fresh p us vs q.store blanks);
          amount = amount;
          amount_fits = fits;
          cap_fits = rw u.cap q.cap_fits;
        })
      ]

  released-items :
      items (decrement (release_object p l)).cells (us ++ vs)
      ≡ items ll.cells us ++ items ll.cells vs
  unfolding decrement release_object
  released-items =
      let out = (Distinct-middle p us vs q.store.distinct).0 in
      let e = items-put l.cells p blank (us ++ vs) out ∙ u.same ∙ items-append ll.cells us vs in
      elim (Bool-cases (ltb (length l.pool) l.max_size)) [
        | inl free ↦ rw free e
        | inr full ↦ rw full e
      ]

  pub released-Holds :
      Holds (decrement (release_object p l)) (items ll.cells us ++ items ll.cells vs) drift
  released-Holds = record { nodes = us ++ vs; queue = released-IsQueue; holds = released-items }
