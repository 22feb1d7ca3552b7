-- ===== src/Core/Refine/Ack.antt =====
-- UnlockAndEmpty of pkg/core/LinkedList.go and the contract `ack`.
use sybline.Base.{
  ℕ, suc, ◌≡◌, refl, sym, inl, inr, Bool, true, false, List, [], ◌∷◌, ◌++◌, Bytes, ◌==◌, arith,
  length-append,
}
use sybline.Core.Run.{Run, ok, ◌>>=◌}
use sybline.Core.Node.{Ptr, null, LinkedList, decrement, release_object}
use sybline.Core.LinkedList.Ack.{
  AckResult, acked, failed, queue_is_empty, not_found, owned_as, empty_head, empty_found, empty_one,
  unlock_and_empty,
}
use sybline.Core.Chain.{Item, item, items, last_or, IsQueue}
use sybline.Core.Chain.Frame.{items-append}
use sybline.Core.Spec.{Holds, ack}
use sybline.Core.Refine.Remove.{released-Holds}
use sybline.Core.Refine.Unlink.{at_tail, at_head, only-IsUnlinked, first-IsUnlinked, unlink_lem}
use sybline.Core.Refine.Search.{Never, find_first}
use sybline.Core.Refine.Unlock.{Never-items}
use sybline.Core.Refine.Owned.{
  owned, ack-missing, ack-found, empty_loop-missing, empty_loop-found, empty_found-unlink,
  release_first, head_ne,
}

-- The outcome of UnlockAndEmpty by the contract.
abbrev pub ack_result : List Item → Bool → AckResult
ack_result [] done = failed queue_is_empty
ack_result (x ∷ xs) true = acked
ack_result (x ∷ xs) false = failed not_found

abbrev pub Acks : Run (AckResult × LinkedList) → AckResult → List Item → ℕ → Type 0
Acks run result left drift = (l : LinkedList) × (run ≡ ok (result, l)) × Holds l left drift

ack_result-acked :
    (us : List Item) (x : Item) (vs : List Item) → ack_result (us ++ x ∷ vs) true ≡ acked
ack_result-acked [] x vs = refl
ack_result-acked (u ∷ us) x vs = refl

module _ (consumer id : Bytes) (ll : LinkedList) {drift : ℕ} where
  head-Acks :
      (vs : List Ptr)
      → IsQueue ll (ll.head ∷ vs) drift
      → Acks (ok (acked, empty_head ll)) acked (items ll.cells vs) drift
  unfolding empty_head
  head-Acks [] q = (
    decrement (release_object ll.head (record ll { head = null; tail = null })),
    rw (only_test q.tail, release_first ll ll.head),
    released-Holds ll ll.head [] [] q (only-IsUnlinked ll ll.head q),
  )
    where
      only_test : ll.tail ≡ ll.head → (ll.tail == ll.head) ≡ true
      only_test e = ground arith
  head-Acks (v ∷ vs) q =
      let behind = at_tail ll.tail ll.head [] (v ∷ vs) q.tail q.store.distinct in
      let test : (ll.tail == ll.head) ≡ false = ground arith in
      (
        decrement (release_object ll.head (record ll { head = (ll.cells ll.head).next })),
        rw test,
        released-Holds ll ll.head [] (v ∷ vs) q (first-IsUnlinked ll ll.head v vs q),
      )

  behind-Acks :
      (p c : Ptr) (cs vs : List Ptr)
      → IsQueue ll ((c ∷ cs) ++ p ∷ vs) drift
      → Acks
          (empty_found (last_or c cs) p ll >>= λ l. ok (acked, l))
          acked
          (items ll.cells (c ∷ cs) ++ items ll.cells vs)
          drift
  behind-Acks p c cs vs q =
      let test = at_head ll.cells ll.head p (c ∷ cs) vs q.chain q.store.distinct in
      let (l, e, u) = unlink_lem ll p (c ∷ cs) vs q in
      (
        decrement (release_object p l),
        rw (empty_found-unlink ll (last_or c cs) p test, e),
        released-Holds ll p (c ∷ cs) vs q u,
      )

  loop-Acks :
      (p : Ptr) (cs vs : List Ptr)
      → IsQueue ll ((ll.head ∷ cs) ++ p ∷ vs) drift
      → Never (owned_as consumer id ll) (ll.head ∷ cs)
      → owned_as consumer id ll p ≡ true
      → Acks
          (empty_one consumer id ll)
          acked
          (items ll.cells (ll.head ∷ cs) ++ items ll.cells vs)
          drift
  unfolding empty_one
  loop-Acks p cs vs q n h =
      rw
        (
          n.0,
          empty_loop-found consumer id ll (suc ll.fresh) ll.head (ll.cells ll.head).next p cs vs
              q.chain.2 n.1 h (omega (arith, q.store.room, length-append cs (p ∷ vs))),
        )
        (behind-Acks p ll.head cs vs q)

  empty_one-found :
      (p : Ptr) (us vs : List Ptr)
      → IsQueue ll (us ++ p ∷ vs) drift
      → Never (owned_as consumer id ll) us
      → owned_as consumer id ll p ≡ true
      → Acks (empty_one consumer id ll) acked (items ll.cells us ++ items ll.cells vs) drift
  unfolding empty_one
  empty_one-found p [] vs q n h =
      let at = sym q.chain.0 in
      let head_owned : owned_as consumer id ll ll.head ≡ true = rw at at h in
      rw head_owned (head-Acks vs (rw at at q))
  empty_one-found p (c ∷ cs) vs q n h =
      let at = sym q.chain.0 in rw at (loop-Acks p cs vs (rw at at q) (rw at at n) h)

  all_missed :
      (ps : List Ptr)
      → IsQueue ll (ll.head ∷ ps) drift
      → Never (owned_as consumer id ll) (ll.head ∷ ps)
      → empty_one consumer id ll ≡ ok (failed not_found, ll)
  unfolding empty_one
  all_missed ps q n = rw n.0 (
      empty_loop-missing consumer id ll (suc ll.fresh) ll.head (ll.cells ll.head).next ps q.chain.2
        n.1 (omega (arith, q.store.room)))

  Acks-found :
      (p : Ptr) (us vs : List Ptr)
      → IsQueue ll (us ++ p ∷ vs) drift
      → Never (owned_as consumer id ll) us
      → owned_as consumer id ll p ≡ true
      → (let xs = items ll.cells (us ++ p ∷ vs) in
          let r = ack consumer id xs in
          Acks (unlock_and_empty consumer id ll) (ack_result xs r.0) r.1 drift)
  unfolding unlock_and_empty owned_as
  Acks-found p us vs q n h =
      let found =
        ack-found consumer id (items ll.cells us) (item (ll.cells p)) (items ll.cells vs)
          (Never-items (owned consumer id) ll.cells us n) h in
      rw
        (
          items-append ll.cells us (p ∷ vs),
          found,
          ack_result-acked (items ll.cells us) (item (ll.cells p)) (items ll.cells vs),
          head_ne ll.cells ll.head p us vs q.chain,
        )
        (empty_one-found p us vs q n h)

  Acks-missing :
      (ps : List Ptr)
      → IsQueue ll ps drift
      → Never (owned_as consumer id ll) ps
      → (let xs = items ll.cells ps in
          let r = ack consumer id xs in
          Acks (unlock_and_empty consumer id ll) (ack_result xs r.0) r.1 drift)
  unfolding unlock_and_empty ack owned_as
  Acks-missing [] q n = (ll, rw q.chain, record { nodes = []; queue = q; holds = refl })
  Acks-missing (p ∷ ps) q n =
      let at = sym q.chain.0 in
      let nonempty : (ll.head == null) ≡ false = ground arith in
      rw
        (
          n.0,
          ack-missing consumer id (items ll.cells ps)
              (Never-items (owned consumer id) ll.cells ps n.1),
          nonempty,
        )
        (
          ll,
          all_missed ps (rw at at q) (rw at at n),
          record { nodes = p ∷ ps; queue = q; holds = refl },
        )

  unlock_and_empty-nodes :
      (ps : List Ptr)
      → IsQueue ll ps drift
      → (let r = ack consumer id (items ll.cells ps) in
          Acks (unlock_and_empty consumer id ll) (ack_result (items ll.cells ps) r.0) r.1 drift)
  unlock_and_empty-nodes ps q = elim (find_first (owned_as consumer id ll) ps) [
    | inl n ↦ Acks-missing ps q n
    | inr r ↦ rw r.split (Acks-found r.hit r.before r.after (rw r.split at q) r.missed r.holds)
  ]

-- UnlockAndEmpty returns, with success exactly when the contract removes an item, and leaves the
-- items that the contract leaves.
pub unlock_and_empty-ack :
    {ll : LinkedList} {xs : List Item} {drift : ℕ} (consumer id : Bytes)
    → Holds ll xs drift
    → Acks
        (unlock_and_empty consumer id ll)
        (ack_result xs (ack consumer id xs).0)
        (ack consumer id xs).1
        drift
unlock_and_empty-ack {ll} consumer id h =
    rw (← h.holds) (unlock_and_empty-nodes consumer id ll h.nodes h.queue)
