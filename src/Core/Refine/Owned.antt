-- ===== src/Core/Refine/Owned.antt =====
-- The loop of UnlockAndEmpty in pkg/core/LinkedList.go: which node it finds, and its two ways to unlink.
use sybline.Base.{
  ℕ, zero, suc, ◌<◌, ◌≡◌, refl, inl, inr, Bool, true, false, ◌&&◌, List, [], ◌∷◌, ◌++◌, Bytes,
  equal, length, ltb, ◌==◌, arith, Bool-cases,
}
use sybline.Core.Run.{ok, ◌>>=◌}
use sybline.Core.Node.{Ptr, null, Node, LinkedList, write, decrement, release_object}
use sybline.Core.LinkedList.{unlink}
use sybline.Core.LinkedList.Ack.{acked, failed, not_found, owned_as, empty_found, empty_loop}
use sybline.Core.Chain.{Item, Seg, last_or}
use sybline.Core.Spec.{ack}
use sybline.Core.Refine.Search.{Never}

abbrev pub owned : Bytes → Bytes → Item → Bool
owned consumer id x = equal x.id id && equal x.consumer_id consumer

module _ (consumer id : Bytes) where
  pub ack-missing :
      (xs : List Item) → Never (owned consumer id) xs → ack consumer id xs ≡ (false, xs)
  unfolding ack
  ack-missing [] n = refl
  ack-missing (x ∷ xs) n = rw (n.0, ack-missing xs n.1)

  pub ack-found :
      (us : List Item) (x : Item) (vs : List Item)
      → Never (owned consumer id) us
      → owned consumer id x ≡ true
      → ack consumer id (us ++ x ∷ vs) ≡ (true, us ++ vs)
  unfolding ack
  ack-found [] x vs n h = rw h
  ack-found (u ∷ us) x vs n h = rw (n.0, ack-found us x vs n.1 h)

module _ (consumer id : Bytes) (ll : LinkedList) where
  pub empty_loop-missing :
      (k : ℕ) (prev cur : Ptr) (ps : List Ptr)
      → Seg ll.cells null cur ps
      → Never (owned_as consumer id ll) ps
      → length ps < k
      → empty_loop k consumer id prev cur ll ≡ ok (failed not_found, ll)
  unfolding empty_loop
  empty_loop-missing zero prev cur ps s n fuel = absurd (omega arith)
  empty_loop-missing (suc k) prev cur [] s n fuel = rw s
  empty_loop-missing (suc k) prev cur (p ∷ ps) s n fuel =
      let positive : (p == null) ≡ false = ground arith in
      rw (s.0, positive, n.0) (empty_loop-missing k p (ll.cells p).next ps s.2 n.1 (omega arith))

  pub empty_loop-found :
      (k : ℕ) (prev cur p : Ptr) (us vs : List Ptr)
      → Seg ll.cells null cur (us ++ p ∷ vs)
      → Never (owned_as consumer id ll) us
      → owned_as consumer id ll p ≡ true
      → length us < k
      → empty_loop k consumer id prev cur ll
        ≡ (empty_found (last_or prev us) p ll >>= λ l. ok (acked, l))
  unfolding empty_loop
  empty_loop-found zero prev cur p us vs s n h fuel = absurd (omega arith)
  empty_loop-found (suc k) prev cur p [] vs s n h fuel =
      let positive : (p == null) ≡ false = ground arith in rw (s.0, positive, h)
  empty_loop-found (suc k) prev cur p (c ∷ cs) vs s n h fuel =
      let positive : (c == null) ≡ false = ground arith in
      rw (s.0, positive, n.0)
        (empty_loop-found k c (ll.cells c).next p cs vs s.2 n.1 h (omega arith))

-- At a node behind the head the code does what handleThresholdExpire does, and releases.
pub empty_found-unlink :
    (ll : LinkedList) (prev p : Ptr)
    → (p == ll.head) ≡ false
    → empty_found prev p ll ≡ (unlink prev p ll >>= λ l. ok (decrement (release_object p l)))
unfolding empty_found unlink
empty_found-unlink ll prev p h = elim (Bool-cases (p == ll.tail)) [
  | inl e ↦ rw (e, h)
  | inr e ↦ rw (e, h)
]

-- Releasing the head before or after the pointers are cleared.
pub release_first :
    (ll : LinkedList) (p : Ptr)
    → decrement (record (release_object p ll) { head = null; tail = null })
      ≡ decrement (release_object p (record ll { head = null; tail = null }))
unfolding decrement release_object write
release_first ll p = elim (Bool-cases (ltb (length ll.pool) ll.max_size)) [
  | inl e ↦ rw e
  | inr e ↦ rw e
]

pub head_ne :
    (cells : Ptr → Node) (h p : Ptr) (us vs : List Ptr)
    → Seg cells null h (us ++ p ∷ vs)
    → (h == null) ≡ false
head_ne cells h p [] vs s = ground arith
head_ne cells h p (c ∷ cs) vs s = ground arith
