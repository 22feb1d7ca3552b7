-- ===== src/Core/Refine/Dead.antt =====
-- New queues, and what becomes of an expired message by the kind of the dead-letter pointer.
use sybline.Base.{
  ℕ, ◌+◌, ◌^◌, ◌<◌, ◌≡◌, refl, ap, ◌∙◌, Option, none, some, List, [], Bytes, length, arith,
}
use sybline.Core.Run.{ok, panic, ◌>>=◌}
use sybline.Core.Node.{DeadLetter, nil_queue, to_queue, LinkedList, new_queue}
use sybline.Core.LinkedList.{dead_enqueue, unlock}
use sybline.Core.Chain.{Item}
use sybline.Core.Spec.{Holds, nack, push, new_item, bury}
use sybline.Core.Refine.Enqueue.{enqueue-push}
use sybline.Core.Refine.Unlock.{unlock-nack}

-- A new queue is empty.
pub new_queue-Holds :
    (size limit ttl : ℕ) (dead : DeadLetter)
    → size < 2 ^ 32
    → Holds (new_queue size limit ttl dead) [] 0
unfolding new_queue
new_queue-Holds size limit ttl dead small = record {
  nodes = [];
  queue = record {
    chain = refl;
    tail = tt;
    store = record {
      distinct = tt;
      pooled = tt;
      apart = tt;
      below = tt;
      pool_below = tt;
      blanks = tt;
      room = omega arith;
    };
    amount = omega arith;
    amount_fits = omega arith;
    cap_fits = small;
  };
  holds = refl;
}

-- The items of the dead-letter queue after an item may have expired into it.
abbrev pub buried : (cap amount : ℕ) → Option Item → List Item → List Item
buried cap amount none ys = ys
buried cap amount (some x) ys = push cap amount (new_item x.id x.val) ys

bury-nil_queue :
    (dead : DeadLetter) (o : Option Item) (x : Item) (dlq : LinkedList)
    → dead ≡ nil_queue
    → o ≡ some x
    → bury dead o dlq ≡ panic
unfolding bury dead_enqueue
bury-nil_queue dead o x dlq d e = rw (d, e) refl

pub bury-to_queue :
    (dead : DeadLetter) (o : Option Item) {dlq : LinkedList} {ys : List Item} {drift : ℕ}
    → dead ≡ to_queue
    → Holds dlq ys drift
    → (d : LinkedList) × (bury dead o dlq ≡ ok d)
      × Holds d (buried dlq.cap (length ys + drift) o ys) drift
unfolding bury dead_enqueue
bury-to_queue dead none {dlq} to h = (dlq, refl, h)
bury-to_queue dead (some x) to h = rw to (enqueue-push x.id x.val h)

module _ {ll : LinkedList} {xs : List Item} {drift : ℕ} (consumer id : Bytes) (dlq : LinkedList)
    (h : Holds ll xs drift) where
  -- With a dead-letter pointer to a nil interface, a message that reaches its fetch limit makes Unlock
  -- panic.
  pub unlock-nil_queue :
      (x : Item)
      → ll.dead_letter ≡ nil_queue
      → (nack ll.fetch_limit consumer id xs).expired ≡ some x
      → unlock consumer id ll dlq ≡ panic
  unlock-nil_queue x nil expired =
      let (l, e, left) = unlock-nack consumer id dlq h in
      e
      ∙ ap (λ run. run >>= λ d. ok ((nack ll.fetch_limit consumer id xs).done, l, d))
          (bury-nil_queue ll.dead_letter _ x dlq nil expired)

  -- With a dead-letter queue Unlock always returns: it answers and leaves what `nack` says, and a
  -- message that reaches its limit stands at the end of the dead-letter queue, with the same id and
  -- value and not yet fetched, unless that queue is full.
  pub unlock-to_queue :
      {ys : List Item} {drift' : ℕ}
      → ll.dead_letter ≡ to_queue
      → Holds dlq ys drift'
      → (let r = nack ll.fetch_limit consumer id xs in
          (l d : LinkedList) × (unlock consumer id ll dlq ≡ ok (r.done, l, d))
          × Holds l r.left drift
          × Holds d (buried dlq.cap (length ys + drift') r.expired ys) drift')
  unlock-to_queue to dead =
      let (l, e, left) = unlock-nack consumer id dlq h in
      let (d, e', held) =
        bury-to_queue ll.dead_letter (nack ll.fetch_limit consumer id xs).expired to dead in
      (
        l,
        d,
        e ∙ ap (λ run. run >>= λ d. ok ((nack ll.fetch_limit consumer id xs).done, l, d)) e',
        left,
        held,
      )
