-- ===== src/Core/Refine/Unlock.antt =====
-- Unlock of pkg/core/LinkedList.go and the contract `nack`.
use sybline.Base.{
  ℕ, zero, suc, ◌<◌, ◌≡◌, refl, inl, inr, Bool, true, false, none, List, [], ◌∷◌, ◌++◌, Bytes,
  equal, length, leb, ◌==◌, arith, Bool-cases, length-append,
}
use sybline.Base.Words.{add32}
use sybline.Core.Run.{Run, ok, panic, out_of_fuel, ◌>>=◌}
use sybline.Core.Node.{Ptr, null, Node, DeadLetter, LinkedList, write, decrement, release_object}
use sybline.Core.LinkedList.{handle_threshold_expire, nack_node, unlock_loop, unlock_found, unlock}
use sybline.Core.Chain.{Item, item, items, Seg, last_or, IsQueue}
use sybline.Core.Chain.Frame.{items-append}
use sybline.Core.Spec.{Holds, Nacked, nack_hit, nack, behind, bury}
use sybline.Core.Refine.Remove.{released-Holds}
use sybline.Core.Refine.Unlink.{unlink_lem}
use sybline.Core.Refine.Touch.{write-IsQueue, touch-items, touch-before, touch-after}
use sybline.Core.Refine.Search.{Never, find_first}

module _ (consumer id : Bytes) (ll dlq : LinkedList) where
  -- No node has the id.
  unlock_loop-missing :
      (k : ℕ) (prev cur : Ptr) (ps : List Ptr)
      → Seg ll.cells null cur ps
      → Never (λ p. equal (ll.cells p).id id) ps
      → length ps < k
      → unlock_loop k consumer id prev cur ll dlq ≡ ok (false, ll, dlq)
  unfolding unlock_loop
  unlock_loop-missing zero prev cur ps s n fuel = absurd (omega arith)
  unlock_loop-missing (suc k) prev cur [] s n fuel = rw s
  unlock_loop-missing (suc k) prev cur (p ∷ ps) s n fuel =
      let positive : (p == null) ≡ false = ground arith in
      rw (s.0, positive, n.0) (unlock_loop-missing k p (ll.cells p).next ps s.2 n.1 (omega arith))

  -- The loop stops at the first node that has it.
  unlock_loop-found :
      (k : ℕ) (prev cur p : Ptr) (us vs : List Ptr)
      → Seg ll.cells null cur (us ++ p ∷ vs)
      → Never (λ p. equal (ll.cells p).id id) us
      → equal (ll.cells p).id id ≡ true
      → length us < k
      → unlock_loop k consumer id prev cur ll dlq ≡ unlock_found consumer (last_or prev us) p ll dlq
  unfolding unlock_loop
  unlock_loop-found zero prev cur p us vs s n h fuel = absurd (omega arith)
  unlock_loop-found (suc k) prev cur p [] vs s n h fuel =
      let positive : (p == null) ≡ false = ground arith in rw (s.0, positive, h)
  unlock_loop-found (suc k) prev cur p (c ∷ cs) vs s n h fuel =
      let positive : (c == null) ≡ false = ground arith in
      rw (s.0, positive, n.0)
        (unlock_loop-found k c (ll.cells c).next p cs vs s.2 n.1 h (omega arith))

abbrev has_id : Bytes → Item → Bool
has_id id x = equal x.id id

pub Never-items :
    (f : Item → Bool) (cells : Ptr → Node) (ps : List Ptr)
    → Never (λ p. f (item (cells p))) ps
    → Never f (items cells ps)
Never-items f cells [] n = tt
Never-items f cells (p ∷ ps) n = (n.0, Never-items f cells ps n.1)

module _ (limit : ℕ) (consumer id : Bytes) where
  nack-missing :
      (xs : List Item)
      → Never (has_id id) xs
      → nack limit consumer id xs ≡ record { done = false; expired = none; left = xs }
  unfolding nack
  nack-missing [] n = refl
  nack-missing (x ∷ xs) n = rw (n.0, nack-missing xs n.1)

  nack-found :
      (us : List Item) (x : Item) (vs : List Item)
      → Never (has_id id) us
      → has_id id x ≡ true
      → nack limit consumer id (us ++ x ∷ vs) ≡ behind us (nack_hit limit consumer x vs)
  unfolding nack
  nack-found [] x vs n h = rw h
  nack-found (u ∷ us) x vs n h = rw (n.0, nack-found us x vs n.1 h)

-- What Unlock comes to, by the contract.
abbrev pub Outcome :
    Run (Bool × LinkedList × LinkedList) → DeadLetter → LinkedList → Nacked → ℕ → Type 0
Outcome run dead dlq r drift =
    (l : LinkedList) × (run ≡ (bury dead r.expired dlq >>= λ d. ok (r.done, l, d)))
    × Holds l r.left drift

abbrev succeed : LinkedList → LinkedList → Run (Bool × LinkedList × LinkedList)
succeed l d = ok (true, l, d)

-- A node at its limit: the binds of the code, whatever becomes of the dead-letter queue.
expire_binds :
    (out : LinkedList) (p : Ptr) (buried : Run LinkedList) (unlinked : Run LinkedList)
    → unlinked ≡ ok out
    → (buried
        >>= (λ d. unlinked >>= λ l. ok (l, d))
        >>= (λ (l, d). ok (decrement (release_object p l), d))
        >>= λ (l, d). succeed l d)
      ≡ (buried >>= λ d. succeed (decrement (release_object p out)) d)
expire_binds out p (ok d) unlinked e = rw e
expire_binds out p panic unlinked e = refl
expire_binds out p out_of_fuel unlinked e = refl

module _ (consumer : Bytes) (ll dlq : LinkedList) (p : Ptr) (us vs : List Ptr) {drift : ℕ}
    (q : IsQueue ll (us ++ p ∷ vs) drift) where
  unlock_found-nack :
      Outcome
        (unlock_found consumer (last_or null us) p ll dlq)
        ll.dead_letter
        dlq
        (behind
          (items ll.cells us)
          (nack_hit ll.fetch_limit consumer (item (ll.cells p)) (items ll.cells vs)))
        drift
  unfolding unlock_found nack_hit nack_node handle_threshold_expire bury write
  unlock_found-nack =
      let n = ll.cells p in
      let m : Node = record n { consumer_id = []; fetched = add32 n.fetched 1 } in
      let l = write p m ll in
      let lq = write-IsQueue ll p m us vs q refl in
      let (out, e, u) = unlink_lem l p us vs lq in
      let self : (p == p) ≡ true = ground arith in
      elim (Bool-cases (equal n.consumer_id consumer)) [
        | inr other ↦ (
          ll,
          rw other,
          rw other (record {
            nodes = us ++ p ∷ vs;
            queue = q;
            holds = items-append ll.cells us (p ∷ vs);
          }),
        )
        | inl own ↦ elim (Bool-cases (leb ll.fetch_limit (add32 n.fetched 1))) [
          | inl over ↦ (
            decrement (release_object p out),
            rw (own, over, self) (expire_binds out p _ _ e),
            rw (own, over)
                (rw (← touch-before ll p m us vs q, ← touch-after ll p m us vs q)
                  (released-Holds l p us vs lq u)),
          )
          | inr under ↦ (
            l,
            rw (own, under),
            rw (own, under)
                (record { nodes = us ++ p ∷ vs; queue = lq; holds = touch-items ll p m us vs q }),
          )
        ]
      ]

module _ (consumer id : Bytes) (ll dlq : LinkedList) {drift : ℕ} where
  unlock-missing :
      (ps : List Ptr)
      → IsQueue ll ps drift
      → Never (λ p. equal (ll.cells p).id id) ps
      → Outcome
          (unlock consumer id ll dlq)
          ll.dead_letter
          dlq
          (nack ll.fetch_limit consumer id (items ll.cells ps))
          drift
  unfolding unlock bury
  unlock-missing ps q n =
      rw
        (nack-missing ll.fetch_limit consumer id (items ll.cells ps)
          (Never-items (has_id id) ll.cells ps n))
        (
          ll,
          unlock_loop-missing consumer id ll dlq (suc ll.fresh) null ll.head ps q.chain n
              (omega (arith, q.store.room)),
          record { nodes = ps; queue = q; holds = refl },
        )

  unlock-found :
      (p : Ptr) (us vs : List Ptr)
      → IsQueue ll (us ++ p ∷ vs) drift
      → Never (λ p. equal (ll.cells p).id id) us
      → equal (ll.cells p).id id ≡ true
      → Outcome
          (unlock consumer id ll dlq)
          ll.dead_letter
          dlq
          (nack ll.fetch_limit consumer id (items ll.cells (us ++ p ∷ vs)))
          drift
  unfolding unlock
  unlock-found p us vs q n h =
      rw
        (
          items-append ll.cells us (p ∷ vs),
          nack-found ll.fetch_limit consumer id (items ll.cells us) (item (ll.cells p))
              (items ll.cells vs) (Never-items (has_id id) ll.cells us n) h,
          unlock_loop-found consumer id ll dlq (suc ll.fresh) null ll.head p us vs q.chain n h
              (omega (arith, q.store.room, length-append us (p ∷ vs))),
        )
        (unlock_found-nack consumer ll dlq p us vs q)

  unlock-nodes :
      (ps : List Ptr)
      → IsQueue ll ps drift
      → Outcome
          (unlock consumer id ll dlq)
          ll.dead_letter
          dlq
          (nack ll.fetch_limit consumer id (items ll.cells ps))
          drift
  unlock-nodes ps q = elim (find_first (λ p. equal (ll.cells p).id id) ps) [
    | inl n ↦ unlock-missing ps q n
    | inr r ↦ rw r.split (unlock-found r.hit r.before r.after (rw r.split at q) r.missed r.holds)
  ]

-- Unlock returns or panics exactly as the contract of the dead-letter queue says, and leaves the
-- items that `nack` leaves.
pub unlock-nack :
    {ll : LinkedList} {xs : List Item} {drift : ℕ} (consumer id : Bytes) (dlq : LinkedList)
    → Holds ll xs drift
    → Outcome
        (unlock consumer id ll dlq)
        ll.dead_letter
        dlq
        (nack ll.fetch_limit consumer id xs)
        drift
unlock-nack consumer id dlq h = rw (← h.holds) (unlock-nodes consumer id _ dlq h.nodes h.queue)
