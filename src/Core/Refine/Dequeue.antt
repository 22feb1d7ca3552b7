-- ===== src/Core/Refine/Dequeue.antt =====
-- Dequeue of pkg/core/LinkedList.go and the contract `fetch`.
use sybline.Base.{
  ℕ, zero, suc, ◌-◌, ◌<◌, ◌≡◌, refl, sym, ap, ◌∙◌, inl, inr, Bool, true, false, List, [], ◌∷◌, ◌++◌,
  Bytes, length, ltb, ◌==◌, arith, Bool-cases, length-append, append_assoc, append-nil,
}
use sybline.Core.Run.{Run, ok}
use sybline.Core.Node.{Ptr, null, Node, LinkedList, write}
use sybline.Core.LinkedList.Dequeue.{Fetched, available, dequeue_loop, dequeue}
use sybline.Core.Chain.{Item, item, items, Seg, IsQueue}
use sybline.Core.Chain.Frame.{items-append}
use sybline.Core.Spec.{Holds, fetch, can_take, locked, vals_of, ids_of}
use sybline.Core.Refine.Touch.{
  write-IsQueue, touch-after, touch-Seg, touch-items_snoc, node_ttl-write,
}

-- After the loop: what was handed out is appended to `out`, and the items are `before` and `left`.
abbrev Hands :
    Run (Fetched × LinkedList) → Fetched → List Ptr → List Item → List Item → List Item → ℕ → Type 0
Hands run (vals, ids) ps before taken left drift =
    (l : LinkedList) × (run ≡ ok ((vals ++ vals_of taken, ids ++ ids_of taken), l))
    × IsQueue l ps drift
    × (items l.cells ps ≡ before ++ left)

-- One more node counted to what stands before the rest.
module _ (l : LinkedList) (p : Ptr) (us ps : List Ptr) {drift : ℕ} where
  pub regroup-IsQueue : IsQueue l (us ++ p ∷ ps) drift → IsQueue l ((us ++ p ∷ []) ++ ps) drift
  regroup-IsQueue q = rw append_assoc q

  pub ungroup-IsQueue : IsQueue l ((us ++ p ∷ []) ++ ps) drift → IsQueue l (us ++ p ∷ ps) drift
  ungroup-IsQueue q = rw append_assoc at q

pub ungroup-items :
    (l : LinkedList) (p : Ptr) (us ps : List Ptr) (before left : List Item) (x : Item)
    → items l.cells ((us ++ p ∷ []) ++ ps) ≡ (before ++ x ∷ []) ++ left
    → items l.cells (us ++ p ∷ ps) ≡ before ++ x ∷ left
ungroup-items l p us ps before left x h =
    ap (λ ns. items l.cells ns) (sym (append_assoc us (p ∷ []) ps))
    ∙ h
    ∙ append_assoc before (x ∷ []) left

module _ (consumer : Bytes) (time ttl room : ℕ) (x : Item) (xs : List Item) where
  fetch-none : (room == 0) ≡ true → fetch room consumer time ttl (x ∷ xs) ≡ ([], x ∷ xs)
  unfolding fetch
  fetch-none e = rw e

  fetch-take :
      (room == 0) ≡ false
      → can_take consumer time ttl x ≡ true
      → fetch room consumer time ttl (x ∷ xs)
        ≡ (let r = fetch (room - 1) consumer time ttl xs in (x ∷ r.0, locked consumer time x ∷ r.1))
  unfolding fetch
  fetch-take e h = rw (e, h)

  fetch-skip :
      (room == 0) ≡ false
      → can_take consumer time ttl x ≡ false
      → fetch room consumer time ttl (x ∷ xs)
        ≡ (let r = fetch room consumer time ttl xs in (r.0, x ∷ r.1))
  unfolding fetch
  fetch-skip e h = rw (e, h)

module _ (amount : ℕ) (consumer : Bytes) (time k : ℕ) (vals ids : List Bytes) (ll : LinkedList)
    (p : Ptr) (positive : (p == null) ≡ false) where
  loop-full :
      ltb (length vals) amount ≡ false
      → dequeue_loop (suc k) amount consumer time p (vals, ids) ll ≡ ok ((vals, ids), ll)
  unfolding dequeue_loop
  loop-full e = rw (positive, e)

  loop-take :
      ltb (length vals) amount ≡ true
      → available consumer time ll.node_ttl (ll.cells p) ≡ true
      → dequeue_loop (suc k) amount consumer time p (vals, ids) ll ≡ (
          let n = ll.cells p in
          dequeue_loop k amount consumer time n.next
            (vals ++ n.val ∷ [], ids ++ n.id ∷ [])
            (write p (record n { consumer_id = consumer; time = time }) ll))
  unfolding dequeue_loop
  loop-take e h = rw (positive, e, h)

  loop-skip :
      ltb (length vals) amount ≡ true
      → available consumer time ll.node_ttl (ll.cells p) ≡ false
      → dequeue_loop (suc k) amount consumer time p (vals, ids) ll
        ≡ dequeue_loop k amount consumer time (ll.cells p).next (vals, ids) ll
  unfolding dequeue_loop
  loop-skip e h = rw (positive, e, h)

abbrev handed : List Bytes → List Bytes → LinkedList → Run (Fetched × LinkedList)
handed vals ids l = ok ((vals, ids), l)

-- The results of the loop, one more at the end of what was collected.
out_assoc :
    (vals vals' ids ids' : List Bytes) (v i : Bytes) (l : LinkedList)
    → handed ((vals ++ v ∷ []) ++ vals') ((ids ++ i ∷ []) ++ ids') l
      ≡ handed (vals ++ v ∷ vals') (ids ++ i ∷ ids') l
out_assoc vals vals' ids ids' v i l = rw (append_assoc, append_assoc)

available_lem :
    (consumer : Bytes) (time ttl ttl' : ℕ) (n : Node) (b : Bool)
    → ttl' ≡ ttl
    → can_take consumer time ttl (item n) ≡ b
    → available consumer time ttl' n ≡ b
unfolding available
available_lem consumer time ttl ttl' n b t h = rw t h

module _ (amount : ℕ) (consumer : Bytes) (time ttl : ℕ) {drift : ℕ} where
  dequeue_loop-fetch :
      (k room : ℕ) (vals ids : List Bytes) (ll : LinkedList) (cur : Ptr) (us ps : List Ptr)
      → ll.node_ttl ≡ ttl
      → amount - length vals ≡ room
      → IsQueue ll (us ++ ps) drift
      → Seg ll.cells null cur ps
      → length ps < k
      → (let r = fetch room consumer time ttl (items ll.cells ps) in
          Hands
            (dequeue_loop k amount consumer time cur (vals, ids) ll)
            (vals, ids)
            (us ++ ps)
            (items ll.cells us)
            r.0
            r.1
            drift)
  dequeue_loop-fetch zero room vals ids ll cur us ps t a q s fuel = absurd (omega arith)
  dequeue_loop-fetch (suc k) room vals ids ll cur us [] t a q s fuel =
      unfold dequeue_loop fetch in
      (ll, rw (s, append-nil, append-nil), q, items-append ll.cells us [])
  dequeue_loop-fetch (suc k) room vals ids ll cur us (p ∷ ps) t a q s fuel =
      let positive : (p == null) ≡ false = ground arith in
      let n = ll.cells p in
      let xs = items ll.cells ps in
      elim (Bool-cases (ltb (length vals) amount)) [
        | inr full ↦
            let none_left : (room == 0) ≡ true = ground arith in
            rw (s.0, fetch-none consumer time ttl room (item n) xs none_left)
              (
                ll,
                rw (append-nil, append-nil)
                    (loop-full amount consumer time k vals ids ll p positive full),
                q,
                items-append ll.cells us (p ∷ ps),
              )
        | inl space ↦
            let some_left : (room == 0) ≡ false = ground arith in
            elim (Bool-cases (can_take consumer time ttl (item n))) [
              | inl free ↦
                  let m : Node = record n { consumer_id = consumer; time = time } in
                  let l1 = write p m ll in
                  let same = touch-after ll p m us ps q in
                  let (l, e, q2, h) = rw same at (
                    dequeue_loop-fetch k (room - 1) (vals ++ n.val ∷ []) (ids ++ n.id ∷ []) l1
                      n.next (us ++ p ∷ []) ps (node_ttl-write ll p m ∙ t)
                      (omega (arith, a, length-append vals (n.val ∷ [])))
                      (regroup-IsQueue l1 p us ps (write-IsQueue ll p m us ps q refl))
                      (touch-Seg ll p m us ps q null n.next s.2) (omega arith)) in
                  let r = fetch (room - 1) consumer time ttl xs in
                  rw (s.0, fetch-take consumer time ttl room (item n) xs some_left free)
                    (
                      l,
                      loop-take amount consumer time k vals ids ll p positive space
                            (available_lem consumer time ttl ll.node_ttl n true t free)
                          ∙ e
                          ∙ out_assoc vals (vals_of r.0) ids (ids_of r.0) n.val n.id l,
                      ungroup-IsQueue l p us ps q2,
                      ungroup-items l p us ps (items ll.cells us) r.1
                          (locked consumer time (item n))
                          (h ∙ ap (λ zs. zs ++ r.1) (touch-items_snoc ll p m us ps q)),
                    )
              | inr held ↦
                  let (l, e, q2, h) =
                    dequeue_loop-fetch k room vals ids ll n.next (us ++ p ∷ []) ps t a
                      (regroup-IsQueue ll p us ps q) s.2 (omega arith) in
                  rw (s.0, fetch-skip consumer time ttl room (item n) xs some_left held)
                    (
                      l,
                      loop-skip amount consumer time k vals ids ll p positive space
                            (available_lem consumer time ttl ll.node_ttl n false t held)
                          ∙ e,
                      ungroup-IsQueue l p us ps q2,
                      ungroup-items l p us ps (items ll.cells us) _ (item n) (
                          h
                          ∙ ap (λ zs. zs ++ (fetch room consumer time ttl xs).1)
                              (items-append ll.cells us (p ∷ []))),
                    )
            ]
      ]

module _ (amount : ℕ) (consumer : Bytes) (time : ℕ) (ll : LinkedList) {drift : ℕ} where
  dequeue-nodes :
      (ps : List Ptr)
      → IsQueue ll ps drift
      → (let r = fetch amount consumer time ll.node_ttl (items ll.cells ps) in
          (l : LinkedList) × (dequeue amount consumer time ll ≡ ok ((vals_of r.0, ids_of r.0), l))
          × Holds l r.1 drift)
  dequeue-nodes [] q =
      unfold dequeue fetch in (ll, rw q.chain, record { nodes = []; queue = q; holds = refl })
  dequeue-nodes (p ∷ ps) q =
      let (l, e, q2, h) =
        dequeue_loop-fetch amount consumer time ll.node_ttl (suc ll.fresh) amount [] [] ll ll.head
          [] (p ∷ ps) refl (omega arith) q q.chain (omega (arith, q.store.room)) in
      let nonempty : (ll.head == null) ≡ false = ground arith in
      (l, unfold dequeue in rw nonempty e, record { nodes = p ∷ ps; queue = q2; holds = h })

-- Dequeue returns: it hands out what `fetch` takes, in order, and leaves the items that `fetch` leaves.
pub dequeue-fetch :
    {ll : LinkedList} {xs : List Item} {drift : ℕ} (amount : ℕ) (consumer : Bytes) (time : ℕ)
    → Holds ll xs drift
    → (let r = fetch amount consumer time ll.node_ttl xs in
        (l : LinkedList) × (dequeue amount consumer time ll ≡ ok ((vals_of r.0, ids_of r.0), l))
        × Holds l r.1 drift)
dequeue-fetch {ll} amount consumer time h =
    rw (← h.holds) (dequeue-nodes amount consumer time ll h.nodes h.queue)
