-- ===== src/Core/Refine/Enqueue.antt =====
-- Enqueue of pkg/core/LinkedList.go and the contract `push`.
use sybline.Base.{
  ℕ, ◌+◌, ◌<◌, ◌^◌, ◌≡◌, refl, ap, ap₂, ◌∙◌, inl, inr, List, [], ◌∷◌, ◌++◌, Bytes, length, leb,
  arith, length-append, Bool-cases, not_leb→lt,
}
use sybline.Base.Words.{le64_small, add64, add64_small}
use sybline.Core.Run.{ok}
use sybline.Core.Node.{Ptr, null, Node, LinkedList, increment}
use sybline.Core.LinkedList.{new_node, is_full, enqueue}
use sybline.Core.Chain.{Item, item, items, Seg, IsQueue}
use sybline.Core.Chain.Frame.{Seg-frame, items-frame, IsStore-init, length-items}
use sybline.Core.Spec.{Holds, new_item, push}
use sybline.Core.Refine.Alloc.{IsReady, new_node-IsReady}
use sybline.Core.Refine.Append.{IsAppended, append_nodes-IsAppended}

pub is_full_lem :
    (ll : LinkedList) → ll.cap < 2 ^ 32 → ll.amount < 2 ^ 63 → is_full ll ≡ leb ll.cap ll.amount
unfolding is_full
is_full_lem ll c a = le64_small ll.cap ll.amount (omega arith) a

module _ {ll : LinkedList} {ps : List Ptr} {drift : ℕ} (q : IsQueue ll ps drift) {n : Node}
    {p : Ptr} {l : LinkedList} (r : IsReady ll ps n p l) where
  -- The list itself is as before the allocation.
  pub ready-IsQueue : IsQueue l ps drift
  ready-IsQueue = record {
    chain = rw r.head (Seg-frame ll.cells l.cells null ll.head ps r.same q.chain);
    tail = rw r.tail q.tail;
    store = IsStore-init l.cells l.pool l.fresh ps (p ∷ []) r.store;
    amount = rw r.amount q.amount;
    amount_fits = rw r.amount q.amount_fits;
    cap_fits = rw r.cap q.cap_fits;
  }

  pub ready-items : items l.cells ps ≡ items ll.cells ps
  ready-items = items-frame ll.cells l.cells ps r.same

  pub ready-Seg : n.next ≡ null → Seg l.cells null p (p ∷ [])
  ready-Seg e = (refl, r.positive, rw r.content e)

-- A list to which nodes were appended, once the counter has them.
pub count_appended :
    {l : LinkedList} {ps qs : List Ptr} {xs ys : List Item} {drift : ℕ} {l' : LinkedList} (m : ℕ)
    → IsQueue l ps drift
    → items l.cells ps ≡ xs
    → items l.cells qs ≡ ys
    → IsAppended l ps qs l'
    → m ≡ l'.amount + length qs
    → m < 2 ^ 63
    → Holds (record l' { amount = m }) (xs ++ ys) drift
count_appended {ps} {qs} m q held added a e fits = record {
  nodes = ps ++ qs;
  queue = record {
    chain = a.chain;
    tail = a.tail;
    store = a.store;
    amount = omega (arith, e, a.amount, q.amount, length-append ps qs);
    amount_fits = fits;
    cap_fits = rw a.cap q.cap_fits;
  };
  holds = a.same ∙ ap₂ ◌++◌ held added;
}

-- Enqueue returns, and appends the new item unless the counter has reached the capacity.
pub enqueue-push :
    {ll : LinkedList} {xs : List Item} {drift : ℕ} (id val : Bytes)
    → Holds ll xs drift
    → (l : LinkedList) × (enqueue id val ll ≡ ok l)
      × Holds l (push ll.cap (length xs + drift) (new_item id val) xs) drift
unfolding enqueue push increment
enqueue-push {ll} {xs} {drift} id val h =
    let ps = h.nodes in
    let made = new_node id val ll in
    let r = new_node-IsReady ll ps h.queue.store id val in
    let q = ready-IsQueue h.queue r in
    let held : items made.1.cells ps ≡ xs = ready-items h.queue r ∙ h.holds in
    let amount : ll.amount ≡ length xs + drift =
      omega (arith, h.queue.amount, ap length h.holds, length-items ll.cells ps) in
    let full : is_full made.1 ≡ leb ll.cap (length xs + drift) =
      is_full_lem made.1 q.cap_fits q.amount_fits ∙ rw (r.cap, r.amount, amount) in
    elim (Bool-cases (leb ll.cap (length xs + drift))) [
      | inl stop ↦
          (made.1, rw (full, stop), rw stop (record { nodes = ps; queue = q; holds = held }))
      | inr go ↦
          let (l, e, a) =
            append_nodes-IsAppended made.1 made.0 [] (ready-Seg h.queue r refl) ps q.chain q.tail
              r.store in
          let small : l.amount + 1 < 2 ^ 63 = omega (
            arith,
            a.amount,
            r.amount,
            amount,
            not_leb→lt ll.cap (length xs + drift) go,
            h.queue.cap_fits,
          ) in
          let count = add64_small l.amount 1 (omega (arith, small)) in
          (
            increment l,
            rw (full, go, e),
            rw go (
                count_appended (add64 l.amount 1) q held (ap (λ n. item n ∷ []) r.content) a count
                  (rw count small)),
          )
    ]
