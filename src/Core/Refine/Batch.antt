-- ===== src/Core/Refine/Batch.antt =====
-- BatchEnqueue of pkg/core/LinkedList.go and its contract `push_all`.
use sybline.Base.{
  ℕ, suc, ◌+◌, ◌<◌, ◌^◌, ◌≡◌, refl, ap, ap₂, subst, ◌∙◌, inl, inr, true, false, List, [], ◌∷◌, ◌++◌,
  Bytes, length, leb, ◌==◌, arith, length-append, append_assoc, append-nil, Bool-cases, not_leb→lt,
  if◌then◌else◌,
}
use sybline.Base.Words.{add64, add64_small}
use sybline.Core.Run.{ok}
use sybline.Core.Node.{Ptr, null, Node, LinkedList, write, put_cell, increment_by}
use sybline.Core.LinkedList.{
  new_node, set_next, is_full, append_nodes, link_messages, batch_enqueue,
}
use sybline.Core.Chain.{Item, item, items, Seg, has, last_or, IsQueue, Stores}
use sybline.Core.Chain.Frame.{
  Seg-frame, Seg-put, Seg-join, Seg-relink, items-frame, items-put, items-put_same, items-append,
  Distinct-split, IsStore-put, IsStore-init, has-append, has-last_or, not_last, last_or-snoc,
  last_or-pos_ne, not-has_of_Disjoint, length-items,
}
use sybline.Core.Spec.{Holds, new_item}
use sybline.Core.Refine.Alloc.{IsReady, new_node-IsReady}
use sybline.Core.Refine.Append.{append_nodes-IsAppended}
use sybline.Core.Refine.Enqueue.{is_full_lem, ready-Seg, count_appended}

-- The new items of a batch.
abbrev pub new_items : List (Bytes × Bytes) → List Item
new_items [] = []
new_items ((id, val) ∷ ms) = new_item id val ∷ new_items ms

-- BatchEnqueue: the capacity is tested once, before the whole batch.
unfoldable pub push_all : (cap amount : ℕ) → List Item → List Item → List Item
push_all cap amount news xs = if leb cap amount then xs else xs ++ news

-- `l` has the nodes `ps` as they were in `ll`, and a chain of new nodes from `q` that hold `ys`.
record IsLinked (ll : LinkedList) (ps : List Ptr) (q : Ptr) (qs : List Ptr) (ys : List Item)
    (l : LinkedList) : Type 0 where
  chain : Seg l.cells null q (q ∷ qs)
  store : Stores l (ps ++ q ∷ qs)
  content : items l.cells (q ∷ qs) ≡ ys
  head : l.head ≡ ll.head
  tail : l.tail ≡ ll.tail
  amount : l.amount ≡ ll.amount
  cap : l.cap ≡ ll.cap
  same : (a : Ptr) → has a ps ≡ true → l.cells a ≡ ll.cells a

module _ {ll : LinkedList} {ps : List Ptr} {q : Ptr} {qs : List Ptr} {ys : List Item}
    {l : LinkedList} (k : IsLinked ll ps q qs ys l) {n : Node} {p : Ptr} {m : LinkedList}
    (r : IsReady l (ps ++ q ∷ qs) n p m) (ends : n.next ≡ null) where
  -- One more node behind the last one.
  link-IsLinked :
      (let end = last_or q qs in
        let o = write end (record (m.cells end) { next = p }) m in
        (set_next end p m ≡ ok o) × IsLinked ll ps q (qs ++ p ∷ []) (ys ++ item n ∷ []) o)
  unfolding set_next write
  link-IsLinked =
      let end = last_or q qs in
      let d = Distinct-split ps (q ∷ qs) k.store.distinct in
      let d' = Distinct-split (ps ++ q ∷ qs) (p ∷ []) r.store.distinct in
      let old : (a : Ptr) → has a (q ∷ qs) ≡ true → has a (ps ++ q ∷ qs) ≡ true =
        λ a h. ground (arith, has-append a ps (q ∷ qs)) in
      let kept : (a : Ptr) → has a (q ∷ qs) ≡ true → m.cells a ≡ l.cells a =
        λ a h. r.same a (old a h) in
      let chain = Seg-frame l.cells m.cells null q (q ∷ qs) kept k.chain in
      let e : Node = record (m.cells end) { next = p } in
      let out : has end (p ∷ []) ≡ false =
        not-has_of_Disjoint end (ps ++ q ∷ qs) (p ∷ []) d'.2 (old end (has-last_or q qs)) in
      let used : has end ((ps ++ q ∷ qs) ++ p ∷ []) ≡ true =
        ground (arith, has-append end (ps ++ q ∷ qs) (p ∷ []), old end (has-last_or q qs)) in
      let alone : Seg m.cells null p (p ∷ []) = (refl, r.positive, rw r.content ends) in
      (
        rw (set_next, last_or-pos_ne m.cells null q q qs chain) refl,
        record {
          chain =
              Seg-join (put_cell m.cells end e) null q p (q ∷ qs) (p ∷ [])
                (Seg-relink m.cells p null q q qs d.1 chain)
                (Seg-put m.cells end e null p (p ∷ []) out alone);
          store =
              subst (IsStoreOf end e) (append_assoc ps (q ∷ qs) (p ∷ []))
                (IsStore-put m.cells m.pool m.fresh ((ps ++ q ∷ qs) ++ p ∷ []) end e r.store used);
          content =
              items-append (put_cell m.cells end e) (q ∷ qs) (p ∷ [])
              ∙ ap₂ ◌++◌
                  (items-put_same m.cells end e (q ∷ qs) refl
                    ∙ items-frame l.cells m.cells (q ∷ qs) kept
                    ∙ k.content)
                  (items-put m.cells end e (p ∷ []) out ∙ ap (λ x. item x ∷ []) r.content);
          head = r.head ∙ k.head;
          tail = r.tail ∙ k.tail;
          amount = r.amount ∙ k.amount;
          cap = r.cap ∙ k.cap;
          same = λ a h.
              let away : (a == end) ≡ false =
                not_last a q qs (not-has_of_Disjoint a ps (q ∷ qs) d.2 h) in
              let before : has a (ps ++ q ∷ qs) ≡ true = ground (arith, has-append a ps (q ∷ qs)) in
              rw away (r.same a before ∙ k.same a h);
        },
      )
    where
      IsStoreOf : Ptr → Node → List Ptr → Type 0
      IsStoreOf end e os = Stores (write end e m) os

-- The first node of a batch.
one-IsLinked :
    {ll : LinkedList} {xs : List Item} {drift : ℕ} (h : Holds ll xs drift) {n : Node} {p : Ptr}
    {l : LinkedList} (r : IsReady ll h.nodes n p l)
    → n.next ≡ null
    → IsLinked ll h.nodes p [] (item n ∷ []) l
one-IsLinked h r ends = record {
  chain = ready-Seg h.queue r ends;
  store = r.store;
  content = ap (λ n. item n ∷ []) r.content;
  head = r.head;
  tail = r.tail;
  amount = r.amount;
  cap = r.cap;
  same = r.same;
}

module _ {ll : LinkedList} {ps : List Ptr} (q : Ptr) where
  -- The loop of BatchEnqueue links a node for each message.
  link_messages-IsLinked :
      (ms : List (Bytes × Bytes)) (qs : List Ptr) (ys : List Item) (l : LinkedList)
      → IsLinked ll ps q qs ys l
      → (rs : List Ptr) × (o : LinkedList) × (link_messages ms (last_or q qs) l
          ≡ ok (last_or q rs, o))
        × (length rs ≡ length qs + length ms)
        × IsLinked ll ps q rs (ys ++ new_items ms) o
  unfolding link_messages
  link_messages-IsLinked [] qs ys l k = (qs, l, refl, omega arith, rw (append-nil ys) k)
  link_messages-IsLinked ((id, val) ∷ ms) qs ys l k =
      let made = new_node id val l in
      let r = new_node-IsReady l (ps ++ q ∷ qs) k.store id val in
      let (run, k') = link-IsLinked k r refl in
      let end : last_or q (qs ++ made.0 ∷ []) ≡ made.0 = last_or-snoc q qs made.0 in
      let (rs, o, run', count, k'') =
        link_messages-IsLinked ms (qs ++ made.0 ∷ []) (ys ++ new_item id val ∷ []) _ k' in
      (
        rs,
        o,
        rw run (rw end at run'),
        omega (arith, count, length-append qs (made.0 ∷ [])),
        rw (append_assoc ys (new_item id val ∷ []) (new_items ms)) at k'',
      )

module _ {ll : LinkedList} {ps : List Ptr} {drift : ℕ} (h : IsQueue ll ps drift) {q : Ptr}
    {qs : List Ptr} {ys : List Item} {l : LinkedList} (k : IsLinked ll ps q qs ys l) where
  -- The list itself is as before.
  linked-IsQueue : IsQueue l ps drift
  linked-IsQueue = record {
    chain = rw k.head (Seg-frame ll.cells l.cells null ll.head ps k.same h.chain);
    tail = rw k.tail h.tail;
    store = IsStore-init l.cells l.pool l.fresh ps (q ∷ qs) k.store;
    amount = rw k.amount h.amount;
    amount_fits = rw k.amount h.amount_fits;
    cap_fits = rw k.cap h.cap_fits;
  }

-- The chain goes to the end, and the counter goes up by its length.
append_linked :
    {ll : LinkedList} {xs : List Item} {drift : ℕ} (h : Holds ll xs drift) {q : Ptr} {qs : List Ptr}
    {ys : List Item} {o : LinkedList} (k : IsLinked ll h.nodes q qs ys o) (n : ℕ)
    → n ≡ suc (length qs)
    → n < 2 ^ 62
    → length xs + drift < 2 ^ 32
    → (l : LinkedList) × (append_nodes q (last_or q qs) o ≡ ok l)
      × Holds (increment_by n l) (xs ++ ys) drift
unfolding increment_by
append_linked {ll} {xs} {drift} h {q} {qs} {ys} {o} k n many small room =
    let ps = h.nodes in
    let held : items o.cells ps ≡ xs = items-frame ll.cells o.cells ps k.same ∙ h.holds in
    let amount : ll.amount ≡ length xs + drift =
      omega (arith, h.queue.amount, ap length h.holds, length-items ll.cells ps) in
    let now = linked-IsQueue h.queue k in
    let (l, e, a) = append_nodes-IsAppended o q qs k.chain ps now.chain now.tail k.store in
    let before : l.amount ≡ length xs + drift = a.amount ∙ k.amount ∙ amount in
    let count = add64_small l.amount n (omega (arith, before, room, small)) in
    (
      l,
      e,
      count_appended (add64 l.amount n) now held k.content a (omega (arith, count, many))
          (rw count (omega (arith, before, room, small))),
    )

push_all-nil : (cap amount : ℕ) (xs : List Item) → push_all cap amount [] xs ≡ xs
unfolding push_all
push_all-nil cap amount xs = elim (Bool-cases (leb cap amount)) [
  | inl e ↦ rw e refl
  | inr e ↦ rw e (append-nil xs)
]

-- BatchEnqueue returns, and appends a new item for each message in their order, unless the counter
-- has reached the capacity before: a batch may go past it. The batch has less than 2 ^ 62 messages.
pub batch_enqueue-push_all :
    {ll : LinkedList} {xs : List Item} {drift : ℕ} (ms : List (Bytes × Bytes))
    → length ms < 2 ^ 62
    → Holds ll xs drift
    → (l : LinkedList) × (batch_enqueue ms ll ≡ ok l)
      × Holds l (push_all ll.cap (length xs + drift) (new_items ms) xs) drift
unfolding batch_enqueue push_all increment_by
batch_enqueue-push_all {ll} {xs} {drift} [] small h =
    (ll, refl, rw (push_all-nil ll.cap (length xs + drift) xs) h)
batch_enqueue-push_all {ll} {xs} {drift} ((id, val) ∷ ms) small h =
    let made = new_node id val ll in
    let r = new_node-IsReady ll h.nodes h.queue.store id val in
    let amount : ll.amount ≡ length xs + drift =
      omega (arith, h.queue.amount, ap length h.holds, length-items ll.cells h.nodes) in
    let full : is_full ll ≡ leb ll.cap (length xs + drift) =
      is_full_lem ll h.queue.cap_fits h.queue.amount_fits ∙ ap (leb ll.cap) amount in
    elim (Bool-cases (leb ll.cap (length xs + drift))) [
      | inl stop ↦ (ll, rw (full, stop) refl, rw stop h)
      | inr go ↦
          let (qs, o, run, count, k) =
            link_messages-IsLinked made.0 ms [] _ made.1 (one-IsLinked h r refl) in
          let fewer : length qs ≡ length ms = omega (arith, count) in
          let (l, run', held) =
            append_linked h k (suc (length ms)) (omega (arith, fewer)) (omega (arith, small))
              (omega (arith, not_leb→lt ll.cap (length xs + drift) go, h.queue.cap_fits)) in
          (increment_by (suc (length ms)) l, rw (full, go, run, run') refl, rw go held)
    ]
