-- ===== src/Core/Refine/Append.antt =====
-- `append_nodes`, the end of Enqueue and BatchEnqueue.
use sybline.Base.{◌≡◌, refl, ap₂, ◌∙◌, sym, true, false, List, [], ◌∷◌, ◌++◌, ◌==◌, arith}
use sybline.Core.Run.{ok}
use sybline.Core.Node.{Ptr, null, Node, LinkedList, put_cell}
use sybline.Core.LinkedList.{append_nodes, set_next}
use sybline.Core.Chain.{items, Seg, has, last_or, IsLast, Stores}
use sybline.Core.Chain.Frame.{
  Seg-put, items-put, Seg-join, Seg-relink, items-put_same, items-append, Distinct-split,
  has-append, has-last_or, IsStore-put, last_or-pos_ne, last_or-append, not-has_of_Disjoint,
}

-- `l` has the nodes `ps` and then `qs`, which hold what they held in `ll`.
pub record IsAppended (ll : LinkedList) (ps qs : List Ptr) (l : LinkedList) : Type 0 where
  pub chain : Seg l.cells null l.head (ps ++ qs)
  pub tail : IsLast l.tail (ps ++ qs)
  pub store : Stores l (ps ++ qs)
  pub same : items l.cells (ps ++ qs) ≡ items ll.cells ps ++ items ll.cells qs
  pub amount : l.amount ≡ ll.amount
  pub cap : l.cap ≡ ll.cap

module _ (ll : LinkedList) (q : Ptr) (qs : List Ptr) (first : Seg ll.cells null q (q ∷ qs)) where
  append-nil :
      ll.head ≡ null
      → Stores ll (q ∷ qs)
      → (l : LinkedList) × (append_nodes q (last_or q qs) ll ≡ ok l) × IsAppended ll [] (q ∷ qs) l
  unfolding append_nodes set_next
  append-nil empty s =
      let last = last_or q qs in
      (
        record ll {
          head = q;
          tail = last;
          cells = put_cell ll.cells last (record (ll.cells last) { next = null });
        },
        rw (empty, last_or-pos_ne ll.cells null q q qs first),
        record {
          chain = Seg-relink ll.cells null null q q qs s.distinct first;
          tail = refl;
          store = IsStore-put ll.cells ll.pool ll.fresh (q ∷ qs) last _ s (has-last_or q qs);
          same = items-put_same ll.cells last _ (q ∷ qs) refl;
          amount = refl;
          cap = refl;
        },
      )

  module _ (r : Ptr) (rs : List Ptr) where
    append-cons :
        Seg ll.cells null ll.head (r ∷ rs)
        → ll.tail ≡ last_or r rs
        → Stores ll ((r ∷ rs) ++ q ∷ qs)
        → (l : LinkedList) × (append_nodes q (last_or q qs) ll ≡ ok l)
          × IsAppended ll (r ∷ rs) (q ∷ qs) l
    unfolding append_nodes set_next
    append-cons chain tail s =
        let end = last_or r rs in
        let d = Distinct-split (r ∷ rs) (q ∷ qs) s.distinct in
        let n : Node = record (ll.cells end) { next = q } in
        let out = not-has_of_Disjoint end (r ∷ rs) (q ∷ qs) d.2 (has-last_or r rs) in
        let used : has end ((r ∷ rs) ++ q ∷ qs) ≡ true =
          ground (arith, has-append end (r ∷ rs) (q ∷ qs), has-last_or r rs) in
        let l : LinkedList = record ll { tail = last_or q qs; cells = put_cell ll.cells end n } in
        let nonempty : (ll.head == null) ≡ false = ground arith in
        (
          l,
          rw (nonempty, tail, last_or-pos_ne ll.cells null ll.head r rs chain),
          record {
            chain =
                Seg-join l.cells null ll.head q (r ∷ rs) (q ∷ qs)
                  (Seg-relink ll.cells q null ll.head r rs d.0 chain)
                  (Seg-put ll.cells end n null q (q ∷ qs) out first);
            tail = sym (last_or-append r rs qs q);
            store = IsStore-put ll.cells ll.pool ll.fresh ((r ∷ rs) ++ q ∷ qs) end n s used;
            same =
                items-append l.cells (r ∷ rs) (q ∷ qs)
                ∙ ap₂ ◌++◌ (items-put_same ll.cells end n (r ∷ rs) refl)
                    (items-put ll.cells end n (q ∷ qs) out);
            amount = refl;
            cap = refl;
          },
        )

  pub append_nodes-IsAppended :
      (ps : List Ptr)
      → Seg ll.cells null ll.head ps
      → IsLast ll.tail ps
      → Stores ll (ps ++ q ∷ qs)
      → (l : LinkedList) × (append_nodes q (last_or q qs) ll ≡ ok l) × IsAppended ll ps (q ∷ qs) l
  append_nodes-IsAppended [] chain tail s = append-nil chain s
  append_nodes-IsAppended (r ∷ rs) chain tail s = append-cons r rs chain tail s
