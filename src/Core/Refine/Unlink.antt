-- ===== src/Core/Refine/Unlink.antt =====
-- The pointer updates of handleThresholdExpire of pkg/core/LinkedList.go.
use sybline.Base.{
  ℕ, ◌≡◌, refl, sym, ◌∙◌, Bool, true, false, List, [], ◌∷◌, ◌++◌, ◌==◌, arith, append-nil,
}
use sybline.Core.Run.{ok}
use sybline.Core.Node.{Ptr, null, Node, LinkedList, put_cell}
use sybline.Core.LinkedList.{set_next, unlink}
use sybline.Core.Chain.{Seg, has, Distinct, last_or, IsLast, IsQueue}
use sybline.Core.Chain.Frame.{
  Seg-put, items-put_same, Blank-put, Seg-split, Seg-join, Seg-relink, Distinct-split, has-last_or,
  not_last, last_or-append, last_or-pos_ne, not-has_of_Disjoint, has-append,
}
use sybline.Core.Chain.Middle.{Distinct-middle}
use sybline.Core.Refine.Remove.{IsUnlinked}

abbrev pub is_nil : List Ptr → Bool
is_nil [] = true
is_nil (p ∷ ps) = false

pub IsLast-middle : (t p : Ptr) (us vs : List Ptr) → IsLast t (us ++ p ∷ vs) → t ≡ last_or p vs
IsLast-middle t p [] vs h = h
IsLast-middle t p (c ∷ cs) vs h = h ∙ last_or-append c cs vs p

-- The tests of the code by position.
pub at_tail :
    (t p : Ptr) (us vs : List Ptr)
    → IsLast t (us ++ p ∷ vs)
    → Distinct (us ++ p ∷ vs)
    → (p == t) ≡ is_nil vs
at_tail t p us [] h d = ground (arith, IsLast-middle t p us [] h)
at_tail t p us (v ∷ vs) h d =
    rw (IsLast-middle t p us (v ∷ vs) h) (not_last p v vs (Distinct-split us (p ∷ v ∷ vs) d).1.0)

pub at_head :
    (cells : Ptr → Node) (h p : Ptr) (us vs : List Ptr)
    → Seg cells null h (us ++ p ∷ vs)
    → Distinct (us ++ p ∷ vs)
    → (p == h) ≡ is_nil us
at_head cells h p [] vs s d = ground arith
at_head cells h p (c ∷ cs) vs s d = let out = (Distinct-middle p (c ∷ cs) vs d).0 in ground arith

-- Behind the node `end` of the list, `p` is skipped by a write of its successor.
module _ (ll : LinkedList) (p c : Ptr) (cs vs : List Ptr) {drift : ℕ}
    (q : IsQueue ll ((c ∷ cs) ++ p ∷ vs) drift) (tail' : Ptr)
    (tail'_last : IsLast tail' ((c ∷ cs) ++ vs)) where
  pub skip_node : LinkedList
  skip_node =
      let end = last_or c cs in
      record ll {
        tail = tail';
        cells = put_cell ll.cells end (record (ll.cells end) { next = (ll.cells p).next });
      }

  pub skip_node-IsUnlinked : IsUnlinked ll (c ∷ cs) vs skip_node
  unfolding skip_node
  skip_node-IsUnlinked =
      let end = last_or c cs in
      let n : Node = record (ll.cells end) { next = (ll.cells p).next } in
      let d = Distinct-split (c ∷ cs) (p ∷ vs) q.store.distinct in
      let out = not-has_of_Disjoint end (c ∷ cs) (p ∷ vs) d.2 (has-last_or c cs) in
      let used : has end ((c ∷ cs) ++ p ∷ vs) ≡ true =
        ground (arith, has-append end (c ∷ cs) (p ∷ vs), has-last_or c cs) in
      let out' : has end vs ≡ false = ground arith in
      let unpooled = not-has_of_Disjoint end ((c ∷ cs) ++ p ∷ vs) ll.pool q.store.apart used in
      let parts = Seg-split ll.cells null ll.head p (c ∷ cs) vs q.chain in
      record {
        chain =
            Seg-join skip_node.cells null ll.head (ll.cells p).next (c ∷ cs) vs
              (Seg-relink ll.cells (ll.cells p).next p ll.head c cs d.0 parts.0)
              (Seg-put ll.cells end n null (ll.cells p).next vs out' parts.1.2);
        tail = tail'_last;
        same = items-put_same ll.cells end n ((c ∷ cs) ++ vs) refl;
        blanks = Blank-put ll.cells end n ll.pool unpooled q.store.blanks;
        pool = refl;
        fresh = refl;
        amount = refl;
        cap = refl;
      }

-- The only node, and the first of several.
pub only-IsUnlinked :
    (ll : LinkedList) (p : Ptr) {drift : ℕ}
    → IsQueue ll (p ∷ []) drift
    → IsUnlinked ll [] [] (record ll { head = null; tail = null })
only-IsUnlinked ll p q = record {
  chain = refl;
  tail = tt;
  same = refl;
  blanks = q.store.blanks;
  pool = refl;
  fresh = refl;
  amount = refl;
  cap = refl;
}

pub first-IsUnlinked :
    (ll : LinkedList) (p v : Ptr) (vs : List Ptr) {drift : ℕ}
    → IsQueue ll (p ∷ v ∷ vs) drift
    → IsUnlinked ll [] (v ∷ vs) (record ll { head = (ll.cells p).next })
first-IsUnlinked ll p v vs q = record {
  chain = q.chain.2;
  tail = q.tail;
  same = refl;
  blanks = q.store.blanks;
  pool = refl;
  fresh = refl;
  amount = refl;
  cap = refl;
}

unlink-IsUnlinked :
    (ll : LinkedList) (p : Ptr) (us vs : List Ptr) {drift : ℕ}
    → IsQueue ll (us ++ p ∷ vs) drift
    → (p == ll.tail) ≡ is_nil vs
    → (p == ll.head) ≡ is_nil us
    → (l : LinkedList) × (unlink (last_or null us) p ll ≡ ok l) × IsUnlinked ll us vs l
unfolding unlink set_next skip_node
unlink-IsUnlinked ll p [] [] q last first =
    (record ll { head = null; tail = null }, rw (last, first), only-IsUnlinked ll p q)
unlink-IsUnlinked ll p [] (v ∷ vs) q last first =
    (record ll { head = (ll.cells p).next }, rw (last, first), first-IsUnlinked ll p v vs q)
unlink-IsUnlinked ll p (c ∷ cs) [] q last first =
    let parts = Seg-split ll.cells null ll.head p (c ∷ cs) [] q.chain in
    let end_tail : IsLast (last_or c cs) ((c ∷ cs) ++ []) = rw append-nil in
    (
      skip_node ll p c cs [] q (last_or c cs) end_tail,
      rw (last, first, last_or-pos_ne ll.cells p ll.head c cs parts.0, parts.1.2),
      skip_node-IsUnlinked ll p c cs [] q (last_or c cs) end_tail,
    )
unlink-IsUnlinked ll p (c ∷ cs) (v ∷ vs) q last first =
    let parts = Seg-split ll.cells null ll.head p (c ∷ cs) (v ∷ vs) q.chain in
    let end_tail : IsLast ll.tail ((c ∷ cs) ++ v ∷ vs) =
      q.tail ∙ last_or-append c cs (v ∷ vs) p ∙ sym (last_or-append c cs vs v) in
    (
      skip_node ll p c cs (v ∷ vs) q ll.tail end_tail,
      rw (last, first, last_or-pos_ne ll.cells p ll.head c cs parts.0),
      skip_node-IsUnlinked ll p c cs (v ∷ vs) q ll.tail end_tail,
    )

pub unlink_lem :
    (ll : LinkedList) (p : Ptr) (us vs : List Ptr) {drift : ℕ}
    → IsQueue ll (us ++ p ∷ vs) drift
    → (l : LinkedList) × (unlink (last_or null us) p ll ≡ ok l) × IsUnlinked ll us vs l
unlink_lem ll p us vs q =
    unlink-IsUnlinked ll p us vs q (at_tail ll.tail p us vs q.tail q.store.distinct)
      (at_head ll.cells ll.head p us vs q.chain q.store.distinct)
