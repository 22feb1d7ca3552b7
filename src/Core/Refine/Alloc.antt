-- ===== src/Core/Refine/Alloc.antt =====
-- Nodes from the pool or the allocator.
use sybline.Base.{
  suc, ◌<◌, ◌≡◌, refl, true, false, List, [], ◌∷◌, ◌++◌, Bytes, ◌==◌, arith, length-append, ==→eq,
}
use sybline.Core.Node.{Ptr, Node, no_consumer, blank, LinkedList, write, take_object, get_object}
use sybline.Core.LinkedList.{new_node}
use sybline.Core.Chain.{has, Stores}
use sybline.Core.Chain.Frame.{
  Blank-put, Below-suc, Below-append, has-Below, Disjoint-tail, Distinct-snoc, Disjoint-snoc,
}

abbrev pub message_node : Bytes → Bytes → Node
message_node id val = record blank { id = id; val = val; consumer_id = no_consumer; time = 0 }

-- `l` is `ll` with one more node `p` in use, whose content is `n`.
pub record IsReady (ll : LinkedList) (os : List Ptr) (n : Node) (p : Ptr) (l : LinkedList)
    : Type 0 where
  pub store : Stores l (os ++ p ∷ [])
  pub content : l.cells p ≡ n
  pub new : has p os ≡ false
  pub unpooled : has p l.pool ≡ false
  pub positive : 0 < p
  pub head : l.head ≡ ll.head
  pub tail : l.tail ≡ ll.tail
  pub amount : l.amount ≡ ll.amount
  pub cap : l.cap ≡ ll.cap
  pub same : (a : Ptr) → has a os ≡ true → l.cells a ≡ ll.cells a

not_new : (a p : Ptr) (os : List Ptr) → has p os ≡ false → has a os ≡ true → (a == p) ≡ false
not_new a p os new old = ground (arith, ==→eq a p)

module _ (ll : LinkedList) (os : List Ptr) (s : Stores ll os) where
  take_object-IsReady :
      (pool : List Ptr)
      → ll.pool ≡ pool
      → IsReady ll os blank (take_object pool ll).0 (take_object pool ll).1
  unfolding take_object
  take_object-IsReady [] e =
      let out = has-Below ll.fresh os s.below in
      let out' = has-Below ll.fresh ll.pool s.pool_below in
      record {
        store = record {
          distinct = Distinct-snoc os ll.fresh s.distinct out;
          pooled = s.pooled;
          apart = Disjoint-snoc os ll.pool ll.fresh s.apart out';
          below =
              Below-append (suc ll.fresh) os (ll.fresh ∷ []) (Below-suc ll.fresh os s.below)
                (omega (arith, s.room));
          pool_below = Below-suc ll.fresh ll.pool s.pool_below;
          blanks = Blank-put ll.cells ll.fresh blank ll.pool out' s.blanks;
          room = omega (arith, s.room, length-append os (ll.fresh ∷ []));
        };
        content = ground arith;
        new = out;
        unpooled = out';
        positive = omega (arith, s.room);
        head = refl;
        tail = refl;
        amount = refl;
        cap = refl;
        same = λ a h. rw (not_new a ll.fresh os out h);
      }
  take_object-IsReady (p ∷ rest) e =
      let pooled = rw e at s.pooled in
      let apart = Disjoint-tail os rest p (rw e at s.apart) in
      let below = rw e at s.pool_below in
      let blanks = rw e at s.blanks in
      let room = rw e at s.room in
      record {
        store = record {
          distinct = Distinct-snoc os p s.distinct apart.0;
          pooled = pooled.1;
          apart = Disjoint-snoc os rest p apart.1 pooled.0;
          below = Below-append ll.fresh os (p ∷ []) s.below (below.0, below.1, tt);
          pool_below = below.2;
          blanks = blanks.1;
          room = omega (arith, room, length-append os (p ∷ []));
        };
        content = blanks.0;
        new = apart.0;
        unpooled = pooled.0;
        positive = below.0;
        head = refl;
        tail = refl;
        amount = refl;
        cap = refl;
        same = λ a h. refl;
      }

  -- Assigning the fields of a new node touches nothing else.
  write-IsReady :
      (n m : Node) (p : Ptr) (l : LinkedList)
      → IsReady ll os n p l
      → IsReady ll os m p (write p m l)
  unfolding write
  write-IsReady n m p l r = record {
    store = record {
      distinct = r.store.distinct;
      pooled = r.store.pooled;
      apart = r.store.apart;
      below = r.store.below;
      pool_below = r.store.pool_below;
      blanks = Blank-put l.cells p m l.pool r.unpooled r.store.blanks;
      room = r.store.room;
    };
    content = ground arith;
    new = r.new;
    unpooled = r.unpooled;
    positive = r.positive;
    head = r.head;
    tail = r.tail;
    amount = r.amount;
    cap = r.cap;
    same = λ a h. rw (not_new a p os r.new h) (r.same a h);
  }

  pub new_node-IsReady :
      (id val : Bytes)
      → IsReady ll os (message_node id val) (new_node id val ll).0 (new_node id val ll).1
  unfolding new_node get_object write
  new_node-IsReady id val =
      let r = take_object-IsReady ll.pool refl in
      rw r.content (write-IsReady blank (message_node id val) _ _ r)
