-- ===== src/Core/Node.antt =====
-- The nodes of pkg/core/LinkedList.go, the counter of Counter.go, the pool of NodeObjectPool.go and
-- the list itself. A pointer is an address, 0 is nil. Each list has its own nodes: they come from its
-- own pool and never leave it.
use sybline.Base.{ℕ, suc, Bool, List, [], ◌∷◌, ◌++◌, Bytes, length, ltb, ◌==◌, if◌then◌else◌}
use sybline.Base.Words.{add64, sub64}

abbrev pub Ptr : Type 0
Ptr = ℕ

abbrev pub null : Ptr
null = 0

pub record Node : Type 0 where
  pub id : Bytes
  pub val : Bytes
  pub next : Ptr
  pub consumer_id : Bytes
  pub time : ℕ
  pub fetched : ℕ

abbrev pub no_consumer : Bytes
no_consumer = []

-- `&ListNode{}`, and a node after `Reset`
abbrev pub blank : Node
blank = record { id = []; val = []; next = null; consumer_id = []; time = 0; fetched = 0 }

-- `deadLetter *Queue`: no pointer, a pointer to a nil interface, or a pointer to a queue.
pub data DeadLetter : Type 0 where
  no_pointer nil_queue to_queue : DeadLetter

pub record LinkedList : Type 0 where
  pub head : Ptr
  pub tail : Ptr
  -- `Counter.count`, an `int`
  pub amount : ℕ
  pub cap : ℕ
  pub node_ttl : ℕ
  pub dead_letter : DeadLetter
  pub fetch_limit : ℕ
  -- the channel of the pool, oldest first, and its capacity
  pub pool : List Ptr
  pub max_size : ℕ
  -- the nodes, and the next address that the allocator has not given out
  pub cells : Ptr → Node
  pub fresh : ℕ

unfoldable pub new_queue : (size fetch_limit node_ttl : ℕ) → DeadLetter → LinkedList
new_queue size fetch_limit node_ttl dead_letter = record {
  head = null;
  tail = null;
  amount = 0;
  cap = size;
  node_ttl = node_ttl;
  dead_letter = dead_letter;
  fetch_limit = fetch_limit;
  pool = [];
  max_size = size;
  cells = λ _. blank;
  fresh = 1;
}

-- `*p = n`
abbrev pub put_cell : (Ptr → Node) → Ptr → Node → Ptr → Node
put_cell cells p n a = if a == p then n else cells a

unfoldable pub write : Ptr → Node → LinkedList → LinkedList
write p n ll = record ll { cells = put_cell ll.cells p n }

-- Counter.Increment, IncrementBy and Decrement
unfoldable pub increment_by : ℕ → LinkedList → LinkedList
increment_by n ll = record ll { amount = add64 ll.amount n }

unfoldable pub increment : LinkedList → LinkedList
increment ll = record ll { amount = add64 ll.amount 1 }

unfoldable pub decrement : LinkedList → LinkedList
decrement ll = record ll { amount = sub64 ll.amount 1 }

unfoldable pub decrement_by : ℕ → LinkedList → LinkedList
decrement_by n ll = record ll { amount = sub64 ll.amount n }

-- NodeObjectPool.GetObject: the oldest pooled node, or a new one. Nothing calls `Close`.
unfoldable pub take_object : List Ptr → LinkedList → Ptr × LinkedList
take_object [] ll =
    (ll.fresh, record ll { fresh = suc ll.fresh; cells = put_cell ll.cells ll.fresh blank })
take_object (p ∷ rest) ll = (p, record ll { pool = rest })

unfoldable pub get_object : LinkedList → Ptr × LinkedList
unfolding take_object
get_object ll = take_object ll.pool ll

-- NodeObjectPool.ReleaseObject: reset, and keep the node while the channel has room.
unfoldable pub release_object : Ptr → LinkedList → LinkedList
unfolding write
release_object p ll =
    let l = write p blank ll in
    if ltb (length l.pool) l.max_size then record l { pool = l.pool ++ p ∷ [] } else l

unfoldable pub is_empty : LinkedList → Bool
is_empty ll = ll.head == null

unfoldable pub capacity : LinkedList → ℕ
capacity ll = ll.cap
