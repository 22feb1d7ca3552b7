-- ===== src/Core/Chain.antt =====
-- Representation: the nodes of a chain, and a well-formed list with its pool.
pub mod Frame
pub mod Middle
use sybline.Base.{ℕ, ◌+◌, ◌^◌, ◌<◌, ◌≡◌, Bool, false, ◌||◌, List, [], ◌∷◌, Bytes, length, ◌==◌}
use sybline.Core.Node.{Ptr, null, Node, blank, LinkedList}

-- What a node says of its message.
pub record Item : Type 0 where
  pub id : Bytes
  pub val : Bytes
  pub consumer_id : Bytes
  pub time : ℕ
  pub fetched : ℕ

abbrev pub item : Node → Item
item n = record {
  id = n.id;
  val = n.val;
  consumer_id = n.consumer_id;
  time = n.time;
  fetched = n.fetched;
}

abbrev pub items : (Ptr → Node) → List Ptr → List Item
items cells [] = []
items cells (p ∷ ps) = item (cells p) ∷ items cells ps

-- From `p` the `Next` pointers lead through the nodes `ps` to `stop`.
abbrev pub Seg : (Ptr → Node) → (stop p : Ptr) → List Ptr → Type 0
Seg cells stop p [] = p ≡ stop
Seg cells stop p (q ∷ qs) = (p ≡ q) × (0 < q) × Seg cells stop (cells q).next qs

abbrev pub has : Ptr → List Ptr → Bool
has a [] = false
has a (p ∷ ps) = (a == p) || has a ps

abbrev pub Distinct : List Ptr → Type 0
Distinct [] = Unit
Distinct (p ∷ ps) = (has p ps ≡ false) × Distinct ps

abbrev pub Disjoint : List Ptr → List Ptr → Type 0
Disjoint [] qs = Unit
Disjoint (p ∷ ps) qs = (has p qs ≡ false) × Disjoint ps qs

abbrev pub Below : ℕ → List Ptr → Type 0
Below n [] = Unit
Below n (p ∷ ps) = (0 < p) × (p < n) × Below n ps

abbrev pub Blank : (Ptr → Node) → List Ptr → Type 0
Blank cells [] = Unit
Blank cells (p ∷ ps) = (cells p ≡ blank) × Blank cells ps

abbrev pub last_or : Ptr → List Ptr → Ptr
last_or d [] = d
last_or d (p ∷ ps) = last_or p ps

-- The last pointer of a list that is not empty.
abbrev pub IsLast : Ptr → List Ptr → Type 0
IsLast t [] = Unit
IsLast t (p ∷ ps) = t ≡ last_or p ps

-- The nodes `ps` are in use: they are distinct, and none is in the pool or yet to be allocated.
-- Pooled nodes are blank. The addresses given out bound the number of nodes.
pub record IsStore (cells : Ptr → Node) (pool : List Ptr) (fresh : ℕ) (ps : List Ptr) : Type 0 where
  pub distinct : Distinct ps
  pub pooled : Distinct pool
  pub apart : Disjoint ps pool
  pub below : Below fresh ps
  pub pool_below : Below fresh pool
  pub blanks : Blank cells pool
  pub room : length ps + length pool < fresh

abbrev pub Stores : LinkedList → List Ptr → Type 0
Stores ll ps = IsStore ll.cells ll.pool ll.fresh ps

-- `ps` are the nodes of the list in order, and the counter stands `drift` above their number.
pub record IsQueue (ll : LinkedList) (ps : List Ptr) (drift : ℕ) : Type 0 where
  pub chain : Seg ll.cells null ll.head ps
  pub tail : IsLast ll.tail ps
  pub store : Stores ll ps
  pub amount : ll.amount ≡ length ps + drift
  pub amount_fits : ll.amount < 2 ^ 63
  pub cap_fits : ll.cap < 2 ^ 32
