-- ===== src/Core/Spec.antt =====
-- The contract of a queue: what its methods do to the sequence of items.
use sybline.Base.{
  ℕ, ◌-◌, Bool, true, false, ◌&&◌, ◌||◌, Option, none, some, List, [], ◌∷◌, ◌++◌, Bytes, equal, leb,
  ◌==◌, if◌then◌else◌,
}
use sybline.Base.Words.{add32, sub64, lt64}
use sybline.Core.Run.{Run, ok}
use sybline.Core.Node.{LinkedList, DeadLetter}
use sybline.Core.LinkedList.{dead_enqueue}
use sybline.Core.Chain.{Item, items, IsQueue}
use sybline.Base.{◌≡◌}
use sybline.Core.Node.{Ptr}

abbrev pub new_item : Bytes → Bytes → Item
new_item id val = record { id = id; val = val; consumer_id = []; time = 0; fetched = 0 }

-- An item that was given back.
abbrev pub released : Item → Item
released x = record x { consumer_id = []; fetched = add32 x.fetched 1 }

-- The list stands for these items, with the counter `drift` above their number.
pub record Holds (ll : LinkedList) (xs : List Item) (drift : ℕ) : Type 0 where
  pub nodes : List Ptr
  pub queue : IsQueue ll nodes drift
  pub holds : items ll.cells nodes ≡ xs

-- Enqueue: nothing happens at the capacity.
unfoldable pub push : (cap amount : ℕ) → Item → List Item → List Item
push cap amount x xs = if leb cap amount then xs else xs ++ x ∷ []

-- UnlockAndEmpty: the first item with this id and this consumer goes.
unfoldable pub ack : Bytes → Bytes → List Item → Bool × List Item
ack consumer id [] = (false, [])
ack consumer id (x ∷ xs) =
    let (done, rest) = ack consumer id xs in
    if equal x.id id && equal x.consumer_id consumer then (true, xs) else (done, x ∷ rest)

-- Unlock: the first item with this id is given back if the consumer has it; at the limit it expires.
pub record Nacked : Type 0 where
  pub done : Bool
  pub expired : Option Item
  pub left : List Item

unfoldable pub nack_hit : (limit : ℕ) → Bytes → Item → List Item → Nacked
nack_hit limit consumer x xs =
    if equal x.consumer_id consumer
    then (if leb limit (add32 x.fetched 1)
        then record { done = true; expired = some x; left = xs }
        else record { done = true; expired = none; left = released x ∷ xs })
    else record { done = false; expired = none; left = x ∷ xs }

abbrev pub behind : List Item → Nacked → Nacked
behind us r = record r { left = us ++ r.left }

unfoldable pub nack : (limit : ℕ) → Bytes → Bytes → List Item → Nacked
nack limit consumer id [] = record { done = false; expired = none; left = [] }
nack limit consumer id (x ∷ xs) =
    let r = nack limit consumer id xs in
    if equal x.id id then nack_hit limit consumer x xs else behind (x ∷ []) r

-- Dequeue: the first `room` available items are locked by the consumer and handed out.
abbrev pub can_take : Bytes → (time ttl : ℕ) → Item → Bool
can_take consumer time ttl x =
    equal x.consumer_id consumer || (equal x.consumer_id [] || lt64 ttl (sub64 time x.time))

abbrev pub locked : Bytes → ℕ → Item → Item
locked consumer time x = record x { consumer_id = consumer; time = time }

unfoldable pub fetch : (room : ℕ) → Bytes → (time ttl : ℕ) → List Item → List Item × List Item
fetch room consumer time ttl [] = ([], [])
fetch room consumer time ttl (x ∷ xs) =
    let (taken, left) = fetch (room - 1) consumer time ttl xs in
    let (taken', left') = fetch room consumer time ttl xs in
    if room == 0
    then ([], x ∷ xs)
    else if can_take consumer time ttl x
    then (x ∷ taken, locked consumer time x ∷ left)
    else (taken', x ∷ left')

abbrev pub vals_of : List Item → List Bytes
vals_of [] = []
vals_of (x ∷ xs) = x.val ∷ vals_of xs

abbrev pub ids_of : List Item → List Bytes
ids_of [] = []
ids_of (x ∷ xs) = x.id ∷ ids_of xs

-- The expired item goes to the dead-letter queue, if there is an expired item and a pointer.
unfoldable pub bury : DeadLetter → Option Item → LinkedList → Run LinkedList
bury dead none dlq = ok dlq
bury dead (some x) dlq = dead_enqueue dead x.id x.val dlq
