-- ===== src/Core/Managed.antt =====
-- The queue manager as the contents of its queues.
pub mod Order
pub mod Submit
pub mod Fetch
use sybline.Base.{
  ℕ, ◌+◌, ◌≡◌, Option, none, some, List, [], ◌∷◌, Bytes, length, String, ◌==◌, if◌then◌else◌,
}
use sybline.Base.Dict
use sybline.Base.Dict.{Dict}
use sybline.Core.Node.{LinkedList}
use sybline.Core.Chain.{Item}
use sybline.Core.Spec.{Holds, new_item, push}
use sybline.Core.QueueManager.{Ref, QueueManager}

-- What a queue stands for.
pub record Contents : Type 0 where
  pub items : List Item
  pub drift : ℕ
  pub cap : ℕ

-- Each queue object, also one that no name leads to, holds these contents.
abbrev pub IsManaged : QueueManager → (Ref → Contents) → Type 0
IsManaged m c =
    (r : Ref)
    → Holds (m.objects r).list (c r).items (c r).drift × ((m.objects r).list.cap ≡ (c r).cap)

abbrev pub update : (Ref → Contents) → Ref → Contents → Ref → Contents
update c r x s = if s == r then x else c s

-- One more message at the end, below the capacity.
abbrev pub pushed : (id val : Bytes) → Contents → Contents
pushed id val x = record x {
  items = push x.cap (length x.items + x.drift) (new_item id val) x.items;
}

-- The message goes to the queue of this name, if there is one.
unfoldable pub submitted : (id val : Bytes) → Dict Ref → String → (Ref → Contents) → Ref → Contents
submitted id val queues name c = elim (Dict.get queues name) [
  | none ↦ c
  | some r ↦ update c r (pushed id val (c r))
]

-- The message goes to each of the queues, one after the other.
unfoldable pub submitted_all :
    (id val : Bytes) → Dict Ref → List String → (Ref → Contents) → Ref → Contents
submitted_all id val queues [] c = c
submitted_all id val queues (name ∷ names) c =
    submitted_all id val queues names (submitted id val queues name c)
