-- ===== src/Core/Shelf.antt =====
-- What a queue manager of pkg/core promises: each queue as a sequence of items, with what it was
-- created with, under commands one after the other.
pub mod Follows
pub mod Queues
pub mod Letters
pub mod Creates
pub mod Refines
pub mod Fatal
use sybline.Base.{
  ℕ, suc, ◌+◌, ◌^◌, ◌<◌, String, Bool, true, false, Option, none, some, List, [], ◌∷◌, Bytes,
  length, ◌==◌, str_eq, if◌then◌else◌,
}
use sybline.Base.Dict
use sybline.Base.Dict.{Dict}
use sybline.Core.Run.{Run, ok, panic, ◌>>=◌}
use sybline.Core.Node.{DeadLetter, no_pointer, nil_queue, to_queue}
use sybline.Core.LinkedList.Ack.{AckResult, acked, failed}
use sybline.Core.Chain.{Item}
use sybline.Core.Spec
use sybline.Core.Spec.{Nacked, new_item, push, fetch}
use sybline.Core.Refine.Ack.{ack_result}
use sybline.Core.Refine.Config.{Config}
use sybline.Core.Managed.Fetch.{messages_of}
use sybline.Core.QueueManager
use sybline.Core.QueueManager.{
  CoreError, invalid_queue_name, invalid_queue_size, queue_already_exists, queue_missing,
  failed_empty, Ref, Message, QueueManager, dlq_name, dead_pointer, ack_outcome,
}

pub data Command : Type 0 where
  create : String → (size retry_limit : ℕ) → (has_dlq : Bool) → Command
  submit : String → (message id : Bytes) → Command
  take : String → (amount : ℕ) → (consumer : Bytes) → (time : ℕ) → Command
  ack nack : String → (consumer id : Bytes) → Command
  delete : String → Command

pub data Reply : Type 0 where
  done : Option CoreError → Reply
  fetched : Option (List Message) → Reply

-- The methods of the queue manager.
unfoldable pub manage : Command → QueueManager → Run (Reply × QueueManager)
manage (create name size limit has_dlq) m =
    let r = QueueManager.create_queue name size limit has_dlq m in ok (done r.0, r.1)
manage (submit name message id) m = do
  r ← QueueManager.add_message name message id m
  ok (done r.0, r.1)
manage (take name amount consumer time) m = do
  r ← QueueManager.get_message name amount consumer time m
  ok (fetched r.0, r.1)
manage (ack name consumer id) m = do r ← QueueManager.ack name consumer id m; ok (done r.0, r.1)
manage (nack name consumer id) m = do r ← QueueManager.nack name consumer id m; ok (done r.0, r.1)
manage (delete name) m = let r = QueueManager.delete name m in ok (done r.0, r.1)

unfoldable pub manage_all : List Command → QueueManager → Run (List Reply × QueueManager)
manage_all [] m = ok ([], m)
manage_all (c ∷ cs) m = do r ← manage c m; rest ← manage_all cs r.1; ok (r.0 ∷ rest.0, rest.1)

-- A queue: its items, oldest first, and where its dead letters go.
pub record Stock : Type 0 where
  pub items : List Item
  pub settings : Config
  pub dead : Ref

pub record Shelf : Type 0 where
  pub names : Dict Ref
  pub stock : Ref → Stock
  pub next : Ref
  pub node_ttl : ℕ

abbrev pub set_stock : Ref → Stock → Shelf → Shelf
set_stock r x s = record s { stock = λ t. if t == r then x else s.stock t }

abbrev pub set_items : Ref → List Item → Shelf → Shelf
set_items r xs s = set_stock r (record (s.stock r) { items = xs }) s

-- The item at the end of the queue, unless it is full.
abbrev pub put_item : Ref → (id val : Bytes) → Shelf → Shelf
put_item r id val s =
    let q = s.stock r in
    set_items r (push q.settings.cap (length q.items + 0) (new_item id val) q.items) s

abbrev pub empty_stock : (size retry_limit node_ttl : ℕ) → DeadLetter → Ref → Stock
empty_stock size limit ttl kind dead = record {
  items = [];
  settings = record { cap = size; node_ttl = ttl; dead_letter = kind; fetch_limit = limit };
  dead = dead;
}

abbrev pub new_shelf : ℕ → Shelf
new_shelf ttl = record {
  names = [];
  stock = λ _. empty_stock 0 0 ttl no_pointer 0;
  next = 0;
  node_ttl = ttl;
}

-- The dead-letter queue that comes with a new queue takes its name, whatever had it.
unfoldable pub create_dead : String → (size retry_limit : ℕ) → Bool → Shelf → Shelf
create_dead name size limit false s = s
create_dead name size limit true s =
    record (set_stock s.next (empty_stock size limit s.node_ttl no_pointer 0) s) {
      names = Dict.put s.names (dlq_name name) s.next;
      next = suc (s.next);
    }

unfoldable pub create_stock : String → (size retry_limit : ℕ) → Bool → Shelf → Shelf
create_stock name size limit has_dlq s =
    let t = create_dead name size limit has_dlq s in
    record (set_stock t.next (empty_stock size limit s.node_ttl (dead_pointer has_dlq) s.next) t) {
      names = Dict.put t.names name t.next;
      next = suc (t.next);
    }

-- An expired item: lost without a dead-letter pointer, fatal with one that leads nowhere, and else a
-- new item of the dead-letter queue.
unfoldable pub expire : DeadLetter → Ref → Option Item → Shelf → Run Shelf
expire kind dead none s = ok s
expire no_pointer dead (some x) s = ok s
expire nil_queue dead (some x) s = panic
expire to_queue dead (some x) s = ok (put_item dead x.id x.val s)

abbrev pub at_queue : String → Shelf → Reply → (Ref → Run (Reply × Shelf)) → Run (Reply × Shelf)
at_queue name s missing f = elim (Dict.get s.names name) [ none ↦ ok (missing, s) | some r ↦ f r ]

unfoldable pub specified : Command → Shelf → Run (Reply × Shelf)
specified (create name size limit has_dlq) s =
    if str_eq name ""
    then ok (done (some invalid_queue_name), s)
    else if size == 0
    then ok (done (some invalid_queue_size), s)
    else elim (Dict.get s.names name) [
      | some r ↦ ok (done (some queue_already_exists), s)
      | none ↦ ok (done none, create_stock name size limit has_dlq s)
    ]
specified (submit name message id) s =
    at_queue name s (done (some queue_missing)) λ r. ok (done none, put_item r id message s)
specified (take name amount consumer time) s = at_queue name s (fetched none) λ r.
    let q = s.stock r in
    let out = fetch amount consumer time q.settings.node_ttl q.items in
    ok (fetched (some (messages_of out.0)), set_items r out.1 s)
specified (ack name consumer id) s = at_queue name s (done (some queue_missing)) λ r.
    let q = s.stock r in
    let out = Spec.ack consumer id q.items in
    ok (done (ack_outcome (ack_result q.items out.0)), set_items r out.1 s)
specified (nack name consumer id) s = at_queue name s (done (some queue_missing)) λ r. do
  let q = s.stock r
  let out = Spec.nack q.settings.fetch_limit consumer id q.items
  t ← expire q.settings.dead_letter q.dead out.expired (set_items r out.left s)
  ok (done (if out.done then none else some failed_empty), t)
specified (delete name) s = elim (Dict.get s.names name) [
  | none ↦ ok (done (some queue_missing), s)
  | some r ↦ ok (done none, record s { names = Dict.delete s.names name })
]

unfoldable pub specified_all : List Command → Shelf → Run (List Reply × Shelf)
specified_all [] s = ok ([], s)
specified_all (c ∷ cs) s = do
  r ← specified c s
  rest ← specified_all cs r.1
  ok (r.0 ∷ rest.0, rest.1)
