-- ===== src/Tests/Queue.antt =====
-- Queues of pkg/core with concrete messages.
use sybline.Base.{ℕ, ◌^◌, ◌<◌, some, none, ◌≡◌, refl, List, [], ◌∷◌, Bytes, equal, arith}
use mathlib.Core.List.Permᴰ
use sybline.Base.Dict
use sybline.Core.LinkedList.{batch_enqueue}
use sybline.Core.LinkedList.Ack.{unlock_and_empty_batch, byte_slice_exists}
use sybline.Core.Refine.Batch.{new_items, push_all, batch_enqueue-push_all}
use sybline.Core.Refine.Full.{unlock_and_empty_batch-full}
use sybline.Core.QueueManager
use sybline.Core.QueueManager.{Ref}
use sybline.Core.Managed.Fetch.{messages_of, get_message-fetch}
use sybline.Core.Broker
use sybline.Core.Broker.{Broker}
use sybline.Core.Managed.{update, Contents, IsManaged, submitted_all}
use sybline.Core.Managed.Submit.{add_message-submitted_all}
use sybline.Base.Words.{sub64, lt64, le64}
use sybline.Core.Run.{ok}
use sybline.Core.Node.{
  DeadLetter, no_pointer, to_queue, Node, null, blank, put_cell, LinkedList, new_queue,
}
use sybline.Core.LinkedList.{enqueue, unlock, is_full}
use sybline.Core.LinkedList.Ack.{acked, unlock_and_empty}
use sybline.Core.LinkedList.Dequeue.{dequeue, unlock_all_from_consumer}
use sybline.Core.Refine.UnlockAll.{free_all, unlock_all_from_consumer-free_all}
use sybline.Core.Chain.{Item, item}
use sybline.Core.Spec.{Holds, new_item, push, fetch, nack, ack, vals_of, ids_of}
use sybline.Core.Refine.Enqueue.{enqueue-push}
use sybline.Core.Refine.Dequeue.{dequeue-fetch}
use sybline.Core.Refine.Ack.{Acks, ack_result, unlock_and_empty-ack}
use sybline.Core.Refine.Unlock.{Outcome, unlock-nack}
use sybline.Core.Refine.Dead.{new_queue-Holds}
use sybline.Core.Refine.Exclusive.{passed_over, dequeue-dequeue}

-- Two messages, the first of them with the consumer 7, who has had it once.
abbrev consumer : Bytes
consumer = 7 ∷ []

abbrev other : Bytes
other = 8 ∷ []

abbrev first : Node
first = record {
  id = 1 ∷ [];
  val = 65 ∷ [];
  next = 2;
  consumer_id = consumer;
  time = 10;
  fetched = 1;
}

abbrev second : Node
second = record { id = 2 ∷ []; val = 66 ∷ []; next = null; consumer_id = []; time = 0; fetched = 0 }

-- The two messages, fetched twice at most, for 100 units of time; `owner` has the second one.
abbrev queue_of : (owner : Bytes) → (cap : ℕ) → DeadLetter → LinkedList
queue_of owner cap dead = record {
  head = 1;
  tail = 2;
  amount = 2;
  cap = cap;
  node_ttl = 100;
  dead_letter = dead;
  fetch_limit = 2;
  pool = [];
  max_size = 3;
  cells = put_cell (put_cell (λ _. blank) 1 first) 2 (record second { consumer_id = owner });
  fresh = 3;
}

abbrev items_of : (owner : Bytes) → List Item
items_of owner = item first ∷ record (item second) { consumer_id = owner } ∷ []

queue_of-Holds :
    (owner : Bytes) (cap : ℕ) (dead : DeadLetter)
    → cap < 2 ^ 32
    → Holds (queue_of owner cap dead) (items_of owner) 0
queue_of-Holds owner cap dead fits = record {
  nodes = 1 ∷ 2 ∷ [];
  queue = record {
    chain = (refl, omega arith, (refl, omega arith, refl));
    tail = refl;
    store = record {
      distinct = (refl, (refl, tt));
      pooled = tt;
      apart = (refl, (refl, tt));
      below = (omega arith, omega arith, (omega arith, omega arith, tt));
      pool_below = tt;
      blanks = tt;
      room = omega arith;
    };
    amount = omega arith;
    amount_fits = omega arith;
    cap_fits = fits;
  };
  holds = refl;
}

-- Up to three messages; nobody has the second one.
abbrev two_messages : DeadLetter → LinkedList
two_messages dead = queue_of [] 3 dead

abbrev both : List Item
both = items_of []

two_messages-Holds : (dead : DeadLetter) → Holds (two_messages dead) both 0
two_messages-Holds dead = queue_of-Holds [] 3 dead (omega arith)

abbrev dead_queue : LinkedList
dead_queue = new_queue 3 2 100 no_pointer

dead_queue-Holds : Holds dead_queue [] 0
dead_queue-Holds = new_queue-Holds 3 2 100 no_pointer (omega arith)

enqueue-push_example :
    (l : LinkedList) × (enqueue (3 ∷ []) (67 ∷ []) (two_messages no_pointer) ≡ ok l)
    × Holds l (push 3 2 (new_item (3 ∷ []) (67 ∷ [])) both) 0
enqueue-push_example = enqueue-push (3 ∷ []) (67 ∷ []) (two_messages-Holds no_pointer)

dequeue-fetch_example :
    (let r = fetch 5 consumer 20 100 both in
      (l : LinkedList) × (dequeue 5 consumer 20 (two_messages no_pointer)
        ≡ ok ((vals_of r.0, ids_of r.0), l))
      × Holds l r.1 0)
dequeue-fetch_example = dequeue-fetch 5 consumer 20 (two_messages-Holds no_pointer)

unlock_and_empty-ack_example :
    Acks
      (unlock_and_empty consumer (1 ∷ []) (two_messages no_pointer))
      (ack_result both (ack consumer (1 ∷ []) both).0)
      (ack consumer (1 ∷ []) both).1
      0
unlock_and_empty-ack_example =
    unlock_and_empty-ack consumer (1 ∷ []) (two_messages-Holds no_pointer)

unlock-nack_example :
    Outcome
      (unlock consumer (1 ∷ []) (two_messages to_queue) dead_queue)
      to_queue
      dead_queue
      (nack 2 consumer (1 ∷ []) both)
      0
unlock-nack_example = unlock-nack consumer (1 ∷ []) dead_queue (two_messages-Holds to_queue)

dequeue-dequeue_example :
    (let taken = fetch 1 consumer 20 100 both in
      let others = fetch 5 other 30 100 (passed_over 1 consumer 20 100 both) in
      (l l' : LinkedList) × (dequeue 1 consumer 20 (two_messages no_pointer)
        ≡ ok ((vals_of taken.0, ids_of taken.0), l))
      × (dequeue 5 other 30 l ≡ ok ((vals_of others.0, ids_of others.0), l')))
unfolding equal lt64 sub64
dequeue-dequeue_example =
    dequeue-dequeue 1 5 consumer other 20 30 (two_messages-Holds no_pointer) refl refl refl

batch_enqueue-push_all_example :
    (l : LinkedList) × (batch_enqueue
        ((3 ∷ [], 67 ∷ []) ∷ (4 ∷ [], 68 ∷ []) ∷ [])
        (two_messages no_pointer)
      ≡ ok l)
    × Holds l (push_all 3 2 (new_items ((3 ∷ [], 67 ∷ []) ∷ (4 ∷ [], 68 ∷ []) ∷ [])) both) 0
batch_enqueue-push_all_example =
    batch_enqueue-push_all ((3 ∷ [], 67 ∷ []) ∷ (4 ∷ [], 68 ∷ []) ∷ []) (omega arith)
      (two_messages-Holds no_pointer)

-- Both messages are locked by the consumer, and the queue is full.
abbrev locked_both : LinkedList
locked_both = queue_of consumer 2 no_pointer

unlock_and_empty_batch-full_example :
    (l l' : LinkedList) × (unlock_and_empty_batch consumer ((1 ∷ []) ∷ (2 ∷ []) ∷ []) locked_both
      ≡ ok (acked, l))
    × Holds l [] 2
    × (enqueue (3 ∷ []) (67 ∷ []) l ≡ ok l')
    × Holds l' [] 2
unfolding byte_slice_exists equal is_full le64
unlock_and_empty_batch-full_example =
    unlock_and_empty_batch-full consumer (3 ∷ []) (67 ∷ []) ((1 ∷ []) ∷ (2 ∷ []) ∷ [])
      (queue_of-Holds consumer 2 no_pointer (omega arith)) refl (omega arith) (refl, (refl, tt))
      refl

-- A broker whose key "orders" leads to the queue "jobs", with the two messages.
abbrev small_broker : Broker
small_broker = record {
  routing = ("orders", "jobs" ∷ []) ∷ [];
  manager = record {
    queues = ("jobs", 0) ∷ [];
    objects = λ r. record { list = two_messages no_pointer; dead = 0 };
    next = 1;
    node_ttl = 100;
  };
}

abbrev contents : Ref → Contents
contents r = record { items = both; drift = 0; cap = 3 }

add_message-submitted_all_example :
    (b : Broker) × (Broker.add_message (λ ns. ns) "orders" (67 ∷ []) (3 ∷ []) small_broker
      ≡ ok (none, b))
    × (b.routing ≡ small_broker.routing)
    × IsManaged b.manager
        (submitted_all (3 ∷ []) (67 ∷ []) (("jobs", 0) ∷ []) ("jobs" ∷ []) contents)
unfolding Dict.get
add_message-submitted_all_example =
    add_message-submitted_all (λ ns. ns) "orders" (67 ∷ []) (3 ∷ []) small_broker contents
      (λ ns. Permᴰ.refl ns) (λ r. (two_messages-Holds no_pointer, refl))

unlock_all_from_consumer-free_all_example :
    (l : LinkedList) × (unlock_all_from_consumer consumer (two_messages no_pointer) ≡ ok l)
    × Holds l (free_all consumer both) 0
unlock_all_from_consumer-free_all_example =
    unlock_all_from_consumer-free_all consumer (two_messages-Holds no_pointer)

get_message-fetch_example :
    (let out = fetch 1 consumer 20 100 both in
      (n : QueueManager.QueueManager) × (QueueManager.get_message "jobs" 1 consumer 20
          small_broker.manager
        ≡ ok (some (messages_of out.0), n))
      × (n.queues ≡ small_broker.manager.queues)
      × IsManaged n (update contents 0 (record (contents 0) { items = out.1 })))
unfolding Dict.get
get_message-fetch_example =
    get_message-fetch small_broker.manager contents "jobs" 1 consumer 20 0
      (λ r. (two_messages-Holds no_pointer, refl)) refl
