-- ===== src/Core/QueueManager.antt =====
-- pkg/core/QueueManager.go and pkg/core/ConsumerManager.go. Queues are objects that the map and the
-- dead-letter pointers refer to by address, so a queue that left the map may still be enqueued to.
use Prim.Native.String.{◌++◌}
use sybline.Base.{
  ℕ, suc, String, Bool, true, false, Option, none, some, List, [], ◌∷◌, Bytes, ◌==◌, str_eq,
  if◌then◌else◌,
}
use sybline.Base.Dict
use sybline.Base.Dict.{Dict}
use sybline.Core.Run.{Run, ok, panic, ◌>>=◌}
use sybline.Core.Node.{DeadLetter, no_pointer, nil_queue, to_queue, LinkedList, new_queue}
use sybline.Core.LinkedList.{enqueue, batch_enqueue, is_full, unlock}
use sybline.Core.LinkedList.Ack.{
  AckError, AckResult, acked, failed, unlock_and_empty, unlock_and_empty_batch,
}
use sybline.Core.LinkedList.Nack.{NackError, NackResult, nacked, nack_failed, batch_unlock}
use sybline.Core.LinkedList.Dequeue.{dequeue}

-- The error values of pkg/core.
pub data CoreError : Type 0 where
  invalid_queue_name invalid_queue_size queue_already_exists queue_missing failed_empty : CoreError
  failed_queue_creation missing_routing_key routing_key_does_not_exist : CoreError
  queue_does_not_exist queue_must_have_one_routing_key empty_data : CoreError
  ack_error : AckError → CoreError
  nack_error : NackError → CoreError

abbrev pub Ref : Type 0
Ref = ℕ

-- A queue object: its list, and the object that its dead-letter pointer leads to if there is one.
pub record Queue : Type 0 where
  pub list : LinkedList
  pub dead : Ref

pub record QueueManager : Type 0 where
  pub queues : Dict Ref
  pub objects : Ref → Queue
  pub next : Ref
  pub node_ttl : ℕ

-- The outcome of a method: an error or nil, and the state.
abbrev pub Outcome : Type 0
Outcome = Run (Option CoreError × QueueManager)

abbrev pub set_object : Ref → Queue → QueueManager → QueueManager
set_object r q m = record m { objects = λ s. if s == r then q else m.objects s }

abbrev pub put_list : Ref → LinkedList → QueueManager → QueueManager
put_list r l m = set_object r (record (m.objects r) { list = l }) m

unfoldable pub new_queue_manager : ℕ → QueueManager
new_queue_manager node_ttl = record {
  queues = [];
  objects = λ _. record { list = new_queue 0 0 node_ttl no_pointer; dead = 0 };
  next = 0;
  node_ttl = node_ttl;
}

-- `name + "-dlq"`
abbrev pub dlq_name : String → String
dlq_name name = name ++ "-dlq"

-- The dead-letter queue of CreateQueue: it stands in the map under "-dlq", whatever stood there.
unfoldable pub create_dlq : String → (size retry_limit : ℕ) → Bool → QueueManager → QueueManager
create_dlq name size retry_limit false m = m
create_dlq name size retry_limit true m =
    let dlq : Queue = record {
      list = new_queue size retry_limit m.node_ttl no_pointer;
      dead = 0;
    } in
    let n = set_object m.next dlq m in
    record n { queues = Dict.put m.queues (dlq_name name) m.next; next = suc m.next }

-- `&dlq` is never nil: without a dead-letter queue it points to a nil interface.
abbrev pub dead_pointer : Bool → DeadLetter
dead_pointer true = to_queue
dead_pointer false = nil_queue

unfoldable pub create_queue :
    String → (size retry_limit : ℕ) → Bool → QueueManager → Option CoreError × QueueManager
create_queue name size retry_limit has_dlq m =
    if str_eq name ""
    then (some invalid_queue_name, m)
    else if size == 0
    then (some invalid_queue_size, m)
    else elim (Dict.get m.queues name) [
      | some r ↦ (some queue_already_exists, m)
      | none ↦
          let m' = create_dlq name size retry_limit has_dlq m in
          let q : Queue = record {
            list = new_queue size retry_limit m.node_ttl (dead_pointer has_dlq);
            dead = m.next;
          } in
          let n = set_object m'.next q m' in
          (none, record n { queues = Dict.put m'.queues name m'.next; next = suc m'.next })
    ]

-- `queue, ok := q.queues[name]`
abbrev pub with_queue : String → QueueManager → (Ref → Outcome) → Outcome
with_queue name m f = elim (Dict.get m.queues name) [
  | none ↦ ok (some queue_missing, m)
  | some r ↦ f r
]

unfoldable pub add_message : String → (message id : Bytes) → QueueManager → Outcome
add_message name message id m =
    with_queue name m λ r. do l ← enqueue id message (m.objects r).list; ok (none, put_list r l m)

-- The loop of BatchAddMessage indexes `ids` by the indices of `data`: too few ids panic.
unfoldable pub pair_messages : List Bytes → List Bytes → Run (List (Bytes × Bytes))
pair_messages [] ids = ok []
pair_messages (d ∷ ds) [] = panic
pair_messages (d ∷ ds) (i ∷ ids) = do ms ← pair_messages ds ids; ok ((i, d) ∷ ms)

unfoldable pub batch_add_message : String → (messages ids : List Bytes) → QueueManager → Outcome
batch_add_message name messages ids m = with_queue name m λ r. do
  ms ← pair_messages messages ids
  l ← batch_enqueue ms (m.objects r).list
  ok (none, put_list r l m)

unfoldable pub queue_is_full : String → QueueManager → Option Bool
queue_is_full name m = elim (Dict.get m.queues name) [
  | none ↦ none
  | some r ↦ some (is_full (m.objects r).list)
]

abbrev pub Message : Type 0
Message = Bytes × Bytes

-- `for index := range ids`: the two results have one length.
unfoldable pub pair_results : List Bytes → List Bytes → Run (List Message)
pair_results [] vals = ok []
pair_results (i ∷ ids) [] = panic
pair_results (i ∷ ids) (v ∷ vals) = do ms ← pair_results ids vals; ok ((i, v) ∷ ms)

-- GetMessage; `none` is ErrQueueMissing.
unfoldable pub get_message :
    String
    → (amount : ℕ) → Bytes
    → (time : ℕ) → QueueManager
    → Run (Option (List Message) × QueueManager)
get_message name amount consumer time m = elim (Dict.get m.queues name) [
  | none ↦ ok (none, m)
  | some r ↦ do
    ((vals, ids), l) ← dequeue amount consumer time (m.objects r).list
    ms ← pair_results ids vals
    ok (some ms, put_list r l m)
]

abbrev pub ack_outcome : AckResult → Option CoreError
ack_outcome acked = none
ack_outcome (failed e) = some (ack_error e)

abbrev pub nack_outcome : NackResult → Option CoreError
nack_outcome nacked = none
nack_outcome (nack_failed e) = some (nack_error e)

unfoldable pub ack : String → (consumer id : Bytes) → QueueManager → Outcome
ack name consumer id m = with_queue name m λ r. do
  (res, l) ← unlock_and_empty consumer id (m.objects r).list
  ok (ack_outcome res, put_list r l m)

unfoldable pub batch_ack : String → Bytes → List Bytes → QueueManager → Outcome
batch_ack name consumer ids m = with_queue name m λ r. do
  (res, l) ← unlock_and_empty_batch consumer ids (m.objects r).list
  ok (ack_outcome res, put_list r l m)

-- A method that may enqueue to the dead-letter queue writes both objects back.
abbrev pub put_both : Ref → LinkedList → LinkedList → QueueManager → QueueManager
put_both r l d m = elim l.dead_letter [
  | to_queue ↦ put_list r l (put_list (m.objects r).dead d m)
  | _ ↦ put_list r l m
]

unfoldable pub nack : String → (consumer id : Bytes) → QueueManager → Outcome
nack name consumer id m = with_queue name m λ r. do
  let q = m.objects r
  (done, l, d) ← unlock consumer id q.list (m.objects q.dead).list
  ok (if done then none else some failed_empty, put_both r l d m)

unfoldable pub batch_nack : String → Bytes → List Bytes → QueueManager → Outcome
batch_nack name consumer ids m = with_queue name m λ r. do
  let q = m.objects r
  (res, l, d) ← batch_unlock consumer ids q.list (m.objects q.dead).list
  ok (nack_outcome res, put_both r l d m)

unfoldable pub delete : String → QueueManager → Option CoreError × QueueManager
delete name m = elim (Dict.get m.queues name) [
  | none ↦ (some queue_missing, m)
  | some r ↦ (none, record m { queues = Dict.delete m.queues name })
]

unfoldable pub exists : String → QueueManager → Bool
exists name m = elim (Dict.get m.queues name) [ none ↦ false | some r ↦ true ]

-- The names, in the order of the association list.
unfoldable pub get_all_queues : Dict Ref → List String
get_all_queues [] = []
get_all_queues ((name, r) ∷ queues) = name ∷ get_all_queues queues

-- pkg/core/ConsumerManager.go: `none` and `some e` as above, and an empty name is refused first.
unfoldable pub get_messages :
    String
    → (amount : ℕ) → Bytes
    → (time : ℕ) → QueueManager
    → Run ((Option CoreError × List Message) × QueueManager)
get_messages name amount consumer time m =
    if str_eq name "" then ok ((some invalid_queue_name, []), m) else do
      (res, n) ← get_message name amount consumer time m
      ok (elim res [ none ↦ (some queue_missing, []) | some ms ↦ (none, ms) ], n)
