-- ===== src/Core/LinkedList.antt =====
-- The methods of pkg/core/LinkedList.go. The mutex makes each of them atomic. A method returns the
-- new list; where the dead-letter queue is enqueued to, that queue goes in and out beside it.
pub mod Ack
pub mod Nack
pub mod Dequeue
use sybline.Base.{
  ℕ, zero, suc, ◌%◌, ◌^◌, Bool, true, false, ◌&&◌, List, [], ◌∷◌, Bytes, equal, length, leb, ◌==◌,
  if◌then◌else◌,
}
use sybline.Base.Words.{add32, le64}
use sybline.Core.Run.{Run, ok, panic, out_of_fuel, ◌>>=◌}
use sybline.Core.Node.{
  Ptr, null, no_consumer, DeadLetter, no_pointer, nil_queue, to_queue, LinkedList, write, increment,
  increment_by, decrement, get_object, release_object,
}

-- `p.Next = q`
unfoldable pub set_next : Ptr → Ptr → LinkedList → Run LinkedList
unfolding write
set_next p q ll = if p == null then panic else ok (write p (record (ll.cells p) { next = q }) ll)

unfoldable pub is_full : LinkedList → Bool
is_full ll = le64 ll.cap ll.amount

unfoldable pub size : LinkedList → ℕ
size ll = ll.amount % 2 ^ 32

-- A node for a new message, with the four fields that the code assigns.
unfoldable pub new_node : Bytes → Bytes → LinkedList → Ptr × LinkedList
new_node id val ll =
    let (p, l) = get_object ll in
    let n = l.cells p in
    (p, write p (record n { id = id; val = val; consumer_id = no_consumer; time = 0 }) l)

-- The two ways to append the nodes from `first` to `last`.
unfoldable pub append_nodes : (first last : Ptr) → LinkedList → Run LinkedList
append_nodes first last ll =
    if ll.head == null
    then (do l ← set_next last ll.head ll; ok (record l { head = first; tail = last }))
    else (do l ← set_next ll.tail first ll; ok (record l { tail = last }))

unfoldable pub enqueue : Bytes → Bytes → LinkedList → Run LinkedList
enqueue id val ll =
    let (p, l) = new_node id val ll in
    if is_full l then ok l else do l' ← append_nodes p p l; ok (increment l')

-- The loop of BatchEnqueue: a node for each message, linked behind `end`.
unfoldable pub link_messages :
    List (Bytes × Bytes) → (end : Ptr) → LinkedList → Run (Ptr × LinkedList)
link_messages [] end ll = ok (end, ll)
link_messages ((id, val) ∷ ms) end ll =
    let (p, l) = new_node id val ll in set_next end p l >>= λ l'. link_messages ms p l'

unfoldable pub batch_enqueue : List (Bytes × Bytes) → LinkedList → Run LinkedList
batch_enqueue [] ll = ok ll
batch_enqueue ((id, val) ∷ ms) ll = if is_full ll then ok ll else do
  let (first, l) = new_node id val ll
  (last, l) ← link_messages ms first l
  l ← append_nodes first last l
  ok (increment_by (suc (length ms)) l)

-- `(*ll.deadLetter).Enqueue`: a call on a nil interface panics.
unfoldable pub dead_enqueue : DeadLetter → Bytes → Bytes → LinkedList → Run LinkedList
dead_enqueue no_pointer id val dlq = ok dlq
dead_enqueue nil_queue id val dlq = panic
dead_enqueue to_queue id val dlq = enqueue id val dlq

-- The second half of handleThresholdExpire.
unfoldable pub unlink : (prev current : Ptr) → LinkedList → Run LinkedList
unlink prev current ll =
    if (current == ll.tail) && (current == ll.head)
    then ok (record ll { head = null; tail = null })
    else if current == ll.tail
    then set_next prev null (record ll { tail = prev })
    else if current == ll.head
    then ok (record ll { head = (ll.cells current).next })
    else set_next prev (ll.cells current).next ll

unfoldable pub handle_threshold_expire :
    (prev current : Ptr) → LinkedList → LinkedList → Run (LinkedList × LinkedList)
handle_threshold_expire prev current ll dlq = do
  dlq' ← dead_enqueue ll.dead_letter (ll.cells current).id (ll.cells current).val dlq
  ll' ← unlink prev current ll
  ok (ll', dlq')

-- The node is given back and `fetched` is counted, and past the limit it leaves the list.
unfoldable pub nack_node :
    (prev current : Ptr) → LinkedList → LinkedList → Run (LinkedList × LinkedList)
nack_node prev current ll dlq =
    let n = ll.cells current in
    let fetched = add32 n.fetched 1 in
    let l = write current (record n { consumer_id = no_consumer; fetched = fetched }) ll in
    if leb l.fetch_limit fetched
    then (do
      (l', dlq') ← handle_threshold_expire prev current l dlq
      ok (decrement (release_object current l'), dlq'))
    else ok (l, dlq)

unfoldable pub unlock_found :
    Bytes → (prev current : Ptr) → LinkedList → LinkedList → Run (Bool × LinkedList × LinkedList)
unlock_found consumer prev current ll dlq =
    if equal (ll.cells current).consumer_id consumer
    then (do (l, d) ← nack_node prev current ll dlq; ok (true, l, d))
    else ok (false, ll, dlq)

unfoldable pub unlock_loop :
    ℕ
    → Bytes
    → Bytes
    → (prev current : Ptr) → LinkedList
    → LinkedList
    → Run (Bool × LinkedList × LinkedList)
unlock_loop zero consumer id prev current ll dlq = out_of_fuel
unlock_loop (suc k) consumer id prev current ll dlq =
    let rest = unlock_loop k consumer id current (ll.cells current).next ll dlq in
    if current == null
    then ok (false, ll, dlq)
    else if equal (ll.cells current).id id
    then unlock_found consumer prev current ll dlq
    else rest

unfoldable pub unlock :
    Bytes → Bytes → LinkedList → LinkedList → Run (Bool × LinkedList × LinkedList)
unlock consumer id ll dlq = unlock_loop (suc ll.fresh) consumer id null ll.head ll dlq
