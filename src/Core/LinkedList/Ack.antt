-- ===== src/Core/LinkedList/Ack.antt =====
-- UnlockAndEmpty and UnlockAndEmptyBatch of pkg/core/LinkedList.go.
use sybline.Base.{
  ℕ, zero, suc, Bool, true, false, ◌&&◌, ◌||◌, not, List, [], ◌∷◌, ◌++◌, Bytes, equal, length, ltb,
  ◌==◌, if◌then◌else◌,
}
use sybline.Base.Words.{lt64}
use sybline.Core.Run.{Run, ok, panic, out_of_fuel, ◌>>=◌}
use sybline.Core.Node.{Ptr, null, LinkedList, decrement, release_object}
use sybline.Core.LinkedList.{set_next}

-- The errors of the acknowledging methods.
pub data AckError : Type 0 where
  queue_is_empty not_found too_few_nodes not_all_ids : AckError

-- An error result leaves the new list with the error, as the pointers may have moved.
pub data AckResult : Type 0 where
  acked : AckResult
  failed : AckError → AckResult

abbrev pub Acked : Type 0
Acked = AckResult × LinkedList

unfoldable pub byte_slice_exists : List Bytes → Bytes → Bool
byte_slice_exists [] id = false
byte_slice_exists (s ∷ slice) id = if equal s id then true else byte_slice_exists slice id

-- `bytes.Equal(n.ID, id) && bytes.Equal(n.ConsumerID, consumerID)`
unfoldable pub owned_as : Bytes → Bytes → LinkedList → Ptr → Bool
owned_as consumer id ll p = equal (ll.cells p).id id && equal (ll.cells p).consumer_id consumer

-- The branch of `unlockAndEmpty` at the head.
unfoldable pub empty_head : LinkedList → LinkedList
empty_head ll =
    if ll.tail == ll.head
    then decrement (record (release_object ll.head ll) { head = null; tail = null })
    else decrement (release_object ll.head (record ll { head = (ll.cells ll.head).next }))

-- The branch of its loop at `current`.
unfoldable pub empty_found : (prev current : Ptr) → LinkedList → Run LinkedList
empty_found prev current ll = do
  l ←
      if current == ll.tail
      then set_next prev null (record ll { tail = prev })
      else set_next prev (ll.cells current).next ll
  ok (decrement (release_object current l))

unfoldable pub empty_loop : ℕ → Bytes → Bytes → (prev current : Ptr) → LinkedList → Run Acked
empty_loop zero consumer id prev current ll = out_of_fuel
empty_loop (suc k) consumer id prev current ll =
    let rest = empty_loop k consumer id current (ll.cells current).next ll in
    if current == null
    then ok (failed not_found, ll)
    else if owned_as consumer id ll current
    then (do l ← empty_found prev current ll; ok (acked, l))
    else rest

-- `unlockAndEmpty`; its callers have tested that the head is not nil.
unfoldable pub empty_one : Bytes → Bytes → LinkedList → Run Acked
empty_one consumer id ll =
    if owned_as consumer id ll ll.head
    then ok (acked, empty_head ll)
    else empty_loop (suc ll.fresh) consumer id ll.head (ll.cells ll.head).next ll

unfoldable pub unlock_and_empty : Bytes → Bytes → LinkedList → Run Acked
unlock_and_empty consumer id ll =
    if ll.head == null then ok (failed queue_is_empty, ll) else empty_one consumer id ll

-- `bytes.Equal(n.ConsumerID, consumerID) && byteSliceExists(ids, n.ID)`
unfoldable pub wanted : Bytes → List Bytes → LinkedList → Ptr → Bool
wanted consumer ids ll p =
    equal (ll.cells p).consumer_id consumer && byte_slice_exists ids (ll.cells p).id

-- The loop of UnlockAndEmptyBatch: the nodes taken so far, `current` where it stops, and the list.
abbrev pub Taken : Type 0
Taken = List Ptr × Ptr × LinkedList

-- The branch at the tail, which breaks.
unfoldable pub take_tail : (prev : Ptr) → LinkedList → Run LinkedList
take_tail prev ll =
    if ll.head == ll.tail
    then ok (record ll { head = null; tail = null })
    else set_next prev null (record ll { tail = prev })

unfoldable pub take_loop :
    ℕ → Bytes → List Bytes → (prev current : Ptr) → List Ptr → LinkedList → Run Taken
take_loop zero consumer ids prev current nodes ll = out_of_fuel
take_loop (suc k) consumer ids prev current nodes ll =
    let next = (ll.cells current).next in
    let head_next = (ll.cells ll.head).next in
    let skip = take_loop k consumer ids current next nodes ll in
    let at_head =
      take_loop k consumer ids null head_next (nodes ++ current ∷ [])
        (record ll { head = head_next }) in
    let behind =
      set_next prev next ll >>= λ l. take_loop k consumer ids prev next (nodes ++ current ∷ []) l in
    if (current == null) || not (ltb (length nodes) (length ids))
    then ok (nodes, current, ll)
    else if wanted consumer ids ll current
    then (if current == ll.tail
        then (do l ← take_tail prev ll; ok (nodes ++ current ∷ [], current, l))
        else if prev == null
        then at_head
        else behind)
    else skip

-- The chain `start.Next = nodes[i]; start = current.Next` of the error path.
unfoldable pub relink : (start current : Ptr) → List Ptr → LinkedList → Run LinkedList
relink start current [] ll = ok ll
relink start current (n ∷ ns) ll = set_next start n ll >>= λ l.
    if current == null then panic else relink (l.cells current).next current ns l

-- `next := ll.Head.Next; ll.Head.Next = first; last.Next = next`
unfoldable pub put_behind_head : (first last : Ptr) → LinkedList → Run LinkedList
put_behind_head first last ll = do
  let next = (ll.cells ll.head).next
  l ← set_next ll.head first ll
  set_next last next l

abbrev pub last_of : Ptr → List Ptr → Ptr
last_of p [] = p
last_of p (q ∷ qs) = last_of q qs

-- What follows the loop, by the number of nodes that it took.
unfoldable pub finish_batch : List Bytes → Taken → Run Acked
finish_batch ids ([], current, ll) = ok (failed not_all_ids, ll)
finish_batch ids (n ∷ [], current, ll) =
    if length ids == 1
    then ok (acked, ll)
    else do l ← put_behind_head n n ll; ok (failed not_all_ids, l)
finish_batch ids (n ∷ m ∷ ns, current, ll) =
    if length ids == suc (suc (length ns)) then ok (acked, ll) else do
      l ← relink n current (m ∷ ns) ll
      l ← put_behind_head n (last_of m ns) l
      ok (failed not_all_ids, l)

-- The test at the head, before the loop.
unfoldable pub take_head : Bytes → List Bytes → LinkedList → List Ptr × LinkedList
take_head consumer ids ll =
    if wanted consumer ids ll ll.head
    then (ll.head ∷ [], record ll { head = (ll.cells ll.head).next })
    else ([], ll)

-- UnlockAndEmptyBatch behind the test for one id.
unfoldable pub empty_many : Bytes → List Bytes → LinkedList → Run Acked
empty_many consumer ids ll =
    if lt64 ll.amount (length ids)
    then ok (failed too_few_nodes, ll)
    else let (nodes, l) = take_head consumer ids ll in
      take_loop (suc ll.fresh) consumer ids null l.head nodes l >>= finish_batch ids

unfoldable pub empty_batch : Bytes → List Bytes → LinkedList → Run Acked
empty_batch consumer (id ∷ []) ll = empty_one consumer id ll
empty_batch consumer ids ll = empty_many consumer ids ll

unfoldable pub unlock_and_empty_batch : Bytes → List Bytes → LinkedList → Run Acked
unlock_and_empty_batch consumer ids ll =
    if ll.head == null then ok (failed queue_is_empty, ll) else empty_batch consumer ids ll
