-- ===== src/Core/LinkedList/Dequeue.antt =====
-- Dequeue and UnlockAllFromConsumer of pkg/core/LinkedList.go.
use sybline.Base.{
  ℕ, zero, suc, Bool, ◌||◌, not, List, [], ◌∷◌, ◌++◌, Bytes, equal, length, ltb, ◌==◌,
  if◌then◌else◌,
}
use sybline.Base.Words.{sub64, lt64}
use sybline.Core.Run.{Run, ok, out_of_fuel}
use sybline.Core.Node.{Ptr, null, Node, no_consumer, LinkedList, write}

-- The three ways in which a consumer may take a node.
unfoldable pub available : Bytes → (time node_ttl : ℕ) → Node → Bool
available consumer time node_ttl n =
    equal n.consumer_id consumer
    || (equal n.consumer_id no_consumer || lt64 node_ttl (sub64 time n.time))

abbrev pub Fetched : Type 0
Fetched = List Bytes × List Bytes

unfoldable pub dequeue_loop :
    ℕ
    → (amount : ℕ) → Bytes
    → (time : ℕ) → (current : Ptr) → Fetched
    → LinkedList
    → Run (Fetched × LinkedList)
dequeue_loop zero amount consumer time current out ll = out_of_fuel
dequeue_loop (suc k) amount consumer time current (vals, ids) ll =
    let n = ll.cells current in
    let taken = write current (record n { consumer_id = consumer; time = time }) ll in
    let take =
      dequeue_loop k amount consumer time n.next (vals ++ n.val ∷ [], ids ++ n.id ∷ []) taken in
    let skip = dequeue_loop k amount consumer time n.next (vals, ids) ll in
    if (current == null) || not (ltb (length vals) amount)
    then ok ((vals, ids), ll)
    else if available consumer time ll.node_ttl n
    then take
    else skip

unfoldable pub dequeue : ℕ → Bytes → ℕ → LinkedList → Run (Fetched × LinkedList)
dequeue amount consumer time ll =
    if ll.head == null
    then ok (([], []), ll)
    else dequeue_loop (suc ll.fresh) amount consumer time ll.head ([], []) ll

unfoldable pub unlock_all_loop : ℕ → Bytes → (current : Ptr) → LinkedList → Run LinkedList
unlock_all_loop zero consumer current ll = out_of_fuel
unlock_all_loop (suc k) consumer current ll =
    let n = ll.cells current in
    let l =
      if equal n.consumer_id consumer
      then write current (record n { consumer_id = no_consumer }) ll
      else ll in
    let rest = unlock_all_loop k consumer n.next l in if current == null then ok ll else rest

unfoldable pub unlock_all_from_consumer : Bytes → LinkedList → Run LinkedList
unlock_all_from_consumer consumer ll = unlock_all_loop (suc ll.fresh) consumer ll.head ll
