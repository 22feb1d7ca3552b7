-- ===== src/Core/LinkedList/Nack.antt =====
-- BatchUnlock of pkg/core/LinkedList.go.
use sybline.Base.{
  ℕ, zero, suc, ◌||◌, not, List, [], ◌∷◌, ◌++◌, Bytes, length, ltb, ◌==◌, if◌then◌else◌,
}
use sybline.Base.Words.{lt64}
use sybline.Core.Run.{Run, ok, out_of_fuel, ◌>>=◌}
use sybline.Core.Node.{Ptr, null, LinkedList}
use sybline.Core.LinkedList.{nack_node}
use sybline.Core.LinkedList.Ack.{byte_slice_exists}

pub data NackError : Type 0 where
  nack_empty nack_too_few nack_not_all : NackError

pub data NackResult : Type 0 where
  nacked : NackResult
  nack_failed : NackError → NackResult

-- The loop that collects the nodes: `prev` stays at the head throughout.
unfoldable pub collect :
    ℕ → List Bytes → (prev current : Ptr) → List (Ptr × Ptr) → LinkedList → Run (List (Ptr × Ptr))
collect zero ids prev current nodes ll = out_of_fuel
collect (suc k) ids prev current nodes ll =
    let found =
      if byte_slice_exists ids (ll.cells current).id
      then nodes ++ (prev, current) ∷ []
      else nodes in
    let rest = collect k ids prev (ll.cells current).next found ll in
    if (current == null) || not (ltb (length nodes) (length ids)) then ok nodes else rest

unfoldable pub nack_each :
    List (Ptr × Ptr) → LinkedList → LinkedList → Run (LinkedList × LinkedList)
nack_each [] ll dlq = ok (ll, dlq)
nack_each ((prev, current) ∷ nodes) ll dlq = do
  (l, d) ← nack_node prev current ll dlq
  nack_each nodes l d

-- What follows the loop: all ids must have been found, and then each node is given back.
unfoldable pub nack_all :
    List Bytes
    → List (Ptr × Ptr)
    → LinkedList
    → LinkedList
    → Run (NackResult × LinkedList × LinkedList)
nack_all ids nodes ll dlq =
    if (length nodes == 0) || not (length nodes == length ids)
    then ok (nack_failed nack_not_all, ll, dlq)
    else (do (l, d) ← nack_each nodes ll dlq; ok (nacked, l, d))

unfoldable pub batch_unlock :
    Bytes → List Bytes → LinkedList → LinkedList → Run (NackResult × LinkedList × LinkedList)
batch_unlock consumer ids ll dlq =
    if ll.head == null
    then ok (nack_failed nack_empty, ll, dlq)
    else if lt64 ll.amount (length ids)
    then ok (nack_failed nack_too_few, ll, dlq)
    else do
      let first = if byte_slice_exists ids (ll.cells ll.head).id then (null, ll.head) ∷ [] else []
      nodes ← collect (suc ll.fresh) ids ll.head (ll.cells ll.head).next first ll
      nack_all ids nodes ll dlq
