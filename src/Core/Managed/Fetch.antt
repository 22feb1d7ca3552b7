-- ===== src/Core/Managed/Fetch.antt =====
-- GetMessage of pkg/core/QueueManager.go.
use sybline.Base.{
  ℕ, zero, suc, ◌≡◌, refl, ap, ◌∙◌, subst, inl, inr, ◌||◌, not, some, List, [], ◌∷◌, Bytes, length,
  String, ltb, ◌==◌, Bool-cases,
}
use sybline.Base.Dict
use sybline.Core.Run.{Run, ok, panic, out_of_fuel}
use sybline.Core.Node.{Ptr, null, LinkedList, write}
use sybline.Core.LinkedList.Dequeue.{Fetched, available, dequeue_loop, dequeue}
use sybline.Core.Chain.{Item}
use sybline.Core.Spec.{fetch, vals_of, ids_of}
use sybline.Core.Refine.Config.{Config, config}
use sybline.Core.Refine.Dequeue.{dequeue-fetch}
use sybline.Core.QueueManager.{Ref, QueueManager, Message, put_list, pair_results, get_message}
use sybline.Core.Managed.{Contents, IsManaged, update}
use sybline.Core.Managed.Submit.{put_list-IsManaged}

-- If the run comes to an end, the list has this configuration.
abbrev pub Configured : Config → Run (Fetched × LinkedList) → Type 0
Configured c (ok (r, l)) = config l ≡ c
Configured c panic = Unit
Configured c out_of_fuel = Unit

config-write : (ll : LinkedList) (p : Ptr) (n : _) → config (write p n ll) ≡ config ll
unfolding write
config-write ll p n = refl

dequeue_loop-Configured :
    (k amount : ℕ) (consumer : Bytes) (time : ℕ) (c : Config) (cur : Ptr) (out : Fetched)
    (ll : LinkedList)
    → config ll ≡ c
    → Configured c (dequeue_loop k amount consumer time cur out ll)
unfolding dequeue_loop
dequeue_loop-Configured zero amount consumer time c cur out ll t = tt
dequeue_loop-Configured (suc k) amount consumer time c cur (vals, ids) ll t =
    let n = ll.cells cur in
    elim (Bool-cases ((cur == null) || not (ltb (length vals) amount))) [
      | inl stop ↦ rw (dequeue_loop, stop) t
      | inr go ↦ elim (Bool-cases (available consumer time ll.node_ttl n)) [
        | inl free ↦
            rw (dequeue_loop, go, free)
              (dequeue_loop-Configured k amount consumer time c n.next _ _
                (config-write ll cur _ ∙ t))
        | inr held ↦
            rw (dequeue_loop, go, held)
              (dequeue_loop-Configured k amount consumer time c n.next (vals, ids) ll t)
      ]
    ]

pub dequeue-Configured :
    (amount : ℕ) (consumer : Bytes) (time : ℕ) (ll : LinkedList)
    → Configured (config ll) (dequeue amount consumer time ll)
unfolding dequeue
dequeue-Configured amount consumer time ll = elim (Bool-cases (ll.head == null)) [
  | inl e ↦ rw (dequeue, e) refl
  | inr e ↦
      rw (dequeue, e)
        (dequeue_loop-Configured (suc ll.fresh) amount consumer time (config ll) ll.head ([], []) ll
          refl)
]

-- The messages of the items that were taken.
abbrev pub messages_of : List Item → List Message
messages_of [] = []
messages_of (x ∷ xs) = (x.id, x.val) ∷ messages_of xs

pub pair_results-messages_of :
    (xs : List Item) → pair_results (ids_of xs) (vals_of xs) ≡ ok (messages_of xs)
unfolding pair_results
pair_results-messages_of [] = refl
pair_results-messages_of (x ∷ xs) = rw (pair_results, pair_results-messages_of xs) refl

-- GetMessage of a queue that exists returns the messages of the items that `fetch` takes, each with
-- its own id, locks them in this queue, and leaves the other queues alone.
pub get_message-fetch :
    (m : QueueManager) (c : Ref → Contents) (name : String) (amount : ℕ) (consumer : Bytes)
    (time : ℕ) (r : Ref)
    → IsManaged m c
    → Dict.get m.queues name ≡ some r
    → (let out = fetch amount consumer time (m.objects r).list.node_ttl (c r).items in
        (n : QueueManager) × (get_message name amount consumer time m
          ≡ ok (some (messages_of out.0), n))
        × (n.queues ≡ m.queues)
        × IsManaged n (update c r (record (c r) { items = out.1 })))
unfolding get_message
get_message-fetch m c name amount consumer time r held e =
    let ll = (m.objects r).list in
    let out = fetch amount consumer time ll.node_ttl (c r).items in
    let (l, run, h) = dequeue-fetch amount consumer time (held r).0 in
    let kept : config l ≡ config ll =
      subst (Configured (config ll)) run (dequeue-Configured amount consumer time ll) in
    (
      put_list r l m,
      rw (get_message, e, run, pair_results-messages_of out.0) refl,
      refl,
      put_list-IsManaged m c r l (record (c r) { items = out.1 }) held h
          (ap (λ k. k.cap) kept ∙ (held r).1),
    )
