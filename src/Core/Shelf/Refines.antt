-- ===== src/Core/Shelf/Refines.antt =====
-- The queue manager of pkg/core/QueueManager.go refines the shelf.
use sybline.Base.{
  ℕ, ◌^◌, ◌<◌, ◌≡◌, refl, ap, ap₂, ◌∙◌, sym, subst, inl, inr, String, Bool, false, Option, none,
  some, List, [], ◌∷◌, Bytes, ◌==◌, if◌then◌else◌, Option-cases,
}
use sybline.Base.Dict
use sybline.Core.Run.{Run, ok, panic, out_of_fuel, ◌>>=◌}
use sybline.Core.Node.{LinkedList}
use sybline.Core.LinkedList.{unlock}
use sybline.Core.Spec
use sybline.Core.Spec.{Holds, bury}
use sybline.Core.Refine.Config.{Config, config}
use sybline.Core.Refine.Kept.{Unlocked, kept_config, of_unlock, unlock-Keeps}
use sybline.Core.Refine.Unlock.{unlock-nack}
use sybline.Core.QueueManager
use sybline.Core.QueueManager.{
  CoreError, invalid_queue_name, invalid_queue_size, queue_already_exists, failed_empty,
  queue_missing, Ref, Queue, QueueManager, set_object, put_both, with_queue, new_queue_manager,
  create_dlq, create_queue, dlq_name, dead_pointer,
}
use sybline.Core.Shelf.{
  done, at_queue, create, submit, take, ack, nack, delete, Command, manage, manage_all, Reply,
  Shelf, set_items, expire, specified, specified_all, new_shelf,
}
use sybline.Core.Shelf.Follows.{Stands, Follows, both_end, Follows-bind, new-Stands}
use sybline.Core.Shelf.Queues.{submit-Follows, take-Follows, ack-Follows, delete-Follows}
use sybline.Core.Shelf.Creates.{create-Follows}
use sybline.Core.Shelf.Letters.{bury-Follows}

module _ (m : QueueManager) (s : Shelf) (v : Stands m s) where
  abbrev unlocked : Bool → LinkedList → LinkedList → Run Unlocked
  unlocked b l d = ok (b, l, d)

  abbrev answered : Ref → Unlocked → Run (Option CoreError × QueueManager)
  answered r u = ok (if u.0 then none else some failed_empty, put_both r u.1 u.2 m)

  abbrev replied : Option CoreError × QueueManager → Run (Reply × QueueManager)
  replied w = ok (done w.0, w.1)

  abbrev nacked : Ref → Bool → LinkedList → LinkedList → Run (Reply × QueueManager)
  nacked r b l d = ok (done (if b then none else some failed_empty), put_both r l d m)

  nack_ends :
      (r : Ref) (b : Bool) (l : LinkedList) (run : Run LinkedList)
      → (((run >>= unlocked b l) >>= answered r) >>= replied) ≡ (run >>= nacked r b l)
  nack_ends r b l (ok d) = refl
  nack_ends r b l panic = refl
  nack_ends r b l out_of_fuel = refl

  -- What a Nack comes to for a queue with this configuration and dead-letter queue.
  abbrev nack_spec : Ref → Bytes → Bytes → Config → Ref → Run (Reply × Shelf)
  nack_spec r consumer id c dead =
      let o = Spec.nack c.fetch_limit consumer id (s.stock r).items in
      expire c.dead_letter dead o.expired (set_items r o.left s) >>= λ t.
      ok (done (if o.done then none else some failed_empty), t)

  nack-Follows :
      (name : String) (consumer id : Bytes)
      → Follows (specified (nack name consumer id) s) (manage (nack name consumer id) m)
  unfolding specified manage QueueManager.nack
  nack-Follows name consumer id = elim (Option-cases (Dict.get s.names name)) [
    | inl e ↦
        let e' = ap (λ d. Dict.get d name) v.names ∙ e in
        both_end (done (some queue_missing)) m s (rw (specified, at_queue, e) refl)
          (rw (manage, QueueManager.nack, with_queue, e') refl) v
    | inr (r, e) ↦
        let e' = ap (λ d. Dict.get d name) v.names ∙ e in
        let q = m.objects r in
        let ll = q.list in
        let dlq = (m.objects q.dead).list in
        let out = Spec.nack ll.fetch_limit consumer id (s.stock r).items in
        let reply = done (if out.done then none else some failed_empty) in
        let (h, same, dead) = v.queues r in
        let (l, ends, left) = unlock-nack consumer id dlq h in
        let follows =
          bury-Follows m s v r l out.left left reply out.expired ll.dead_letter
            (λ d b.
              kept_config of_unlock (config ll) (unlock consumer id ll dlq)
                (ends ∙ ap (λ (run : Run LinkedList). run >>= λ d. ok (out.done, l, d)) b)
                (unlock-Keeps consumer id ll dlq))
            refl
            (λ to.
              subst (λ t. (t == r) ≡ false) (sym dead)
                (v.apart r (ap (λ (c : Config). c.dead_letter) (sym same) ∙ to))) in
        let spec : specified (nack name consumer id) s
            ≡ nack_spec r consumer id (config ll) q.dead =
          rw (specified, at_queue, e) (ap₂ (nack_spec r consumer id) (sym same) (sym dead)) in
        let run : manage (nack name consumer id) m
            ≡ (bury ll.dead_letter out.expired dlq >>= λ d. ok (reply, put_both r l d m)) =
          rw (manage, QueueManager.nack, with_queue, e', ends)
            (nack_ends r out.done l (bury ll.dead_letter out.expired dlq)) in
        subst (λ x. Follows x (manage (nack name consumer id) m)) (sym spec)
          (subst (λ x. Follows (nack_spec r consumer id (config ll) q.dead) x) (sym run) follows)
  ]

-- CreateQueue takes the size as an uint32.
abbrev pub IsSized : Command → Type 0
IsSized (create name size limit has_dlq) = size < 2 ^ 32
IsSized _ = Unit

abbrev pub AllSized : List Command → Type 0
AllSized [] = Unit
AllSized (c ∷ cs) = IsSized c × AllSized cs

manage-Follows :
    (c : Command) (m : QueueManager) (s : Shelf)
    → IsSized c
    → Stands m s
    → Follows (specified c s) (manage c m)
manage-Follows (create name size limit has_dlq) m s small v =
    create-Follows m s v name size limit small has_dlq
manage-Follows (submit name message id) m s _ v = submit-Follows m s name v message id
manage-Follows (take name amount consumer time) m s _ v =
    take-Follows m s name v amount consumer time
manage-Follows (ack name consumer id) m s _ v = ack-Follows m s name v consumer id
manage-Follows (nack name consumer id) m s _ v = nack-Follows m s v name consumer id
manage-Follows (delete name) m s _ v = delete-Follows m s name v

manage_all-Follows_from :
    (cs : List Command) (m : QueueManager) (s : Shelf)
    → AllSized cs
    → Stands m s
    → Follows (specified_all cs s) (manage_all cs m)
unfolding specified_all manage_all
manage_all-Follows_from [] m s _ v = (m, refl, v)
manage_all-Follows_from (c ∷ cs) m s (small, sized) v =
    Follows-bind (specified c s) (manage c m) _ _ (manage-Follows c m s small v) (λ reply t n w.
      Follows-bind (specified_all cs t) (manage_all cs n) _ _
        (manage_all-Follows_from cs n t sized w) (λ replies u o x. (o, refl, x)))

-- A new queue manager, under any sequence of CreateQueue, AddMessage, GetMessage, Ack, Nack and
-- Delete, does what the shelf says, where a queue is a sequence of items: every call gives the reply
-- that the shelf gives, and in the end each queue holds the items of the shelf; and the manager panics
-- where the shelf does, when a message expires in a queue whose dead-letter pointer leads nowhere, and
-- nowhere else. Nacked messages that expire move to the dead-letter queue, also after another queue
-- has taken its name.
pub manage_all-Follows :
    (node_ttl : ℕ) (cs : List Command)
    → AllSized cs
    → Follows (specified_all cs (new_shelf node_ttl)) (manage_all cs (new_queue_manager node_ttl))
manage_all-Follows node_ttl cs sized =
    manage_all-Follows_from cs (new_queue_manager node_ttl) (new_shelf node_ttl) sized
      (new-Stands node_ttl)
