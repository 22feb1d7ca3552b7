-- ===== src/Core/Shelf/Queues.antt =====
-- AddMessage, GetMessage, Ack and Delete of pkg/core/QueueManager.go as the shelf specifies them.
use sybline.Base.{
  ℕ, ◌+◌, ◌≡◌, refl, ap, ◌∙◌, subst, inl, inr, String, none, some, Bytes, length, Option-cases,
}
use sybline.Base.Dict
use sybline.Core.LinkedList.Ack.{unlock_and_empty}
use sybline.Core.Spec
use sybline.Core.Spec.{Holds, push, new_item, fetch}
use sybline.Core.Refine.Config.{Config, config, HasConfig, enqueue-HasConfig}
use sybline.Core.Refine.Kept.{kept_config, of_ack, unlock_and_empty-Keeps}
use sybline.Core.Refine.Enqueue.{enqueue-push}
use sybline.Core.Refine.Dequeue.{dequeue-fetch}
use sybline.Core.Refine.Ack.{ack_result, unlock_and_empty-ack}
use sybline.Core.Managed.Fetch.{
  messages_of, pair_results-messages_of, dequeue-Configured, Configured,
}
use sybline.Core.QueueManager
use sybline.Core.QueueManager.{Ref, QueueManager, queue_missing, put_list, ack_outcome, with_queue}
use sybline.Core.Shelf.{
  done, fetched, at_queue, submit, take, ack, delete, manage, Shelf, specified, put_item, set_items,
}
use sybline.Core.Shelf.Follows.{Stands, Follows, both_end, put_list-Stands}

module _ (m : QueueManager) (s : Shelf) (name : String) (v : Stands m s) where
  same_name : Dict.get m.queues name ≡ Dict.get s.names name
  same_name = ap (λ d. Dict.get d name) v.names

  pub submit-Follows :
      (val id : Bytes) → Follows (specified (submit name val id) s) (manage (submit name val id) m)
  unfolding specified manage QueueManager.add_message
  submit-Follows val id = elim (Option-cases (Dict.get s.names name)) [
    | inl e ↦
        let e' = same_name ∙ e in
        both_end (done (some queue_missing)) m s (rw (specified, at_queue, e) refl)
          (rw (manage, QueueManager.add_message, with_queue, e') refl) v
    | inr (r, e) ↦
        let e' = same_name ∙ e in
        let ll = (m.objects r).list in
        let (h, same, _) = v.queues r in
        let (l, made, held) = enqueue-push id val h in
        let kept : config l ≡ config ll =
          subst (HasConfig (config ll)) made (enqueue-HasConfig id val ll) in
        let items = (s.stock r).items in
        let full : push ll.cap (length items + 0) (new_item id val) items
            ≡ push (s.stock r).settings.cap (length items + 0) (new_item id val) items =
          ap (λ (c : Config). push c.cap (length items + 0) (new_item id val) items) same in
        both_end (done none) (put_list r l m) (put_item r id val s)
          (rw (specified, at_queue, e) refl)
          (rw (manage, QueueManager.add_message, with_queue, e', made) refl)
          (put_list-Stands m s r l
            (push (s.stock r).settings.cap (length items + 0) (new_item id val) items) v
            (subst (λ xs. Holds l xs 0) full held) kept)
  ]

  pub take-Follows :
      (amount : ℕ) (consumer : Bytes) (time : ℕ)
      → Follows
          (specified (take name amount consumer time) s)
          (manage (take name amount consumer time) m)
  unfolding specified manage QueueManager.get_message
  take-Follows amount consumer time = elim (Option-cases (Dict.get s.names name)) [
    | inl e ↦
        let e' = same_name ∙ e in
        both_end (fetched none) m s (rw (specified, at_queue, e) refl)
          (rw (manage, QueueManager.get_message, e') refl) v
    | inr (r, e) ↦
        let e' = same_name ∙ e in
        let ll = (m.objects r).list in
        let (h, same, _) = v.queues r in
        let items = (s.stock r).items in
        let (l, run, held) = dequeue-fetch amount consumer time h in
        let kept : config l ≡ config ll =
          subst (Configured (config ll)) run (dequeue-Configured amount consumer time ll) in
        let ttl : ll.node_ttl ≡ (s.stock r).settings.node_ttl =
          ap (λ (c : Config). c.node_ttl) same in
        let out = fetch amount consumer time ll.node_ttl items in
        both_end (fetched (some (messages_of out.0))) (put_list r l m) (set_items r out.1 s)
          (rw (specified, at_queue, e, ← ttl) refl)
          (rw (manage, QueueManager.get_message, e', run, pair_results-messages_of out.0) refl)
          (put_list-Stands m s r l out.1 v held kept)
  ]

  pub ack-Follows :
      (consumer id : Bytes)
      → Follows (specified (ack name consumer id) s) (manage (ack name consumer id) m)
  unfolding specified manage QueueManager.ack
  ack-Follows consumer id = elim (Option-cases (Dict.get s.names name)) [
    | inl e ↦
        let e' = same_name ∙ e in
        both_end (done (some queue_missing)) m s (rw (specified, at_queue, e) refl)
          (rw (manage, QueueManager.ack, with_queue, e') refl) v
    | inr (r, e) ↦
        let e' = same_name ∙ e in
        let ll = (m.objects r).list in
        let items = (s.stock r).items in
        let (l, run, held) = unlock_and_empty-ack consumer id (v.queues r).0 in
        let kept =
          kept_config of_ack (config ll) (unlock_and_empty consumer id ll) run
            (unlock_and_empty-Keeps consumer id ll) in
        both_end (done (ack_outcome (ack_result items (Spec.ack consumer id items).0)))
          (put_list r l m) (set_items r (Spec.ack consumer id items).1 s)
          (rw (specified, at_queue, e) refl)
          (rw (manage, QueueManager.ack, with_queue, e', run) refl)
          (put_list-Stands m s r l (Spec.ack consumer id items).1 v held kept)
  ]

  pub delete-Follows : Follows (specified (delete name) s) (manage (delete name) m)
  unfolding specified manage QueueManager.delete
  delete-Follows = elim (Option-cases (Dict.get s.names name)) [
    | inl e ↦
        let e' = same_name ∙ e in
        rw (specified, e) (m, rw (manage, QueueManager.delete, e') refl, v)
    | inr (r, e) ↦
        let e' = same_name ∙ e in
        rw (specified, e)
          (
            record m { queues = Dict.delete m.queues name },
            rw (manage, QueueManager.delete, e') refl,
            record {
              names = ap (λ d. Dict.delete d name) v.names;
              next = v.next;
              ttl = v.ttl;
              queues = v.queues;
              apart = v.apart;
            },
          )
  ]
