-- ===== src/Core/Shelf/Creates.antt =====
-- CreateQueue of pkg/core/QueueManager.go as the shelf specifies it.
use sybline.Base.{
  ℕ, suc, ◌^◌, ◌<◌, ◌≡◌, refl, ap, ap₂, ◌∙◌, sym, subst, inl, inr, String, Bool, true, false, none,
  some, ◌==◌, str_eq, arith, Bool-cases, ==→eq, Option-cases,
}
use sybline.Base.Dict
use sybline.Core.Node.{DeadLetter, no_pointer, nil_queue, to_queue, new_queue}
use sybline.Core.Refine.Config.{config}
use sybline.Core.Refine.Dead.{new_queue-Holds}
use sybline.Core.QueueManager.{
  invalid_queue_name, invalid_queue_size, queue_already_exists, Ref, Queue, QueueManager,
  set_object, create_dlq, create_queue, dlq_name, dead_pointer,
}
use sybline.Core.Shelf.{
  done, create, manage, Stock, Shelf, set_stock, empty_stock, create_dead, create_stock, specified,
}
use sybline.Core.Shelf.Follows.{IsStock, Stands, Follows, both_end}

-- A new object under a name.
abbrev add_object : String → Queue → QueueManager → QueueManager
add_object name q m = record (set_object m.next q m) {
  queues = Dict.put m.queues name m.next;
  next = suc (m.next);
}

abbrev add_stock : String → Stock → Shelf → Shelf
add_stock name x s = record (set_stock s.next x s) {
  names = Dict.put s.names name s.next;
  next = suc (s.next);
}

add_object-Stands :
    (m : QueueManager) (s : Shelf) (name : String) (q : Queue) (x : Stock)
    → Stands m s
    → IsStock q x
    → (x.settings.dead_letter ≡ to_queue → (x.dead == s.next) ≡ false)
    → Stands (add_object name q m) (add_stock name x s)
add_object-Stands m s name q x v new apart = record {
  names = ap₂ (λ d n. Dict.put d name n) v.names v.next;
  next = ap suc v.next;
  ttl = v.ttl;
  queues = λ t.
      let same : (t == m.next) ≡ (t == s.next) = ap (λ n. t == n) v.next in
      elim (Bool-cases (t == s.next)) [
        | inl e ↦ rw (same, e) new
        | inr e ↦ rw (same, e) (v.queues t)
      ];
  apart = λ t. elim (Bool-cases (t == s.next)) [
    | inl e ↦ rw e (λ to. subst (λ u. (x.dead == u) ≡ false) (sym (==→eq t s.next e)) (apart to))
    | inr e ↦ rw e (v.apart t)
  ];
}

abbrev queue_of : (size limit ttl : ℕ) → DeadLetter → Ref → Queue
queue_of size limit ttl kind dead = record { list = new_queue size limit ttl kind; dead = dead }

empty-IsStock :
    (size limit ttl ttl' : ℕ) (kind : DeadLetter) (dead dead' : Ref)
    → size < 2 ^ 32
    → ttl ≡ ttl'
    → dead ≡ dead'
    → IsStock (queue_of size limit ttl kind dead) (empty_stock size limit ttl' kind dead')
unfolding new_queue
empty-IsStock size limit ttl ttl' kind dead dead' small e f =
    (new_queue-Holds size limit ttl kind small, ap (λ t. config (new_queue size limit t kind)) e, f)

module _ (m : QueueManager) (s : Shelf) (v : Stands m s) (name : String) (size limit : ℕ)
    (small : size < 2 ^ 32) where
  abbrev created : Bool → QueueManager
  created has_dlq =
      add_object name (queue_of size limit m.node_ttl (dead_pointer has_dlq) m.next)
        (create_dlq name size limit has_dlq m)

  created-Stands :
      (has_dlq : Bool) → Stands (created has_dlq) (create_stock name size limit has_dlq s)
  unfolding create_dlq create_stock create_dead
  created-Stands false =
      add_object-Stands m s name (queue_of size limit m.node_ttl nil_queue m.next)
        (empty_stock size limit s.node_ttl nil_queue s.next) v
        (empty-IsStock size limit m.node_ttl s.node_ttl nil_queue m.next s.next small v.ttl v.next)
        (λ to. cc)
  created-Stands true =
      add_object-Stands (add_object (dlq_name name) (queue_of size limit m.node_ttl no_pointer 0) m)
        (add_stock (dlq_name name) (empty_stock size limit s.node_ttl no_pointer 0) s) name
        (queue_of size limit m.node_ttl to_queue m.next)
        (empty_stock size limit s.node_ttl to_queue s.next)
        (add_object-Stands m s (dlq_name name) (queue_of size limit m.node_ttl no_pointer 0)
          (empty_stock size limit s.node_ttl no_pointer 0) v
          (empty-IsStock size limit m.node_ttl s.node_ttl no_pointer 0 0 small v.ttl refl)
          (λ to. cc))
        (empty-IsStock size limit m.node_ttl s.node_ttl to_queue m.next s.next small v.ttl v.next)
        (λ to. ground arith)

  pub create-Follows :
      (has_dlq : Bool)
      → Follows
          (specified (create name size limit has_dlq) s)
          (manage (create name size limit has_dlq) m)
  unfolding specified manage create_queue
  create-Follows has_dlq = elim (Bool-cases (str_eq name "")) [
    | inl e ↦
        both_end (done (some invalid_queue_name)) m s (rw (specified, e) refl)
          (rw (manage, create_queue, e) refl) v
    | inr e ↦ elim (Bool-cases (size == 0)) [
      | inl f ↦
          both_end (done (some invalid_queue_size)) m s (rw (specified, e, f) refl)
            (rw (manage, create_queue, e, f) refl) v
      | inr f ↦ elim (Option-cases (Dict.get s.names name)) [
        | inr (r, g) ↦
            let g' = ap (λ d. Dict.get d name) v.names ∙ g in
            both_end (done (some queue_already_exists)) m s (rw (specified, e, f, g) refl)
              (rw (manage, create_queue, e, f, g') refl) v
        | inl g ↦
            let g' = ap (λ d. Dict.get d name) v.names ∙ g in
            both_end (done none) (created has_dlq) (create_stock name size limit has_dlq s)
              (rw (specified, e, f, g) refl) (rw (manage, create_queue, e, f, g') refl)
              (created-Stands has_dlq)
      ]
    ]
  ]
