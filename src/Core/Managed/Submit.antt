-- ===== src/Core/Managed/Submit.antt =====
-- AddMessage of pkg/core/QueueManager.go and pkg/core/Broker.go.
use sybline.Base.{
  ◌≡◌, refl, ap, ◌∙◌, subst, inl, inr, Option, none, some, List, [], ◌∷◌, Bytes, length, String,
  ◌==◌, Bool-cases, Option-cases, if◌then◌else◌,
}
use sybline.Base.Dict
use sybline.Core.Run.{ok}
use sybline.Core.Node.{LinkedList}
use sybline.Core.Spec.{Holds}
use sybline.Core.Refine.Enqueue.{enqueue-push}
use sybline.Core.Refine.Config.{config, HasConfig, enqueue-HasConfig}
use sybline.Core.QueueManager
use sybline.Core.QueueManager.{
  Ref, QueueManager, CoreError, queue_missing, empty_data, routing_key_does_not_exist, put_list,
}
use sybline.Core.Broker
use sybline.Core.Broker.{Broker}
use mathlib.Core.List.{Permᴰ}
use sybline.Core.Managed.Order.{submitted_all-Perm}
use sybline.Core.Managed.{Contents, IsManaged, update, pushed, submitted, submitted_all}

pub put_list-IsManaged :
    (m : QueueManager) (c : Ref → Contents) (r : Ref) (l : LinkedList) (x : Contents)
    → IsManaged m c
    → Holds l x.items x.drift
    → l.cap ≡ x.cap
    → IsManaged (put_list r l m) (update c r x)
put_list-IsManaged m c r l x held h e s = elim (Bool-cases (s == r)) [
  | inl same ↦ rw same (h, e)
  | inr other ↦ rw other (held s)
]

-- AddMessage of the queue manager returns, and puts the message into the queue of the name.
pub add_message-submitted :
    (m : QueueManager) (c : Ref → Contents) (name : String) (val id : Bytes)
    → IsManaged m c
    → (n : QueueManager) × (QueueManager.add_message name val id m
        ≡ ok (elim (Dict.get m.queues name) [ none ↦ some queue_missing | some r ↦ none ], n))
      × (n.queues ≡ m.queues)
      × IsManaged n (submitted id val m.queues name c)
unfolding QueueManager.add_message submitted
add_message-submitted m c name val id held = elim (Option-cases (Dict.get m.queues name)) [
  | inl e ↦ (
    m,
    rw (QueueManager.add_message, QueueManager.with_queue, e) refl,
    refl,
    rw (submitted, e) held,
  )
  | inr (r, e) ↦
      let (l, made, h) = enqueue-push id val (held r).0 in
      let kept : config l ≡ config (m.objects r).list =
        subst (HasConfig (config (m.objects r).list)) made
          (enqueue-HasConfig id val (m.objects r).list) in
      let cap : l.cap ≡ (c r).cap = ap (λ k. k.cap) kept ∙ (held r).1 in
      (
        put_list r l m,
        rw (QueueManager.add_message, QueueManager.with_queue, e, made) refl,
        refl,
        rw (submitted, e)
            (put_list-IsManaged m c r l (pushed id val (c r)) held (rw (held r).1 at h) cap),
      )
]

-- The goroutines of the broker, in the order in which they get their locks.
deliver-submitted :
    (names : List String) (m : QueueManager) (c : Ref → Contents) (val id : Bytes)
    → IsManaged m c
    → (n : QueueManager) × (Broker.deliver names val id m ≡ ok n)
      × (n.queues ≡ m.queues)
      × IsManaged n (submitted_all id val m.queues names c)
unfolding Broker.deliver submitted_all
deliver-submitted [] m c val id held = (m, refl, refl, held)
deliver-submitted (name ∷ names) m c val id held =
    let (n, run, same, held') = add_message-submitted m c name val id held in
    let (o, run', same', held'') =
      deliver-submitted names n (submitted id val m.queues name c) val id held' in
    (
      o,
      rw (Broker.deliver, run) run',
      same' ∙ same,
      subst (λ q. IsManaged o (submitted_all id val q names (submitted id val m.queues name c)))
          same held'',
    )

-- The answer of the broker, and the queues that the message goes to.
abbrev pub answer : Bytes → Option (List String) → Option CoreError
answer val names =
    if length val == 0
    then some empty_data
    else elim names [ none ↦ some routing_key_does_not_exist | some ns ↦ none ]

abbrev pub targets : Bytes → Option (List String) → List String
targets val names = if length val == 0 then [] else elim names [ none ↦ [] | some ns ↦ ns ]

-- AddMessage of the broker returns, whatever the order in which its goroutines get their locks: it
-- refuses an empty message and an unknown routing key, and otherwise puts the message into each
-- queue of the key once for every time the key names it, if the queue has room and still exists.
pub add_message-submitted_all :
    (schedule : List String → List String) (key : String) (val id : Bytes) (b : Broker)
    (c : Ref → Contents)
    → ((ns : List String) → Permᴰ (schedule ns) ns)
    → IsManaged b.manager c
    → (b' : Broker) × (Broker.add_message schedule key val id b
        ≡ ok (answer val (Dict.get b.routing key), b'))
      × (b'.routing ≡ b.routing)
      × IsManaged b'.manager
          (submitted_all id val b.manager.queues (targets val (Dict.get b.routing key)) c)
unfolding Broker.add_message submitted_all
add_message-submitted_all schedule key val id b c fair held = elim (Bool-cases (length val == 0)) [
  | inl e ↦ (b, rw (Broker.add_message, e) refl, refl, rw e held)
  | inr e ↦ elim (Option-cases (Dict.get b.routing key)) [
    | inl n ↦ (b, rw (Broker.add_message, e, n) refl, refl, rw (e, n) held)
    | inr (ns, s) ↦
        let (m, run, same, held') = deliver-submitted (schedule ns) b.manager c val id held in
        (
          record b { manager = m },
          rw (Broker.add_message, e, s, run) refl,
          refl,
          rw (e, s)
              (subst (IsManaged m) (submitted_all-Perm id val b.manager.queues c (fair ns)) held'),
        )
  ]
]
