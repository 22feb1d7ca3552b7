-- ===== src/Core/Shelf/Follows.antt =====
-- The queue manager of pkg/core/QueueManager.go and its shelf: what stands for what.
use sybline.Base.{
  ℕ, ◌≡◌, refl, ◌∙◌, sym, subst, inl, inr, false, List, ◌==◌, arith, Bool-cases, ==→eq,
}
use sybline.Core.Run.{Run, ok, panic, out_of_fuel, ◌>>=◌}
use sybline.Core.Node.{LinkedList, no_pointer, to_queue, new_queue}
use sybline.Core.Chain.{Item}
use sybline.Core.Spec.{Holds}
use sybline.Core.Refine.Config.{config}
use sybline.Core.Refine.Dead.{new_queue-Holds}
use sybline.Core.QueueManager.{Ref, Queue, QueueManager, put_list, new_queue_manager}
use sybline.Core.Shelf.{Stock, Shelf, set_items, new_shelf}

abbrev pub IsStock : Queue → Stock → Type 0
IsStock q x = Holds q.list x.items 0 × (config q.list ≡ x.settings) × (q.dead ≡ x.dead)

-- The manager stands for the shelf, and no queue is its own dead-letter queue.
pub record Stands (m : QueueManager) (s : Shelf) : Type 0 where
  pub names : m.queues ≡ s.names
  pub next : m.next ≡ s.next
  pub ttl : m.node_ttl ≡ s.node_ttl
  pub queues : (r : Ref) → IsStock (m.objects r) (s.stock r)
  pub apart :
      (r : Ref) → (s.stock r).settings.dead_letter ≡ to_queue → ((s.stock r).dead == r) ≡ false

-- The run does what the specification says, panics included.
abbrev pub Follows : {A : Type 0} → Run (A × Shelf) → Run (A × QueueManager) → Type 0
Follows (ok (reply, s)) run = (m : QueueManager) × (run ≡ ok (reply, m)) × Stands m s
Follows panic run = run ≡ panic
Follows out_of_fuel run = ⊥

-- Both come to an end with the same reply.
pub both_end :
    {A : Type 0} {spec : Run (A × Shelf)} {run : Run (A × QueueManager)} (reply : A)
    (n : QueueManager) (t : Shelf)
    → spec ≡ ok (reply, t)
    → run ≡ ok (reply, n)
    → Stands n t
    → Follows spec run
both_end {run} reply n t e f v = subst (λ r. Follows r run) (sym e) (n, f, v)

-- The list of one queue has changed.
pub put_list-Stands :
    (m : QueueManager) (s : Shelf) (r : Ref) (l : LinkedList) (xs : List Item)
    → Stands m s
    → Holds l xs 0
    → config l ≡ config (m.objects r).list
    → Stands (put_list r l m) (set_items r xs s)
put_list-Stands m s r l xs v h same = record {
  names = v.names;
  next = v.next;
  ttl = v.ttl;
  queues = λ t. elim (Bool-cases (t == r)) [
    | inl e ↦ rw e (h, same ∙ (v.queues r).1, (v.queues r).2)
    | inr e ↦ rw e (v.queues t)
  ];
  apart = λ t. elim (Bool-cases (t == r)) [
    | inl e ↦
        rw e (λ to. subst (λ u. ((s.stock r).dead == u) ≡ false) (sym (==→eq t r e)) (v.apart r to))
    | inr e ↦ rw e (v.apart t)
  ];
}

pub new-Stands : (ttl : ℕ) → Stands (new_queue_manager ttl) (new_shelf ttl)
unfolding new_queue_manager new_queue
new-Stands ttl = record {
  names = refl;
  next = refl;
  ttl = refl;
  queues = λ r. (new_queue-Holds 0 0 ttl no_pointer (omega arith), refl, refl);
  apart = λ r to. absurd (cc);
}

-- A chain of two runs follows the chain of two specifications.
pub Follows-bind :
    {A B : Type 0} (spec : Run (A × Shelf)) (run : Run (A × QueueManager))
    (f : A × Shelf → Run (B × Shelf)) (g : A × QueueManager → Run (B × QueueManager))
    → Follows spec run
    → ((a : A) (s : Shelf) (m : QueueManager) → Stands m s → Follows (f (a, s)) (g (a, m)))
    → Follows (spec >>= f) (run >>= g)
Follows-bind (ok (a, s)) run f g (m, e, v) step = rw e (step a s m v)
Follows-bind panic run f g e step = rw e refl
Follows-bind out_of_fuel run f g h step = absurd h
