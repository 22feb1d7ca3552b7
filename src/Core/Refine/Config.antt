-- ===== src/Core/Refine/Config.antt =====
-- What a queue is created with: capacity, time to live, dead-letter pointer, limit.
use sybline.Base.{ℕ, ◌≡◌, refl, inl, inr, List, [], ◌∷◌, Bytes, ◌==◌, Bool-cases}
use sybline.Core.Run.{Run, ok, panic, out_of_fuel, ◌>>=◌}
use sybline.Core.Node.{Ptr, null, DeadLetter, LinkedList, write, increment, take_object, get_object}
use sybline.Core.LinkedList.{set_next, is_full, new_node, append_nodes, enqueue}

pub record Config : Type 0 where
  pub cap : ℕ
  pub node_ttl : ℕ
  pub dead_letter : DeadLetter
  pub fetch_limit : ℕ

abbrev pub config : LinkedList → Config
config ll = record {
  cap = ll.cap;
  node_ttl = ll.node_ttl;
  dead_letter = ll.dead_letter;
  fetch_limit = ll.fetch_limit;
}

-- If the run comes to an end, the list has this configuration.
abbrev pub HasConfig : Config → Run LinkedList → Type 0
HasConfig c (ok l) = config l ≡ c
HasConfig c panic = Unit
HasConfig c out_of_fuel = Unit

pub then_config :
    (c : Config) (run : Run LinkedList) (f : LinkedList → Run LinkedList)
    → HasConfig c run
    → ((l : LinkedList) → config l ≡ c → HasConfig c (f l))
    → HasConfig c (run >>= f)
then_config c (ok l) f h step = step l h
then_config c panic f h step = tt
then_config c out_of_fuel f h step = tt

pub set_next-HasConfig : (p q : Ptr) (ll : LinkedList) → HasConfig (config ll) (set_next p q ll)
unfolding set_next write
set_next-HasConfig p q ll = elim (Bool-cases (p == null)) [
  | inl e ↦ rw (set_next, e) tt
  | inr e ↦ rw (set_next, e) refl
]

take_object-config :
    (pool : List Ptr) (ll : LinkedList) → config (take_object pool ll).1 ≡ config ll
unfolding take_object
take_object-config [] ll = refl
take_object-config (p ∷ pool) ll = refl

new_node-config : (id val : Bytes) (ll : LinkedList) → config (new_node id val ll).1 ≡ config ll
unfolding new_node get_object write
new_node-config id val ll = take_object-config ll.pool ll

append_nodes-HasConfig :
    (first last : Ptr) (ll : LinkedList) → HasConfig (config ll) (append_nodes first last ll)
unfolding append_nodes
append_nodes-HasConfig first last ll = elim (Bool-cases (ll.head == null)) [
  | inl e ↦
      rw (append_nodes, e)
        (then_config (config ll) (set_next last ll.head ll) _ (set_next-HasConfig last ll.head ll)
          (λ l h. h))
  | inr e ↦
      rw (append_nodes, e)
        (then_config (config ll) (set_next ll.tail first ll) _ (set_next-HasConfig ll.tail first ll)
          (λ l h. h))
]

pub enqueue-HasConfig :
    (id val : Bytes) (ll : LinkedList) → HasConfig (config ll) (enqueue id val ll)
unfolding enqueue increment
enqueue-HasConfig id val ll =
    let (p, l) = new_node id val ll in
    let same : config l ≡ config ll = new_node-config id val ll in
    elim (Bool-cases (is_full l)) [
      | inl e ↦ rw (enqueue, e) same
      | inr e ↦
          rw (enqueue, e)
            (then_config (config ll) (append_nodes p p l) _
              (rw same at (append_nodes-HasConfig p p l)) (λ m h. h))
    ]
