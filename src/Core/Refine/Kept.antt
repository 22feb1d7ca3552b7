-- ===== src/Core/Refine/Kept.antt =====
-- UnlockAndEmpty and Unlock of pkg/core/LinkedList.go leave what a queue was created with.
use sybline.Base.{
  ℕ, zero, suc, ◌≡◌, refl, subst, ◌∙◌, inl, inr, Bool, Bytes, equal, leb, ltb, length, ◌==◌,
  Bool-cases,
}
use sybline.Base.Words.{add32}
use sybline.Core.Run.{Run, ok, panic, out_of_fuel, ◌>>=◌}
use sybline.Core.Node.{no_consumer, Ptr, null, LinkedList, write, decrement, release_object}
use sybline.Core.LinkedList.{
  set_next, unlink, dead_enqueue, handle_threshold_expire, nack_node, unlock_found, unlock_loop,
  unlock,
}
use sybline.Core.LinkedList.Ack.{
  Acked, owned_as, empty_head, empty_found, empty_loop, empty_one, unlock_and_empty,
}
use sybline.Core.Refine.Config.{Config, config, HasConfig, then_config, set_next-HasConfig}

-- If the run comes to an end, the list among its results has this configuration.
module _ {A : Type 0} (list : A → LinkedList) (c : Config) where
  unfoldable pub Keeps : Run A → Type 0
  Keeps (ok a) = config (list a) ≡ c
  Keeps panic = Unit
  Keeps out_of_fuel = Unit

  Keeps-list :
      (run : Run LinkedList) (f : LinkedList → Run A)
      → HasConfig c run
      → ((l : LinkedList) → config l ≡ c → Keeps (f l))
      → Keeps (run >>= f)
  unfolding Keeps
  Keeps-list (ok l) f h next = next l h
  Keeps-list panic f h next = tt
  Keeps-list out_of_fuel f h next = tt

  Keeps-any :
      {B : Type 0} (run : Run B) (f : B → Run A) → ((b : B) → Keeps (f b)) → Keeps (run >>= f)
  unfolding Keeps
  Keeps-any (ok b) f next = next b
  Keeps-any panic f next = tt
  Keeps-any out_of_fuel f next = tt

Keeps-then :
    {A B : Type 0} (f : A → LinkedList) (g : B → LinkedList) (c : Config) (run : Run A)
    (k : A → Run B)
    → Keeps f c run
    → ((a : A) → config (f a) ≡ c → Keeps g c (k a))
    → Keeps g c (run >>= k)
unfolding Keeps
Keeps-then f g c (ok a) k h next = next a h
Keeps-then f g c panic k h next = tt
Keeps-then f g c out_of_fuel k h next = tt

release_object-config : (p : Ptr) (ll : LinkedList) → config (release_object p ll) ≡ config ll
unfolding release_object
release_object-config p ll = elim (Bool-cases (ltb (length ll.pool) ll.max_size)) [
  | inl e ↦ rw e refl
  | inr e ↦ rw e refl
]

decrement-config : (ll : LinkedList) → config (decrement ll) ≡ config ll
unfolding decrement
decrement-config ll = refl

abbrev pub of_ack : Acked → LinkedList
of_ack r = r.1

abbrev pub Unlocked : Type 0
Unlocked = Bool × LinkedList × LinkedList

abbrev pub of_unlock : Unlocked → LinkedList
of_unlock r = r.1

abbrev of_expiry : LinkedList × LinkedList → LinkedList
of_expiry r = r.0

empty_head-config : (ll : LinkedList) → config (empty_head ll) ≡ config ll
unfolding empty_head decrement
empty_head-config ll = elim (Bool-cases (ll.tail == ll.head)) [
  | inl e ↦ rw e (release_object-config ll.head ll)
  | inr e ↦ rw e (release_object-config ll.head (record ll { head = (ll.cells ll.head).next }))
]

emptied-config : (p : Ptr) (ll : LinkedList) → config (decrement (release_object p ll)) ≡ config ll
unfolding decrement
emptied-config p ll = release_object-config p ll

empty_found-HasConfig :
    (prev current : Ptr) (ll : LinkedList) → HasConfig (config ll) (empty_found prev current ll)
unfolding empty_found
empty_found-HasConfig prev current ll = elim (Bool-cases (current == ll.tail)) [
  | inl e ↦
      rw (empty_found, e)
        (then_config (config ll) (set_next prev null (record ll { tail = prev })) _
          (set_next-HasConfig prev null (record ll { tail = prev }))
          (λ l h. emptied-config current l ∙ h))
  | inr e ↦
      rw (empty_found, e)
        (then_config (config ll) (set_next prev (ll.cells current).next ll) _
          (set_next-HasConfig prev (ll.cells current).next ll)
          (λ l h. emptied-config current l ∙ h))
]

module _ (consumer id : Bytes) where
  empty_loop-Keeps :
      (k : ℕ) (prev current : Ptr) (ll : LinkedList)
      → Keeps of_ack (config ll) (empty_loop k consumer id prev current ll)
  unfolding empty_loop Keeps
  empty_loop-Keeps zero prev current ll = tt
  empty_loop-Keeps (suc k) prev current ll = elim (Bool-cases (current == null)) [
    | inl e ↦ rw (empty_loop, e) refl
    | inr e ↦ elim (Bool-cases (owned_as consumer id ll current)) [
      | inl o ↦
          rw (empty_loop, e, o)
            (Keeps-list of_ack (config ll) (empty_found prev current ll) _
              (empty_found-HasConfig prev current ll) (λ l h. h))
      | inr o ↦ rw (empty_loop, e, o) (empty_loop-Keeps k current (ll.cells current).next ll)
    ]
  ]

  empty_one-Keeps : (ll : LinkedList) → Keeps of_ack (config ll) (empty_one consumer id ll)
  unfolding empty_one Keeps
  empty_one-Keeps ll = elim (Bool-cases (owned_as consumer id ll ll.head)) [
    | inl o ↦ rw (empty_one, o) (empty_head-config ll)
    | inr o ↦ rw (empty_one, o) (empty_loop-Keeps (suc ll.fresh) ll.head (ll.cells ll.head).next ll)
  ]

  pub unlock_and_empty-Keeps :
      (ll : LinkedList) → Keeps of_ack (config ll) (unlock_and_empty consumer id ll)
  unfolding unlock_and_empty Keeps
  unlock_and_empty-Keeps ll = elim (Bool-cases (ll.head == null)) [
    | inl e ↦ rw (unlock_and_empty, e) refl
    | inr e ↦ rw (unlock_and_empty, e) (empty_one-Keeps ll)
  ]

unlink-HasConfig :
    (prev current : Ptr) (ll : LinkedList) → HasConfig (config ll) (unlink prev current ll)
unfolding unlink
unlink-HasConfig prev current ll = elim (Bool-cases (current == ll.tail)) [
  | inl t ↦ elim (Bool-cases (current == ll.head)) [
    | inl h ↦ rw (unlink, t, h) refl
    | inr h ↦ rw (unlink, t, h) (set_next-HasConfig prev null (record ll { tail = prev }))
  ]
  | inr t ↦ elim (Bool-cases (current == ll.head)) [
    | inl h ↦ rw (unlink, t, h) refl
    | inr h ↦ rw (unlink, t, h) (set_next-HasConfig prev (ll.cells current).next ll)
  ]
]

expire-Keeps :
    (prev current : Ptr) (ll dlq : LinkedList)
    → Keeps of_expiry (config ll) (handle_threshold_expire prev current ll dlq)
unfolding handle_threshold_expire Keeps
expire-Keeps prev current ll dlq =
    Keeps-any of_expiry (config ll)
      (dead_enqueue ll.dead_letter (ll.cells current).id (ll.cells current).val dlq) _
      (λ d.
        Keeps-list of_expiry (config ll) (unlink prev current ll) _
          (unlink-HasConfig prev current ll) (λ l h. h))

nack_node-Keeps :
    (prev current : Ptr) (ll dlq : LinkedList)
    → Keeps of_expiry (config ll) (nack_node prev current ll dlq)
unfolding nack_node write Keeps
nack_node-Keeps prev current ll dlq =
    let n = ll.cells current in
    let fetched = add32 n.fetched 1 in
    let l = write current (record n { consumer_id = no_consumer; fetched = fetched }) ll in
    elim (Bool-cases (leb ll.fetch_limit fetched)) [
      | inl e ↦
          rw (nack_node, e)
            (Keeps-then of_expiry of_expiry (config ll) (handle_threshold_expire prev current l dlq)
              _ (expire-Keeps prev current l dlq) (λ r h. emptied-config current r.0 ∙ h))
      | inr e ↦ rw (nack_node, e) refl
    ]

module _ (consumer id : Bytes) where
  unlock_found-Keeps :
      (prev current : Ptr) (ll dlq : LinkedList)
      → Keeps of_unlock (config ll) (unlock_found consumer prev current ll dlq)
  unfolding unlock_found Keeps
  unlock_found-Keeps prev current ll dlq =
      elim (Bool-cases (equal (ll.cells current).consumer_id consumer)) [
        | inl e ↦
            rw (unlock_found, e)
              (Keeps-then of_expiry of_unlock (config ll) (nack_node prev current ll dlq) _
                (nack_node-Keeps prev current ll dlq) (λ r h. h))
        | inr e ↦ rw (unlock_found, e) refl
      ]

  unlock_loop-Keeps :
      (k : ℕ) (prev current : Ptr) (ll dlq : LinkedList)
      → Keeps of_unlock (config ll) (unlock_loop k consumer id prev current ll dlq)
  unfolding unlock_loop Keeps
  unlock_loop-Keeps zero prev current ll dlq = tt
  unlock_loop-Keeps (suc k) prev current ll dlq = elim (Bool-cases (current == null)) [
    | inl e ↦ rw (unlock_loop, e) refl
    | inr e ↦ elim (Bool-cases (equal (ll.cells current).id id)) [
      | inl o ↦ rw (unlock_loop, e, o) (unlock_found-Keeps prev current ll dlq)
      | inr o ↦ rw (unlock_loop, e, o) (unlock_loop-Keeps k current (ll.cells current).next ll dlq)
    ]
  ]

  pub unlock-Keeps : (ll dlq : LinkedList) → Keeps of_unlock (config ll) (unlock consumer id ll dlq)
  unfolding unlock
  unlock-Keeps ll dlq = unlock_loop-Keeps (suc ll.fresh) null ll.head ll dlq

-- What is read off a run that ended.
pub kept_config :
    {A : Type 0} (f : A → LinkedList) (c : Config) (run : Run A) {a : A}
    → run ≡ ok a
    → Keeps f c run
    → config (f a) ≡ c
unfolding Keeps
kept_config f c run e h = subst (Keeps f c) e h
