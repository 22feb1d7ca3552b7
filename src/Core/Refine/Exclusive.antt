-- ===== src/Core/Refine/Exclusive.antt =====
-- Dequeue of pkg/core/LinkedList.go by two consumers.
use sybline.Base.{
  ℕ, zero, suc, ◌-◌, subst, not, length, ltb, ◌≡◌, refl, ◌∙◌, ap, inl, inr, false, ◌||◌, List, [],
  ◌∷◌, Bytes, equal, ◌==◌, ==→eq, sym, if◌then◌else◌, Bool-cases,
}
use sybline.Base.Words.{sub64, lt64}
use sybline.Core.Run.{Run, ok, panic, out_of_fuel}
use sybline.Core.Node.{Ptr, null, LinkedList}
use sybline.Core.LinkedList.Dequeue.{Fetched, available, dequeue_loop, dequeue}
use sybline.Core.Chain.{Item}
use sybline.Core.Spec.{Holds, can_take, locked, fetch, vals_of, ids_of}
use sybline.Core.Refine.Touch.{node_ttl-write}
use sybline.Core.Refine.Dequeue.{dequeue-fetch}

-- The items that `fetch` does not take.
unfoldable pub passed_over : (room : ℕ) → Bytes → (time ttl : ℕ) → List Item → List Item
passed_over room consumer time ttl [] = []
passed_over room consumer time ttl (x ∷ xs) =
    let behind_taken = passed_over (room - 1) consumer time ttl xs in
    let behind = passed_over room consumer time ttl xs in
    if room == 0 then x ∷ xs else if can_take consumer time ttl x then behind_taken else x ∷ behind

module _ (one two : Bytes) (ttl then_ now : ℕ) (distinct : equal one two ≡ false)
    (someone : equal one [] ≡ false) (early : lt64 ttl (sub64 now then_) ≡ false) where
  -- A locked item is not available.
  not_available : (x : Item) → can_take two now ttl (locked one then_ x) ≡ false
  not_available x = rw (distinct, someone, early) refl

  fetch-zero : (xs : List Item) → (fetch 0 two now ttl xs).0 ≡ []
  unfolding fetch
  fetch-zero [] = refl
  fetch-zero (x ∷ xs) = refl

  -- An item that is not available does not matter.
  fetch-hidden :
      (n : ℕ) (x : Item) (ys : List Item)
      → can_take two now ttl x ≡ false
      → (fetch n two now ttl (x ∷ ys)).0 ≡ (fetch n two now ttl ys).0
  unfolding fetch
  fetch-hidden n x ys hidden = elim (Bool-cases (n == 0)) [
    | inl e ↦
        let none_left : n ≡ 0 = ==→eq n 0 e in rw (fetch, e) (rw none_left (sym (fetch-zero ys)))
    | inr e ↦ rw (fetch, e, hidden) refl
  ]

  -- What is taken behind an item depends only on what is taken behind it.
  fetch-cons :
      (n : ℕ) (x : Item) (ys zs : List Item)
      → ((k : ℕ) → (fetch k two now ttl ys).0 ≡ (fetch k two now ttl zs).0)
      → (fetch n two now ttl (x ∷ ys)).0 ≡ (fetch n two now ttl (x ∷ zs)).0
  unfolding fetch
  fetch-cons n x ys zs same = elim (Bool-cases (n == 0)) [
    | inl e ↦ rw (fetch, e) refl
    | inr e ↦ elim (Bool-cases (can_take two now ttl x)) [
      | inl free ↦ rw (fetch, e, free) (ap (λ ts. x ∷ ts) (same (n - 1)))
      | inr held ↦ rw (fetch, e, held) (same n)
    ]
  ]

  fetch-fetch :
      (m n : ℕ) (xs : List Item)
      → (fetch n two now ttl (fetch m one then_ ttl xs).1).0
        ≡ (fetch n two now ttl (passed_over m one then_ ttl xs)).0
  unfolding fetch passed_over
  fetch-fetch m n [] = refl
  fetch-fetch m n (x ∷ xs) = elim (Bool-cases (m == 0)) [
    | inl e ↦ rw e refl
    | inr e ↦ elim (Bool-cases (can_take one then_ ttl x)) [
      | inl free ↦
          rw (e, free)
            (fetch-hidden n (locked one then_ x) (fetch (m - 1) one then_ ttl xs).1
                (not_available x)
              ∙ fetch-fetch (m - 1) n xs)
      | inr held ↦
          rw (e, held)
            (fetch-cons n x (fetch m one then_ ttl xs).1 (passed_over m one then_ ttl xs)
              (λ k. fetch-fetch m k xs))
    ]
  ]

-- If the run comes to an end, the list has this time to live.
abbrev HasTtl : ℕ → Run (Fetched × LinkedList) → Type 0
HasTtl ttl (ok (r, l)) = l.node_ttl ≡ ttl
HasTtl ttl panic = Unit
HasTtl ttl out_of_fuel = Unit

dequeue_loop-HasTtl :
    (k amount : ℕ) (consumer : Bytes) (time ttl : ℕ) (cur : Ptr) (out : Fetched) (ll : LinkedList)
    → ll.node_ttl ≡ ttl
    → HasTtl ttl (dequeue_loop k amount consumer time cur out ll)
unfolding dequeue_loop
dequeue_loop-HasTtl zero amount consumer time ttl cur out ll t = tt
dequeue_loop-HasTtl (suc k) amount consumer time ttl cur (vals, ids) ll t =
    let n = ll.cells cur in
    elim (Bool-cases ((cur == null) || not (ltb (length vals) amount))) [
      | inl stop ↦ rw (dequeue_loop, stop) t
      | inr go ↦ elim (Bool-cases (available consumer time ll.node_ttl n)) [
        | inl free ↦
            rw (dequeue_loop, go, free)
              (dequeue_loop-HasTtl k amount consumer time ttl n.next _ _
                (node_ttl-write ll cur _ ∙ t))
        | inr held ↦
            rw (dequeue_loop, go, held)
              (dequeue_loop-HasTtl k amount consumer time ttl n.next (vals, ids) ll t)
      ]
    ]

dequeue-HasTtl :
    (amount : ℕ) (consumer : Bytes) (time : ℕ) (ll : LinkedList)
    → HasTtl ll.node_ttl (dequeue amount consumer time ll)
unfolding dequeue
dequeue-HasTtl amount consumer time ll = elim (Bool-cases (ll.head == null)) [
  | inl e ↦ rw (dequeue, e) refl
  | inr e ↦
      rw (dequeue, e)
        (dequeue_loop-HasTtl (suc ll.fresh) amount consumer time ll.node_ttl ll.head ([], []) ll
          refl)
]

-- After one consumer dequeued, another one whose id differs gets what it would get if the items
-- that the first took were not in the queue, as long as the time to live of the locks has not
-- passed and the first consumer's id is not empty.
pub dequeue-dequeue :
    {ll : LinkedList} {xs : List Item} {drift : ℕ} (m n : ℕ) (one two : Bytes) (then_ now : ℕ)
    → Holds ll xs drift
    → equal one two ≡ false
    → equal one [] ≡ false
    → lt64 ll.node_ttl (sub64 now then_) ≡ false
    → (let taken = fetch m one then_ ll.node_ttl xs in
        let others = fetch n two now ll.node_ttl (passed_over m one then_ ll.node_ttl xs) in
        (l l' : LinkedList) × (dequeue m one then_ ll ≡ ok ((vals_of taken.0, ids_of taken.0), l))
        × (dequeue n two now l ≡ ok ((vals_of others.0, ids_of others.0), l')))
dequeue-dequeue {ll} {xs} m n one two then_ now h distinct someone early =
    let (l, e, held) = dequeue-fetch m one then_ h in
    let ttl : l.node_ttl ≡ ll.node_ttl =
      subst (HasTtl ll.node_ttl) e (dequeue-HasTtl m one then_ ll) in
    let (l', e', held') = dequeue-fetch n two now held in
    let same : (fetch n two now l.node_ttl (fetch m one then_ ll.node_ttl xs).1).0
        ≡ (fetch n two now ll.node_ttl (passed_over m one then_ ll.node_ttl xs)).0 =
      rw ttl (fetch-fetch one two ll.node_ttl then_ now distinct someone early m n xs) in
    (l, l', e, e' ∙ ap (λ ts. ok ((vals_of ts, ids_of ts), l')) same)
