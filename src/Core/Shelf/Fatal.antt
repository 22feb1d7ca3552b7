-- ===== src/Core/Shelf/Fatal.antt =====
-- A message that expires in a queue which CreateQueue of pkg/core/QueueManager.go has made without a
-- dead-letter queue.
use sybline.Base.{
  ℕ, ◌+◌, ◌^◌, ◌≤◌, ◌<◌, ◌≡◌, refl, ap, sym, subst, ◌∙◌, String, Bool, true, false, ◌||◌, none,
  some, List, [], ◌∷◌, Bytes, equal, equal_refl, eq_refl, length, leb, ◌==◌, str_eq, if◌then◌else◌,
  arith,
}
use sybline.Base.Words.{add32}
use sybline.Base.Dict
use sybline.Core.Run.{ok, panic}
use sybline.Core.Node.{nil_queue}
use sybline.Core.Chain.{Item}
use sybline.Core.Spec
use sybline.Core.Spec.{new_item, released, locked, push, nack_hit, fetch, can_take}
use sybline.Core.QueueManager.{Ref, new_queue_manager}
use sybline.Core.Shelf.{
  done, fetched, create, submit, take, nack, Command, Reply, manage_all, Shelf, set_items, at_queue,
  expire, create_dead, create_stock, specified, specified_all, new_shelf,
}
use sybline.Core.Managed.Fetch.{messages_of}
use sybline.Core.Shelf.Follows.{Follows}
use sybline.Core.Shelf.Refines.{AllSized, manage_all-Follows}

-- The consumer fetches a message of the queue and gives it back, at each of these times.
unfoldable pub rounds : String → (consumer id : Bytes) → (times : List ℕ) → List Command
rounds name consumer id [] = []
rounds name consumer id (t ∷ ts) =
    take name 1 consumer t ∷ nack name consumer id ∷ rounds name consumer id ts

rounds-AllSized :
    (name : String) (consumer id : Bytes) (ts : List ℕ) → AllSized (rounds name consumer id ts)
unfolding rounds
rounds-AllSized name consumer id [] = tt
rounds-AllSized name consumer id (t ∷ ts) = (tt, (tt, rounds-AllSized name consumer id ts))

goes_on :
    (c : Command) (cs : List Command) (s t : Shelf) (r : Reply)
    → specified c s ≡ ok (r, t)
    → specified_all cs t ≡ panic
    → specified_all (c ∷ cs) s ≡ panic
unfolding specified_all
goes_on c cs s t r e f = rw (specified_all, e, f) refl

stops :
    (c : Command) (cs : List Command) (s : Shelf)
    → specified c s ≡ panic
    → specified_all (c ∷ cs) s ≡ panic
unfolding specified_all
stops c cs s e = rw (specified_all, e) refl

same_ref : (r : Ref) → (r == r) ≡ true
same_ref r = ground arith

fetch-one :
    (consumer : Bytes) (time ttl : ℕ) (x : Item)
    → x.consumer_id ≡ []
    → fetch 1 consumer time ttl (x ∷ []) ≡ (x ∷ [], locked consumer time x ∷ [])
unfolding fetch equal
fetch-one consumer time ttl x free =
    let can : can_take consumer time ttl x ≡ true =
      some_free (equal x.consumer_id consumer) (equal x.consumer_id []) _
        (ap (λ c. equal c []) free) in
    rw can refl
  where
    some_free : (a b c : Bool) → b ≡ true → (a || (b || c)) ≡ true
    some_free true b c e = refl
    some_free false b c e = rw e refl

nack-one :
    (limit : ℕ) (consumer id : Bytes) (y : Item)
    → y.id ≡ id
    → y.consumer_id ≡ consumer
    → Spec.nack limit consumer id (y ∷ []) ≡ (
        if leb limit (add32 y.fetched 1)
        then record { done = true; expired = some y; left = [] }
        else record { done = true; expired = none; left = released y ∷ [] })
unfolding Spec.nack nack_hit
nack-one limit consumer id y same mine =
    let hit : equal y.id id ≡ true = ap (equal y.id) (sym same) ∙ equal_refl y.id in
    let own : equal y.consumer_id consumer ≡ true =
      ap (equal y.consumer_id) (sym mine) ∙ equal_refl y.consumer_id in
    rw (Spec.nack, hit, nack_hit, own) refl

module _ (name : String) (consumer id : Bytes) (limit : ℕ) where
  -- The queue of the name has this one item, a retry limit and a nil dead-letter queue.
  record Waits (s : Shelf) (r : Ref) (x : Item) : Type 0 where
    named : Dict.get s.names name ≡ some r
    items : (s.stock r).items ≡ x ∷ []
    fetch_limit : (s.stock r).settings.fetch_limit ≡ limit
    kind : (s.stock r).settings.dead_letter ≡ nil_queue

  set_items-Waits :
      (s : Shelf) (r : Ref) (x y : Item) → Waits s r x → Waits (set_items r (y ∷ []) s) r y
  set_items-Waits s r x y w = record {
    named = w.named;
    items = rw (same_ref r) refl;
    fetch_limit = rw (same_ref r) w.fetch_limit;
    kind = rw (same_ref r) w.kind;
  }

  take_one :
      (s : Shelf) (r : Ref) (x : Item) (time : ℕ)
      → Waits s r x
      → x.consumer_id ≡ []
      → (reply : Reply) × (specified (take name 1 consumer time) s
          ≡ ok (reply, set_items r (locked consumer time x ∷ []) s))
  unfolding specified
  take_one s r x time w free = (
    fetched (some (messages_of (x ∷ []))),
    rw
        (
          specified,
          at_queue,
          w.named,
          w.items,
          fetch-one consumer time (s.stock r).settings.node_ttl x free,
        )
        refl,
  )

  nack_early :
      (s : Shelf) (r : Ref) (y : Item)
      → Waits s r y
      → y.id ≡ id
      → y.consumer_id ≡ consumer
      → leb limit (add32 y.fetched 1) ≡ false
      → specified (nack name consumer id) s ≡ ok (done none, set_items r (released y ∷ []) s)
  unfolding specified expire
  nack_early s r y w same mine early =
      rw
        (
          specified,
          at_queue,
          w.named,
          w.items,
          w.fetch_limit,
          nack-one limit consumer id y same mine,
          early,
          w.kind,
        )
        refl

  nack_last :
      (s : Shelf) (r : Ref) (y : Item)
      → Waits s r y
      → y.id ≡ id
      → y.consumer_id ≡ consumer
      → leb limit (add32 y.fetched 1) ≡ true
      → specified (nack name consumer id) s ≡ panic
  unfolding specified expire
  nack_last s r y w same mine late =
      rw
        (
          specified,
          at_queue,
          w.named,
          w.items,
          w.fetch_limit,
          nack-one limit consumer id y same mine,
          late,
          w.kind,
        )
        refl

  rounds-panic :
      (ts : List ℕ) (s : Shelf) (r : Ref) (x : Item)
      → Waits s r x
      → x.id ≡ id
      → x.consumer_id ≡ []
      → 1 ≤ length ts
      → x.fetched + length ts ≡ limit
      → limit < 2 ^ 32
      → specified_all (rounds name consumer id ts) s ≡ panic
  unfolding rounds add32
  rounds-panic [] s r x w same free some_left n small = absurd (omega arith)
  rounds-panic (t ∷ []) s r x w same free some_left n small =
      let y = locked consumer t x in
      let w' = set_items-Waits s r x y w in
      let (reply, e) = take_one s r x t w free in
      let late : leb limit (add32 x.fetched 1) ≡ true = ground arith in
      goes_on (take name 1 consumer t) _ s _ reply e
        (stops (nack name consumer id) [] _ (nack_last _ r y w' same refl late))
  rounds-panic (t ∷ u ∷ us) s r x w same free some_left n small =
      let y = locked consumer t x in
      let w' = set_items-Waits s r x y w in
      let (reply, e) = take_one s r x t w free in
      let early : leb limit (add32 x.fetched 1) ≡ false = ground arith in
      let next : add32 x.fetched 1 + length (u ∷ us) ≡ limit = ground arith in
      goes_on (take name 1 consumer t) _ s _ reply e (
        goes_on (nack name consumer id) _ _ _ (done none) (nack_early _ r y w' same refl early) (
          rounds-panic (u ∷ us) _ r (released y) (set_items-Waits _ r y (released y) w') same refl
            (omega arith) next small))

-- In a new queue manager, CreateQueue makes a queue without a dead-letter queue, of a name that is not
-- empty, with a capacity and a retry limit of at least 1, both below 2 ^ 32. A message is added to it,
-- and a consumer fetches it and gives it back as often as the retry limit says. These calls end in a
-- panic: the pointer that CreateQueue passes leads to a nil interface.
pub create_queue-panic :
    (node_ttl : ℕ) (name : String) (size limit : ℕ) (message id consumer : Bytes) (times : List ℕ)
    → str_eq name "" ≡ false
    → 1 ≤ size
    → size < 2 ^ 32
    → 1 ≤ limit
    → limit < 2 ^ 32
    → length times ≡ limit
    → manage_all
        (create name size limit false ∷ submit name message id ∷ rounds name consumer id times)
        (new_queue_manager node_ttl)
      ≡ panic
unfolding specified create_stock create_dead Dict.get Dict.put push
create_queue-panic node_ttl name size limit message id consumer times named room small some_limit
      fits n =
    let cs =
      create name size limit false ∷ submit name message id ∷ rounds name consumer id times in
    let made = create_stock name size limit false (new_shelf node_ttl) in
    let filled = set_items 0 (new_item id message ∷ []) made in
    let not_zero : (size == 0) ≡ false = ground arith in
    let has_room : leb size 0 ≡ false = ground arith in
    let here : Dict.get made.names name ≡ some 0 = rw (eq_refl name) refl in
    let created : specified (create name size limit false) (new_shelf node_ttl)
        ≡ ok (done none, made) =
      rw (named, not_zero) refl in
    let submitted : specified (submit name message id) made ≡ ok (done none, filled) =
      rw (specified, at_queue, here, has_room) refl in
    let ends : specified_all cs (new_shelf node_ttl) ≡ panic =
      goes_on (create name size limit false) _ (new_shelf node_ttl) made (done none) created (
        goes_on (submit name message id) _ made filled (done none) submitted (
          rounds-panic name consumer id limit times filled 0 (new_item id message)
            (record { named = here; items = refl; fetch_limit = refl; kind = refl }) refl refl
            (omega (arith, n)) (omega (arith, n)) fits)) in
    subst (λ run. Follows run (manage_all cs (new_queue_manager node_ttl))) ends
      (manage_all-Follows node_ttl cs (small, (tt, rounds-AllSized name consumer id times)))
