-- ===== src/Fsm/Batcher/Last.antt =====
-- The last call of a full batch of pkg/fsm/batcher.go.
use sybline.Base.{
  ℕ, suc, ◌+◌, ◌-◌, ◌≤◌, ◌≡◌, refl, sym, subst, ◌∙◌, true, Option, none, some, List, [], ◌∷◌, ◌++◌,
  map, Bytes, length, get_elem?, ◌==◌, arith,
}
use sybline.Core.Run.{ok}
use sybline.Fsm.Apply.{Result}
use sybline.Fsm.Batcher.{Slots, Batcher, new_batcher, answers}
use sybline.Fsm.Batcher.Plan.{
  Event, call, events, Plan, new_plan, give, send_off, plan_event, plan_events, between,
}
use sybline.Fsm.Batcher.Channels.{received, get_elem?-snoc, get_elem?-map}
use sybline.Fsm.Batcher.History.{History, new_plan-History, plan_event-History, plan_events-History}
use sybline.Fsm.Batcher.Returned.{calls, length-returned, plan_events-call}
use sybline.Fsm.Batcher.Answers.{events-between}

module _ (apply_log : Slots → Option (List Result)) (n : ℕ) (d : Bytes) where
  plan_event-full :
      (p : Plan)
      → length p.entries + 1 ≡ n
      → plan_event apply_log n (call d) p
        ≡ give (length p.entries) d (send_off apply_log n (p.entries ++ d ∷ []) p)
  unfolding plan_event
  plan_event-full p h = let full : (length p.entries == n - 1) ≡ true = ground arith in rw full refl

  -- What becomes of an entry whose channel is the last of its slice.
  abbrev pub Misses : Batcher → (call_index : ℕ) → (batch : ℕ) → Slots → Type 0
  Misses b k g datas =
      (get_elem? b.returned k ≡ some ((suc g, n - 1), d))
      × (get_elem? b.logged g ≡ some datas)
      × (get_elem? datas (n - 1) ≡ some (some d))
      × (received (g, n - 1) b.sent ≡ get_elem? (answers apply_log datas) (n - 1))
      × (received (suc g, n - 1) b.sent ≡ none)

  send_off-Misses :
      (p : Plan)
      → length p.entries + 1 ≡ n
      → History apply_log n p
      → History apply_log n (plan_event apply_log n (call d) p)
      → Misses
          (between n (plan_event apply_log n (call d) p))
          (length p.returned)
          p.output_chans
          (map some (p.entries ++ d ∷ []))
  unfolding send_off
  send_off-Misses p h before after =
      let q = give (length p.entries) d (send_off apply_log n (p.entries ++ d ∷ []) p) in
      let batch = map some (p.entries ++ d ∷ []) in
      let place : length p.entries ≡ n - 1 = omega arith in
      let kept : History apply_log n q = subst (History apply_log n) (plan_event-full p h) after in
      let logged : get_elem? (p.logged ++ batch ∷ []) p.output_chans ≡ some batch =
        subst (λ g. get_elem? (p.logged ++ batch ∷ []) g ≡ some batch) before.counted
          (get_elem?-snoc p.logged batch) in
      subst (λ r. Misses (between n r) (length p.returned) p.output_chans batch)
        (sym (plan_event-full p h))
        (
          subst
              (λ i. get_elem? q.returned (length p.returned) ≡ some ((suc (p.output_chans), i), d))
              place (get_elem?-snoc p.returned ((suc (p.output_chans), length p.entries), d)),
          logged,
          subst (λ i. get_elem? batch i ≡ some (some d)) place
              (get_elem?-map (p.entries ++ d ∷ []) (length p.entries) (get_elem?-snoc p.entries d)),
          kept.answered p.output_chans (n - 1) batch logged,
          kept.fresh (suc (p.output_chans)) (n - 1) (omega arith),
        )

module _ (apply_log : Slots → Option (List Result))
    (few : (s : Slots) (rs : List Result) → apply_log s ≡ some rs → length rs ≤ length s) (n : ℕ)
    (some_room : 1 ≤ n) where
  -- Take a batch length `n` of at least 1, a raft that answers no more results than it was given
  -- entries, and calls of SendLog and timeouts, one after the other, after which the batch lacks one
  -- entry. The next call sends the batch off and returns the wrong channel: its entry goes to raft as
  -- the last one of the batch, and the answer is sent to the last channel of the batch's slice, but
  -- the call returns the last channel of the next slice, to which nothing was sent.
  pub events-Misses :
      (es : List Event) (d : Bytes)
      → length (plan_events apply_log n es new_plan).entries + 1 ≡ n
      → (b : Batcher) × (g : ℕ) × (datas : Slots) × (events apply_log n
            (es ++ call d ∷ [])
            (new_batcher n)
          ≡ ok b)
        × Misses apply_log n d b (calls es) g datas
  unfolding plan_events
  events-Misses es d h =
      let p = plan_events apply_log n es new_plan in
      let before =
        plan_events-History apply_log n es new_plan some_room (new_plan-History apply_log n) in
      let after = plan_event-History apply_log n (call d) p some_room before in
      let index : length p.returned ≡ calls es =
        omega (arith, length-returned apply_log n es new_plan) in
      (
        between n (plan_event apply_log n (call d) p),
        p.output_chans,
        map some (p.entries ++ d ∷ []),
        subst (λ r. events apply_log n (es ++ call d ∷ []) (new_batcher n) ≡ ok (between n r))
            (plan_events-last es d) (events-between apply_log few n some_room (es ++ call d ∷ [])),
        subst
            (λ k.
              Misses apply_log n d (between n (plan_event apply_log n (call d) p)) k p.output_chans
                (map some (p.entries ++ d ∷ [])))
            index (send_off-Misses apply_log n d p h before after),
      )
    where
      plan_events-last :
          (fs : List Event) (e : Bytes)
          → plan_events apply_log n (fs ++ call e ∷ []) new_plan
            ≡ plan_event apply_log n (call e) (plan_events apply_log n fs new_plan)
      plan_events-last fs e = plan_events-call apply_log n fs [] e new_plan ∙ refl
