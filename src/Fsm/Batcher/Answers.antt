-- ===== src/Fsm/Batcher/Answers.antt =====
-- What the callers of SendLog of pkg/fsm/batcher.go receive on their channels.
use sybline.Base.{
  ℕ, zero, suc, ◌≤◌, ◌<◌, ◌≡◌, ap, sym, subst, inl, inr, ◌⊎◌, Option, none, some, List, [], ◌∷◌,
  ◌++◌, Bytes, length, get_elem?, arith,
}
use native.Mathlib.Decide.{dec_lt}
use sybline.Core.Run.{ok}
use sybline.Fsm.Apply.{Result}
use sybline.Fsm.Batcher.{Slots, Chan, Batcher, new_batcher, answers}
use sybline.Fsm.Batcher.Plan.{
  Event, call, events, Plan, new_plan, plan_event, plan_events, between, filled,
}
use sybline.Fsm.Batcher.Events.{events-plan_events, plan_event-room, plan_events-room}
use sybline.Fsm.Batcher.Channels.{received, get_elem?-snoc}
use sybline.Fsm.Batcher.History.{History, new_plan-History, plan_event-History, plan_events-History}
use sybline.Fsm.Batcher.Returned.{
  calls, returned-call, length-returned, returned-kept, plan_events-call,
}

-- Where the entry of a call is and what its channel has: in the batch that fills up, with nothing
-- sent; or in a batch that went to raft, with the answer at its place.
abbrev pub Answered : (apply_log : Slots → Option (List Result)) → Batcher → Chan → Bytes → Type 0
Answered apply_log b c d =
    ((datas : Slots) × (get_elem? b.logged c.0 ≡ some datas)
      × (get_elem? datas c.1 ≡ some (some d))
      × (received c b.sent ≡ get_elem? (answers apply_log datas) c.1))
    ⊎ ((get_elem? b.data_slice c.1 ≡ some (some d)) × (received c b.sent ≡ none))

filled-entry :
    (n : ℕ) (ps : List Bytes) (i : ℕ) {d : Bytes}
    → length ps ≤ n
    → get_elem? ps i ≡ some d
    → get_elem? (filled n ps) i ≡ some (some d)
unfolding filled
filled-entry n [] i h e = absurd (cc)
filled-entry zero (p ∷ ps) i h e = absurd (omega arith)
filled-entry (suc n) (p ∷ ps) zero h e = ap some e
filled-entry (suc n) (p ∷ ps) (suc i) h e = filled-entry n ps i (omega arith) e

module _ (apply_log : Slots → Option (List Result))
    (few : (s : Slots) (rs : List Result) → apply_log s ≡ some rs → length rs ≤ length s) (n : ℕ)
    (some_room : 1 ≤ n) where
  History-Answered :
      (p : Plan) (j : ℕ) (c : Chan) (d : Bytes)
      → History apply_log n p
      → length p.entries < n
      → get_elem? p.returned j ≡ some (c, d)
      → suc (c.1) < n
      → Answered apply_log (between n p) c d
  History-Answered p j c d h room at lt = elim (h.placed j c d at lt) [
    | inl (datas, logged, found) ↦ inl (datas, logged, found, h.answered c.0 c.1 datas logged)
    | inr (current, found) ↦
        inr (
          filled-entry n p.entries c.1 (omega arith) found,
          h.fresh c.0 c.1 (omega (arith, current)),
        )
  ]

  pub events-between :
      (es : List Event)
      → events apply_log n es (new_batcher n) ≡ ok (between n (plan_events apply_log n es new_plan))
  unfolding new_batcher filled
  events-between es = events-plan_events apply_log few n some_room es new_plan some_room

  -- Take a batch length `n` of at least 1, a raft that answers no more results than it was given
  -- entries, and calls of SendLog and timeouts, one after the other in any order. They end without a
  -- panic, and each call has returned a channel. Unless that is the last channel of its slice, the
  -- entry of the call is in the batch that fills up, at the place of the channel, to which nothing was
  -- sent; or it went to raft in a batch at the place of the channel, to which the answer of raft at
  -- that place of the batch was sent.
  pub events-Answered :
      (before after : List Event) (d : Bytes)
      → (b : Batcher) × (c : Chan) × (events apply_log n (before ++ call d ∷ after) (new_batcher n)
          ≡ ok b)
        × (get_elem? b.returned (calls before) ≡ some (c, d))
        × ((suc (c.1) ≡ n) ⊎ Answered apply_log b c d)
  events-Answered before after d =
      let p = plan_events apply_log n before new_plan in
      let q = plan_events apply_log n after (plan_event apply_log n (call d) p) in
      let whole : plan_events apply_log n (before ++ call d ∷ after) new_plan ≡ q =
        plan_events-call apply_log n before after d new_plan in
      let (c, place, grown) = returned-call apply_log n d p in
      let index : length p.returned ≡ calls before =
        omega (arith, length-returned apply_log n before new_plan) in
      let p_room = plan_events-room apply_log few n some_room before new_plan some_room in
      let q_room =
        plan_events-room apply_log few n some_room after (plan_event apply_log n (call d) p)
          (plan_event-room apply_log few n some_room (call d) p p_room) in
      let at : get_elem? q.returned (calls before) ≡ some (c, d) =
        subst (λ j. get_elem? q.returned j ≡ some (c, d)) index
          (returned-kept apply_log n after (plan_event apply_log n (call d) p) (length p.returned)
            (c, d)
            (subst (λ l. get_elem? l (length p.returned) ≡ some (c, d)) (sym grown)
              (get_elem?-snoc p.returned (c, d)))) in
      let history : History apply_log n q =
        plan_events-History apply_log n after (plan_event apply_log n (call d) p) some_room (
          plan_event-History apply_log n (call d) p some_room (
            plan_events-History apply_log n before new_plan some_room
              (new_plan-History apply_log n))) in
      (
        between n q,
        c,
        subst
            (λ r. events apply_log n (before ++ call d ∷ after) (new_batcher n) ≡ ok (between n r))
            whole (events-between (before ++ call d ∷ after)),
        at,
        elim (dec_lt (suc (c.1)) n) [
          | yes below ↦ inr (History-Answered q (calls before) c d history q_room at below)
          | no not_below ↦ inl (omega (arith, place, p_room))
        ],
      )
