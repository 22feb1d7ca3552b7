-- ===== src/Fsm/Batcher/Events.antt =====
-- SendLog and the timer of pkg/fsm/batcher.go, one after the other.
use sybline.Base.{
  ℕ, suc, ◌+◌, ◌-◌, ◌%◌, ◌≤◌, ◌<◌, ◌≡◌, refl, inl, inr, true, false, Option, some, List, [], ◌∷◌,
  ◌++◌, map, Bytes, length, length-append, length-map, ◌==◌, ltb, arith, Bool-cases,
}
use sybline.Core.Run.{ok, ◌>>=◌}
use sybline.Fsm.Apply.{Result}
use sybline.Fsm.Batcher.{
  Slots, waiting, Batcher, make_slots, send_logs, acquire_index, advance_index, submit_entry,
  finish_call, process_input, timer_tick, timer_flush, move, answers,
}
use sybline.Fsm.Batcher.Bounds.{length-answers}
use sybline.Fsm.Batcher.Plan.{
  Event, call, timeout, moves, event, events, filled, set-filled, slice_to-filled, filled-full,
  length-filled, first_filled, Plan, give, send_off, plan_event, plan_events, between,
  send_all-to_chans,
}

module _ (apply_log : Slots → Option (List Result))
    (few : (s : Slots) (rs : List Result) → apply_log s ≡ some rs → length rs ≤ length s) (n : ℕ)
    (some_room : 1 ≤ n) where
  send_logs-send_off :
      (batch : List Bytes) (p : Plan) (b : Batcher)
      → length batch ≤ n
      → b.output_chans ≡ p.output_chans
      → b.logged ≡ p.logged
      → b.sent ≡ p.sent
      → send_logs apply_log n (map some batch) b
        ≡ ok (record b {
          next_free_index = 0;
          data_slice = make_slots n;
          output_chans = suc (p.output_chans);
          logged = (send_off apply_log n batch p).logged;
          sent = (send_off apply_log n batch p).sent;
        })
  unfolding send_logs send_off
  send_logs-send_off batch p b h e f g =
      let sends = send_all-to_chans n b.output_chans 0 (answers apply_log (map some batch)) (
        omega (
          arith,
          length-answers apply_log few n some_room (map some batch),
          length-map {A = Bytes} some batch,
        )) in
      rw (sends, e, f, g) refl

  -- The state after the entry is stored.
  abbrev stored : Plan → Bytes → Slots → Batcher
  stored p d slots = record (between n p) {
    next_free_index = (length p.entries + 1) % n;
    data_slice = slots;
    caller = waiting d (length p.entries);
  }

  -- The end of a call, after the goroutine of the input channel has taken its entry.
  finish_last :
      (p : Plan) (d : Bytes)
      → length p.entries + 1 ≡ n
      → (send_logs apply_log n
            (filled n (p.entries ++ d ∷ []))
            (stored p d (filled n (p.entries ++ d ∷ [])))
          >>= λ c. finish_call n c.caller c >>= λ e. ok e)
        ≡ ok (between n (give (length p.entries) d (send_off apply_log n (p.entries ++ d ∷ []) p)))
  unfolding finish_call filled send_off
  finish_last p d h =
      let all : length (p.entries ++ d ∷ []) ≡ n =
        omega (arith, length-append p.entries (d ∷ [])) in
      let below : ltb (length p.entries) n ≡ true = ground arith in
      rw (filled-full n (p.entries ++ d ∷ []) all) (
        rw
          (send_logs-send_off (p.entries ++ d ∷ []) p (stored p d (map some (p.entries ++ d ∷ [])))
            (omega (arith, all)) refl refl refl)
          (rw below refl))

  finish_early :
      (p : Plan) (d : Bytes)
      → length p.entries + 1 < n
      → (finish_call n (waiting d (length p.entries)) (stored p d (filled n (p.entries ++ d ∷ [])))
          >>= λ e. ok e)
        ≡ ok (between n (give (length p.entries) d (record p { entries = p.entries ++ d ∷ [] })))
  unfolding finish_call
  finish_early p d h =
      let below : ltb (length p.entries) n ≡ true = ground arith in
      let next : (length p.entries + 1) % n ≡ length (p.entries ++ d ∷ []) =
        grind (arith, length-append p.entries (d ∷ [])) in
      rw (below, next) refl

  event-call :
      (p : Plan) (d : Bytes)
      → length p.entries < n
      → event apply_log n (call d) (between n p)
        ≡ ok (between n (plan_event apply_log n (call d) p))
  unfolding event moves move acquire_index advance_index submit_entry process_input plan_event
  event-call p d h =
      let pos : (n == 0) ≡ false = ground arith in
      let below : ltb (length p.entries) (length (filled n p.entries)) ≡ true =
        ground (arith, length-filled n p.entries) in
      rw (pos, below, set-filled n p.entries d h)
        (elim (Bool-cases (length p.entries == n - 1)) [
          | inl e ↦ rw e (finish_last p d (ground arith))
          | inr e ↦ rw e (finish_early p d (ground arith))
        ])

  timeout_full :
      (p : Plan)
      → length p.entries < n
      → (timer_flush apply_log n
            (some (length p.entries))
            (record (between n p) { timer = some (length p.entries) })
          >>= λ c. ok c)
        ≡ ok (between n (send_off apply_log n p.entries p))
  unfolding timer_flush send_off filled
  timeout_full p h =
      rw (slice_to-filled n p.entries (omega arith))
        (rw (send_logs-send_off p.entries p (between n p) (omega arith) refl refl refl) refl)

  pub plan_event-room :
      (e : Event) (p : Plan)
      → length p.entries < n
      → length (plan_event apply_log n e p).entries < n
  unfolding plan_event send_off
  plan_event-room (call d) p h = elim (Bool-cases (length p.entries == n - 1)) [
    | inl e ↦ rw e (omega arith)
    | inr e ↦ rw e (ground (arith, length-append p.entries (d ∷ [])))
  ]
  plan_event-room timeout p h = elim (Bool-cases (length p.entries == 0)) [
    | inl e ↦ rw e h
    | inr e ↦ rw e (omega arith)
  ]

  pub plan_events-room :
      (es : List Event) (p : Plan)
      → length p.entries < n
      → length (plan_events apply_log n es p).entries < n
  unfolding plan_events
  plan_events-room [] p h = h
  plan_events-room (e ∷ es) p h =
      plan_events-room es (plan_event apply_log n e p) (plan_event-room e p h)

  event-timeout :
      (p : Plan)
      → length p.entries < n
      → event apply_log n timeout (between n p) ≡ ok (between n (plan_event apply_log n timeout p))
  unfolding event moves move plan_event timer_tick timer_flush
  event-timeout p h =
      rw (first_filled n p.entries some_room) (elim (Bool-cases (length p.entries == 0)) [
        | inl e ↦ rw e refl
        | inr e ↦ rw e (timeout_full p h)
      ])

  -- Take a batch length of at least one, and a raft that never answers a batch with more results than
  -- it has entries. From a state between two events whose batch has room, a sequence of whole calls
  -- of SendLog and timeouts, one after the other, does not panic and ends in the state that the plan
  -- says, with what went to raft, to the channels and to the callers.
  pub events-plan_events :
      (es : List Event) (p : Plan)
      → length p.entries < n
      → events apply_log n es (between n p) ≡ ok (between n (plan_events apply_log n es p))
  unfolding events plan_events
  events-plan_events [] p h = refl
  events-plan_events (call d ∷ es) p h =
      rw (event-call p d h)
        (events-plan_events es (plan_event apply_log n (call d) p) (plan_event-room (call d) p h))
  events-plan_events (timeout ∷ es) p h =
      rw (event-timeout p h)
        (events-plan_events es (plan_event apply_log n timeout p) (plan_event-room timeout p h))
