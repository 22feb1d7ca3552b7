-- ===== src/Fsm/Batcher/Bounds.antt =====
-- No index of pkg/fsm/batcher.go leaves its slice, whatever the order of the goroutines.
use sybline.Base.{
  ℕ, suc, ◌+◌, ◌-◌, ◌%◌, ◌≤◌, ◌<◌, ◌≡◌, refl, sym, subst, ◌∙◌, true, false, Option, none, some,
  List, [], ◌∷◌, ◌++◌, Bytes, length, set, ◌==◌, ltb, arith, inl, inr, Bool-cases, Option-cases,
}
use sybline.Core.Run.{ok}
use sybline.Fsm.Apply.{Result}
use sybline.Fsm.Batcher.{
  DataIndex, Slots, Caller, idle, assigned, counted, waiting, Batcher, Move, acquire, advance,
  submit, finish, process, tick, flush, make_slots, new_batcher, answers, send_logs, acquire_index,
  advance_index, submit_entry, finish_call, process_input, timer_tick, timer_flush, move,
}
use sybline.Fsm.Batcher.Steps.{
  may_acquire, may_advance, may_submit, may_finish, has_entry, is_free, enabled, Reach, start,
  later,
}
use sybline.Fsm.Batcher.Invariant.{
  IsBatcher, Coherent, Safe, entry_waiting, waiting_done, acquire-Coherent, length-make_slots,
  length-set, slice_to-ok, send_all-ok, length-no_results, length-some_results, first_slot,
  remainder_lt,
}

module _ (apply_log : Slots → Option (List Result))
    (few : (s : Slots) (rs : List Result) → apply_log s ≡ some rs → length rs ≤ length s) (n : ℕ)
    (some_room : 1 ≤ n) where
  pub length-answers : (s : Slots) → length (answers apply_log s) ≤ length s
  unfolding answers
  length-answers s = elim (Option-cases (apply_log s)) [
    | inl e ↦ rw (e, answers) (omega (arith, length-no_results s))
    | inr (rs, e) ↦ rw (e, answers) (omega (arith, length-some_results rs, few s rs e))
  ]

  send_logs-IsBatcher :
      (datas : Slots) (b : Batcher)
      → length datas ≤ n
      → Coherent n b.caller b.input b.wait
      → ((k : ℕ) → b.timer ≡ some k → k < n)
      → Safe n (send_logs apply_log n datas b)
  unfolding send_logs
  send_logs-IsBatcher datas b few_entries coherent timed =
      let (out, at) =
        send_all-ok n b.output_chans 0 (answers apply_log datas)
          (omega (arith, length-answers datas)) in
      (
        record b {
          next_free_index = 0;
          data_slice = make_slots n;
          output_chans = suc (b.output_chans);
          logged = b.logged ++ datas ∷ [];
          sent = b.sent ++ out;
        },
        rw at refl,
        record {
          next = omega arith;
          slots = length-make_slots n;
          coherent = coherent;
          timed = timed;
        },
      )

  acquire-Safe :
      (content : Bytes) (b : Batcher)
      → IsBatcher n b
      → may_acquire b.caller ≡ true
      → Safe n (acquire_index content b)
  unfolding acquire_index
  acquire-Safe content b v h = (
    record b { caller = assigned content b.next_free_index },
    refl,
    record {
      next = v.next;
      slots = v.slots;
      coherent =
          acquire-Coherent n b.next_free_index content b.caller b.input b.wait h v.next v.coherent;
      timed = v.timed;
    },
  )

  advance-Safe :
      (cl : Caller) (b : Batcher)
      → IsBatcher n b
      → Coherent n cl b.input b.wait
      → may_advance cl ≡ true
      → Safe n (advance_index n cl b)
  unfolding advance_index
  advance-Safe idle b v c h = absurd (cc)
  advance-Safe (counted content i) b v c h = absurd (cc)
  advance-Safe (waiting content i) b v c h = absurd (cc)
  advance-Safe (assigned content i) b v c h =
      let pos : (n == 0) ≡ false = ground arith in
      (
        record b { next_free_index = (b.next_free_index + 1) % n; caller = counted content i },
        rw pos refl,
        record {
          next = remainder_lt (b.next_free_index + 1) n some_room;
          slots = v.slots;
          coherent = c;
          timed = v.timed;
        },
      )

  submit-Safe :
      (cl : Caller) (b : Batcher)
      → IsBatcher n b
      → Coherent n cl b.input b.wait
      → may_submit cl ≡ true
      → Safe n (submit_entry cl b)
  unfolding submit_entry
  submit-Safe idle b v c h = absurd (cc)
  submit-Safe (assigned content i) b v c h = absurd (cc)
  submit-Safe (waiting content i) b v c h = absurd (cc)
  submit-Safe (counted content i) b v (lt, none_left, zero_wait) h =
      let entry : DataIndex = record { content = content; id = i } in
      let one_entry : Coherent n (waiting content i) (b.input ++ entry ∷ []) (suc (b.wait)) =
        subst (λ l. Coherent n (waiting content i) (l ++ entry ∷ []) (suc (b.wait))) (sym none_left)
          (lt, omega arith, refl, refl, refl) in
      (
        record b { input = b.input ++ entry ∷ []; wait = suc (b.wait); caller = waiting content i },
        refl,
        record { next = v.next; slots = v.slots; coherent = one_entry; timed = v.timed },
      )

  finish-Safe :
      (cl : Caller) (b : Batcher)
      → IsBatcher n b
      → Coherent n cl b.input b.wait
      → may_finish cl ≡ true
      → b.wait ≡ 0
      → Safe n (finish_call n cl b)
  unfolding finish_call
  finish-Safe idle b v c h z = absurd (cc)
  finish-Safe (assigned content i) b v c h z = absurd (cc)
  finish-Safe (counted content i) b v c h z = absurd (cc)
  finish-Safe (waiting content i) b v c h z =
      let (lt, none_left) = waiting_done n content i b.input b.wait c z in
      let below : ltb i n ≡ true = ground arith in
      (
        record b { caller = idle; returned = b.returned ++ ((b.output_chans, i), content) ∷ [] },
        rw below refl,
        record { next = v.next; slots = v.slots; coherent = (none_left, z); timed = v.timed },
      )

  process-Safe :
      (input : List DataIndex) (b : Batcher)
      → IsBatcher n b
      → Coherent n b.caller input b.wait
      → has_entry input ≡ true
      → is_free b.timer ≡ true
      → Safe n (process_input apply_log n input b)
  unfolding process_input
  process-Safe [] b v c h free = absurd (cc)
  process-Safe (e ∷ rest) b v c h free =
      let (content, i, stands, lt, one, alone, at, _) = entry_waiting n b.caller e rest b.wait c in
      let below : ltb e.id (length b.data_slice) ≡ true = ground (arith, v.slots) in
      let stored = set b.data_slice e.id (some e.content) in
      let taken = record b { input = rest; data_slice = stored; wait = b.wait - 1 } in
      let size : length stored ≡ n = length-set b.data_slice e.id (some e.content) ∙ v.slots in
      let coherent : Coherent n b.caller rest (b.wait - 1) =
        subst (λ l. Coherent n b.caller l (b.wait - 1)) (sym alone)
          (subst (λ cl. Coherent n cl [] (b.wait - 1)) (sym stands) (lt, omega arith)) in
      let counted_once : (b.wait == 0) ≡ false = ground arith in
      rw (below, counted_once)
        (elim (Bool-cases (e.id == n - 1)) [
          | inl last ↦ rw last (send_logs-IsBatcher stored taken (omega arith) coherent v.timed)
          | inr more ↦ rw more (
            taken,
            refl,
            record { next = v.next; slots = size; coherent = coherent; timed = v.timed },
          )
        ])

  tick-Safe : (b : Batcher) → IsBatcher n b → Safe n (timer_tick b)
  unfolding timer_tick
  tick-Safe b v =
      let (empty, at) = first_slot b.data_slice (omega (arith, v.slots)) in
      rw at (elim (Bool-cases empty) [
        | inl e ↦ rw e (b, refl, v)
        | inr e ↦ rw e (
          record b { timer = some b.next_free_index },
          refl,
          record {
            next = v.next;
            slots = v.slots;
            coherent = v.coherent;
            timed = λ k h. subst (λ j. j < n) (ground (arith, h)) v.next;
          },
        )
      ])

  flush-Safe :
      (t : Option ℕ) (b : Batcher)
      → IsBatcher n b
      → b.timer ≡ t
      → Safe n (timer_flush apply_log n t b)
  unfolding timer_flush
  flush-Safe none b v e = (b, refl, v)
  flush-Safe (some k) b v e =
      let lt = v.timed k e in
      let (datas, at, size) = slice_to-ok b.data_slice k (omega (arith, v.slots)) in
      rw at (
        send_logs-IsBatcher datas (record b { timer = none }) (omega arith) v.coherent
          (λ j h. absurd (cc)))

  pub move-Safe :
      (m : Move) (b : Batcher)
      → IsBatcher n b
      → enabled n m b ≡ true
      → Safe n (move apply_log n m b)
  unfolding move enabled
  move-Safe (acquire content) b v h = acquire-Safe content b v h
  move-Safe advance b v h = advance-Safe b.caller b v v.coherent h
  move-Safe submit b v h = submit-Safe b.caller b v v.coherent (ground arith)
  move-Safe finish b v h = finish-Safe b.caller b v v.coherent (ground arith) (ground arith)
  move-Safe process b v h = process-Safe b.input b v v.coherent (ground arith) (ground arith)
  move-Safe tick b v h = tick-Safe b v
  move-Safe flush b v h = flush-Safe b.timer b v refl

  pub Reach-IsBatcher : {b : Batcher} → Reach apply_log n b → IsBatcher n b
  unfolding new_batcher
  Reach-IsBatcher start = record {
    next = some_room;
    slots = length-make_slots n;
    coherent = (refl, refl);
    timed = λ k h. absurd (cc);
  }
  Reach-IsBatcher (later {b} m r may at) =
      let (c, moved, v) = move-Safe m b (Reach-IsBatcher r) may in
      subst (IsBatcher n) (ground (arith, moved, at)) v

  -- Take a batch length of at least 1, and a raft that answers no more results than it was given
  -- entries. In every state that the callers of SendLog, the goroutine of the input channel and that
  -- of the timer can reach, in any order that the locks and the channel permit, no move that is
  -- possible panics: no index or slice bound leaves its slice.
  pub Reach-move :
      (m : Move) (b : Batcher)
      → Reach apply_log n b
      → enabled n m b ≡ true
      → (c : Batcher) × (move apply_log n m b ≡ ok c)
  Reach-move m b r may = let (c, moved, _) = move-Safe m b (Reach-IsBatcher r) may in (c, moved)
