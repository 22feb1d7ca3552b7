-- ===== src/Tests/Batching.antt =====
-- The batcher of pkg/fsm/batcher.go.
use sybline.Base.{
  ℕ, suc, ◌≤◌, ◌≡◌, refl, ap, ◌⊎◌, true, false, Option, none, some, List, [], ◌∷◌, ◌++◌, map, Bytes,
  length, length-map, get_elem?, arith,
}
use sybline.Core.Run.{ok}
use sybline.Fsm.Apply.{Result, result}
use sybline.Fsm.Batcher.{
  Slots, Chan, Batcher, assigned, Move, acquire, advance, submit, finish, process, tick, flush,
  new_batcher, move, acquire_index, advance_index, submit_entry, finish_call, process_input,
  timer_tick, timer_flush, make_slots, is_nil, slice_to, send_logs, send_all, answers, some_results,
}
use sybline.Fsm.Batcher.Steps.{enabled, Reach, start, later}
use sybline.Fsm.Batcher.Bounds.{Reach-move}
use sybline.Fsm.Batcher.Return.{Frees, Reach-Frees}
use sybline.Fsm.Batcher.Plan.{call, timeout, events, new_plan, plan_event, plan_events, between}
use sybline.Fsm.Batcher.Events.{events-plan_events}
use sybline.Fsm.Batcher.Returned.{calls}
use sybline.Fsm.Batcher.Answers.{Answered, events-Answered}
use sybline.Fsm.Batcher.Last.{Misses, events-Misses}

-- A raft that answers every entry.
abbrev answer : Option Bytes → Result
answer entry = result none

abbrev raft : Slots → Option (List Result)
raft datas = some (map answer datas)

raft_few : (s : Slots) (rs : List Result) → raft s ≡ some rs → length rs ≤ length s
raft_few s rs h =
    let same : map answer s ≡ rs = ground (arith, h) in
    omega (arith, length-map answer s, ap (length {A = Result}) same)

abbrev first : Bytes
first = 1 ∷ []

abbrev second : Bytes
second = 2 ∷ []

abbrev third : Bytes
third = 3 ∷ []

-- A caller has taken the first index.
abbrev in_call : Batcher
in_call = record (new_batcher 3) { caller = assigned first 0 }

in_call-Reach : Reach raft 3 in_call
unfolding new_batcher enabled move acquire_index
in_call-Reach = later (acquire first) start refl refl

Reach-move_example : (c : Batcher) × (move raft 3 advance in_call ≡ ok c)
unfolding enabled new_batcher
Reach-move_example = Reach-move raft raft_few 3 (omega arith) advance in_call in_call-Reach refl

Reach-Frees_example : Frees raft 3 5 in_call
Reach-Frees_example = Reach-Frees raft raft_few 3 (omega arith) in_call in_call-Reach

events-plan_events_example :
    events raft 2 (call first ∷ timeout ∷ call second ∷ []) (between 2 new_plan)
    ≡ ok (between 2 (plan_events raft 2 (call first ∷ timeout ∷ call second ∷ []) new_plan))
events-plan_events_example =
    events-plan_events raft raft_few 2 (omega arith) (call first ∷ timeout ∷ call second ∷ [])
      new_plan (omega arith)

events-Answered_example :
    (b : Batcher) × (c : Chan) × (events raft 2
        ((call first ∷ []) ++ call second ∷ timeout ∷ [])
        (new_batcher 2)
      ≡ ok b)
    × (get_elem? b.returned (calls (call first ∷ [])) ≡ some (c, second))
    × ((suc (c.1) ≡ 2) ⊎ Answered raft b c second)
events-Answered_example =
    events-Answered raft raft_few 2 (omega arith) (call first ∷ []) (timeout ∷ []) second

events-Misses_example :
    (b : Batcher) × (g : ℕ) × (datas : Slots) × (events raft 2
        ((call first ∷ []) ++ call second ∷ [])
        (new_batcher 2)
      ≡ ok b)
    × Misses raft 2 second b (calls (call first ∷ [])) g datas
unfolding plan_events plan_event
events-Misses_example = events-Misses raft raft_few 2 (omega arith) (call first ∷ []) second refl

-- The moves, each possible in its turn, and what the callers got.
abbrev possible : ℕ → List Move → Batcher → Option (List (Chan × Bytes))
possible n [] b = some b.returned
possible n (m ∷ ms) b = elim (enabled n m b) [
  | false ↦ none
  | true ↦ elim (move raft n m b) [ ok c ↦ possible n ms c | _ ↦ none ]
]

-- The timer goes off within a call: its entry is overwritten by a later one, which gets the same
-- channel.
timer_within_call :
    possible 3
      (acquire first
        ∷ advance
        ∷ submit
        ∷ process
        ∷ finish
        ∷ acquire second
        ∷ tick
        ∷ advance
        ∷ flush
        ∷ submit
        ∷ process
        ∷ finish
        ∷ acquire first
        ∷ advance
        ∷ submit
        ∷ process
        ∷ finish
        ∷ acquire third
        ∷ advance
        ∷ submit
        ∷ process
        ∷ finish
        ∷ [])
      (new_batcher 3)
    ≡ some (((0, 0), first) ∷ ((1, 1), second) ∷ ((1, 0), first) ∷ ((1, 1), third) ∷ [])
unfolding new_batcher enabled move acquire_index advance_index submit_entry finish_call
    process_input timer_tick timer_flush make_slots is_nil slice_to send_logs send_all answers
    some_results
timer_within_call = refl
