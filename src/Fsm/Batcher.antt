-- ===== src/Fsm/Batcher.antt =====
-- pkg/fsm/batcher.go: log entries gathered into batches. A move is a step of one goroutine: SendLog under
-- its lock in four moves, the goroutine that reads the input channel, and the one that waits for the
-- timer, both under the batch lock. The statement `nextFreeIndex = (nextFreeIndex + 1) % batchLength`,
-- which reads and then writes, is one move. ApplyLog of raft is a parameter.
pub mod Steps
pub mod Invariant
pub mod Bounds
pub mod Return
pub mod Plan
pub mod Events
pub mod Channels
pub mod History
pub mod Returned
pub mod Answers
pub mod Last
use sybline.Base.{
  ℕ, zero, suc, ◌+◌, ◌-◌, ◌%◌, Bool, true, false, ◌&&◌, Option, none, some, List, [], ◌∷◌, ◌++◌,
  Bytes, length, get_elem?, set, ◌==◌, ltb, leb, if◌then◌else◌,
}
use sybline.Core.Run.{Run, ok, panic, ◌>>=◌}
use sybline.Fsm.Apply.{Result}

pub record DataIndex : Type 0 where
  pub content : Bytes
  pub id : ℕ

-- A `[][]byte` of entries, with `none` for nil.
abbrev pub Slots : Type 0
Slots = List (Option Bytes)

-- The channel at an index of the n-th slice of channels that was made.
abbrev pub Chan : Type 0
Chan = ℕ × ℕ

-- Where the caller of SendLog stands that has the lock. Others wait for it.
pub data Caller : Type 0 where
  idle : Caller
  -- `currentIndex` is read, then the next index is written
  assigned counted : (content : Bytes) (current_index : ℕ) → Caller
  -- the entry is sent, and the caller in or behind `wait.Wait()`
  waiting : (content : Bytes) (current_index : ℕ) → Caller

pub record Batcher : Type 0 where
  pub input : List DataIndex
  pub next_free_index : ℕ
  pub data_slice : Slots
  -- which slice of channels `outputChans` points to
  pub output_chans : ℕ
  pub wait : ℕ
  pub caller : Caller
  -- the goroutine of the timer within its critical section, with its `currentIndex`
  pub timer : Option ℕ
  -- what ApplyLog was given
  pub logged : List Slots
  -- what was sent to the output channels; `none` for nil
  pub sent : List (Chan × Option Result)
  -- the calls of SendLog that have returned
  pub returned : List (Chan × Bytes)

-- `make([][]byte, n)`
unfoldable pub make_slots : ℕ → Slots
make_slots zero = []
make_slots (suc n) = none ∷ make_slots n

-- `s[0:k]`
unfoldable pub slice_to : Slots → ℕ → Run Slots
slice_to s zero = ok []
slice_to [] (suc k) = panic
slice_to (x ∷ s) (suc k) = do t ← slice_to s k; ok (x ∷ t)

-- The loops of sendLogs: one value to each channel from `i` on, of the `n` there are.
unfoldable pub send_all : (n batch i : ℕ) → List (Option Result) → Run (List (Chan × Option Result))
send_all n batch i [] = ok []
send_all n batch i (r ∷ rs) = do
  rest ← send_all n batch (suc i) rs
  if ltb i n then ok (((batch, i), r) ∷ rest) else panic

-- nil for each entry
unfoldable pub no_results : Slots → List (Option Result)
no_results [] = []
no_results (x ∷ s) = none ∷ no_results s

unfoldable pub some_results : List Result → List (Option Result)
some_results [] = []
some_results (r ∷ rs) = some r ∷ some_results rs

pub data Move : Type 0 where
  -- a caller gets the lock of SendLog and reads the index
  acquire : Bytes → Move
  advance submit finish : Move
  -- the goroutine of the input channel takes an entry
  process : Move
  -- the timer fires; the batch is sent off
  tick flush : Move

unfoldable pub is_nil : Option (Option Bytes) → Run Bool
is_nil none = panic
is_nil (some none) = ok true
is_nil (some (some d)) = ok false

unfoldable pub acquire_index : Bytes → Batcher → Run Batcher
acquire_index content b = ok (record b { caller = assigned content b.next_free_index })

unfoldable pub submit_entry : Caller → Batcher → Run Batcher
submit_entry (counted content i) b = ok (record b {
  input = b.input ++ record { content = content; id = i } ∷ [];
  wait = suc (b.wait);
  caller = waiting content i;
})
submit_entry idle b = ok b
submit_entry (assigned content i) b = ok b
submit_entry (waiting content i) b = ok b

unfoldable pub timer_tick : Batcher → Run Batcher
timer_tick b = do
  empty ← is_nil (get_elem? b.data_slice 0)
  if empty then ok b else ok (record b { timer = some b.next_free_index })

-- What sendLogs sends: nil for each entry on any of the three errors, else the results.
unfoldable pub answers : (apply_log : Slots → Option (List Result)) → Slots → List (Option Result)
answers apply_log datas = elim (apply_log datas) [
  | none ↦ no_results datas
  | some rs ↦ some_results rs
]

module _ (batch_length : ℕ) where
  unfoldable pub new_batcher : Batcher
  new_batcher = record {
    input = [];
    next_free_index = 0;
    data_slice = make_slots batch_length;
    output_chans = 0;
    wait = 0;
    caller = idle;
    timer = none;
    logged = [];
    sent = [];
    returned = [];
  }

  unfoldable pub advance_index : Caller → Batcher → Run Batcher
  advance_index (assigned content i) b =
      if batch_length == 0
      then panic
      else ok (record b {
        next_free_index = (b.next_free_index + 1) % batch_length;
        caller = counted content i;
      })
  advance_index idle b = ok b
  advance_index (counted content i) b = ok b
  advance_index (waiting content i) b = ok b

  -- `return (*b.outputChans)[currentIndex], nil`
  unfoldable pub finish_call : Caller → Batcher → Run Batcher
  finish_call (waiting content i) b =
      if ltb i batch_length
      then ok
          (record b { caller = idle; returned = b.returned ++ ((b.output_chans, i), content) ∷ [] })
      else panic
  finish_call idle b = ok b
  finish_call (assigned content i) b = ok b
  finish_call (counted content i) b = ok b

module _ (apply_log : Slots → Option (List Result)) (batch_length : ℕ) where
  -- The end of both goroutines' batches: new slices, and sendLogs with the old ones.
  unfoldable pub send_logs : Slots → Batcher → Run Batcher
  send_logs datas b = do
    out ← send_all batch_length b.output_chans 0 (answers apply_log datas)
    ok (record b {
      next_free_index = 0;
      data_slice = make_slots batch_length;
      output_chans = suc (b.output_chans);
      logged = b.logged ++ datas ∷ [];
      sent = b.sent ++ out;
    })

  -- `wait.Done()` panics when the counter is 0, after what is done before it.
  unfoldable pub process_input : List DataIndex → Batcher → Run Batcher
  process_input [] b = ok b
  process_input (entry ∷ rest) b =
      if ltb entry.id (length b.data_slice)
      then (let stored = set b.data_slice entry.id (some entry.content) in
          let taken = record b { input = rest; data_slice = stored; wait = b.wait - 1 } in
          if b.wait == 0
          then panic
          else if entry.id == batch_length - 1
          then send_logs stored taken
          else ok taken)
      else panic

  unfoldable pub timer_flush : Option ℕ → Batcher → Run Batcher
  timer_flush none b = ok b
  timer_flush (some current_index) b = do
    datas ← slice_to b.data_slice current_index
    send_logs datas (record b { timer = none })

  unfoldable pub move : Move → Batcher → Run Batcher
  move (acquire content) b = acquire_index content b
  move advance b = advance_index batch_length b.caller b
  move submit b = submit_entry b.caller b
  move finish b = finish_call batch_length b.caller b
  move process b = process_input b.input b
  move tick b = timer_tick b
  move flush b = timer_flush b.timer b
