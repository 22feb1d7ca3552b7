-- ===== src/Fsm/Batcher/Steps.antt =====
-- The goroutines of pkg/fsm/batcher.go, interleaved in any order that the locks, the channel and the
-- wait group permit.
use sybline.Base.{
  ℕ, ◌≡◌, Bool, true, false, ◌&&◌, Option, none, some, List, [], ◌∷◌, length, ◌==◌, ltb,
  if◌then◌else◌,
}
use sybline.Core.Run.{ok}
use sybline.Fsm.Apply.{Result}
use sybline.Fsm.Batcher.{
  DataIndex, Slots, Caller, idle, assigned, counted, waiting, Batcher, Move, acquire, advance,
  submit, finish, process, tick, flush, new_batcher, move,
}

-- The batch lock is free.
abbrev pub is_free : Option ℕ → Bool
is_free none = true
is_free (some k) = false

abbrev pub may_acquire : Caller → Bool
may_acquire idle = true
may_acquire _ = false

abbrev pub may_advance : Caller → Bool
may_advance (assigned content i) = true
may_advance _ = false

abbrev pub may_submit : Caller → Bool
may_submit (counted content i) = true
may_submit _ = false

abbrev pub may_finish : Caller → Bool
may_finish (waiting content i) = true
may_finish _ = false

abbrev pub has_entry : List DataIndex → Bool
has_entry [] = false
has_entry (e ∷ es) = true

-- The input channel has room for as many entries as a batch.
unfoldable pub enabled : (batch_length : ℕ) → Move → Batcher → Bool
enabled n (acquire content) b = may_acquire b.caller
enabled n advance b = may_advance b.caller
enabled n submit b = may_submit b.caller && ltb (length b.input) n
enabled n finish b = may_finish b.caller && (b.wait == 0)
enabled n process b = has_entry b.input && is_free b.timer
enabled n tick b = is_free b.timer
enabled n flush b = if is_free b.timer then false else true

module _ (apply_log : Slots → Option (List Result)) (n : ℕ) where
  pub data Reach : Batcher → Type 0 where
    start : Reach (new_batcher n)
    later :
        {b c : Batcher} (m : Move)
        → Reach b
        → enabled n m b ≡ true
        → move apply_log n m b ≡ ok c
        → Reach c
