-- ===== src/Fsm/Batcher/Invariant.antt =====
-- Batchers of pkg/fsm/batcher.go in order.
use sybline.Base.{
  ℕ, zero, suc, ◌+◌, ◌%◌, ◌≤◌, ◌<◌, ◌≡◌, refl, Bool, true, false, Option, none, some, List, [], ◌∷◌,
  Bytes, length, get_elem?, set, ltb, arith,
}
use sybline.Core.Run.{Run, ok}
use sybline.Fsm.Apply.{Result}
use sybline.Fsm.Batcher.{
  DataIndex, Slots, Chan, Caller, idle, assigned, counted, waiting, Batcher, make_slots, slice_to,
  send_all, no_results, some_results, is_nil,
}
use sybline.Fsm.Batcher.Steps.{may_acquire}

pub length-make_slots : (n : ℕ) → length (make_slots n) ≡ n
unfolding make_slots
length-make_slots zero = refl
length-make_slots (suc n) = omega (arith, length-make_slots n)

pub length-set : (s : Slots) (i : ℕ) (v : Option Bytes) → length (set s i v) ≡ length s
length-set [] i v = refl
length-set (x ∷ s) zero v = refl
length-set (x ∷ s) (suc i) v = omega (arith, length-set s i v)

pub slice_to-ok :
    (s : Slots) (k : ℕ) → k ≤ length s → (t : Slots) × (slice_to s k ≡ ok t) × (length t ≡ k)
unfolding slice_to
slice_to-ok s zero h = ([], refl, refl)
slice_to-ok [] (suc k) h = absurd (omega arith)
slice_to-ok (x ∷ s) (suc k) h =
    let (t, at, len) = slice_to-ok s k (omega arith) in (x ∷ t, rw at refl, omega arith)

pub send_all-ok :
    (n batch i : ℕ) (rs : List (Option Result))
    → i + length rs ≤ n
    → (out : List (Chan × Option Result)) × (send_all n batch i rs ≡ ok out)
unfolding send_all
send_all-ok n batch i [] h = ([], refl)
send_all-ok n batch i (r ∷ rs) h =
    let (out, at) = send_all-ok n batch (suc i) rs (omega arith) in
    let below : ltb i n ≡ true = ground arith in (((batch, i), r) ∷ out, rw (at, below) refl)

pub length-no_results : (s : Slots) → length (no_results s) ≡ length s
unfolding no_results
length-no_results [] = refl
length-no_results (x ∷ s) = omega (arith, length-no_results s)

pub length-some_results : (rs : List Result) → length (some_results rs) ≡ length rs
unfolding some_results
length-some_results [] = refl
length-some_results (x ∷ s) = omega (arith, length-some_results s)

-- The index that the caller has taken, what is in the channel and what the wait group counts.
abbrev pub Coherent : ℕ → Caller → List DataIndex → ℕ → Type 0
Coherent n idle input wait = (input ≡ []) × (wait ≡ 0)
Coherent n (assigned content i) input wait = (i < n) × (input ≡ []) × (wait ≡ 0)
Coherent n (counted content i) input wait = (i < n) × (input ≡ []) × (wait ≡ 0)
Coherent n (waiting content i) [] wait = (i < n) × (wait ≡ 0)
Coherent n (waiting content i) (e ∷ es) wait =
    (i < n) × (wait ≡ 1) × (es ≡ []) × (e.id ≡ i) × (e.content ≡ content)

pub record IsBatcher (n : ℕ) (b : Batcher) : Type 0 where
  pub next : b.next_free_index < n
  pub slots : length b.data_slice ≡ n
  pub coherent : Coherent n b.caller b.input b.wait
  pub timed : (k : ℕ) → b.timer ≡ some k → k < n

-- While an entry is in the channel, its caller waits.
pub entry_waiting :
    (n : ℕ) (cl : Caller) (e : DataIndex) (rest : List DataIndex) (w : ℕ)
    → Coherent n cl (e ∷ rest) w
    → (content : Bytes) × (i : ℕ) × (cl ≡ waiting content i)
      × (i < n)
      × (w ≡ 1)
      × (rest ≡ [])
      × (e.id ≡ i)
      × (e.content ≡ content)
entry_waiting n idle e rest w (h, _) = absurd (cc)
entry_waiting n (assigned content i) e rest w (_, h, _) = absurd (cc)
entry_waiting n (counted content i) e rest w (_, h, _) = absurd (cc)
entry_waiting n (waiting content i) e rest w (lt, one, alone, at, same) =
    (content, i, refl, lt, one, alone, at, same)

-- When the wait group is at zero, the entry has been taken.
pub waiting_done :
    (n : ℕ) (content : Bytes) (i : ℕ) (input : List DataIndex) (w : ℕ)
    → Coherent n (waiting content i) input w
    → w ≡ 0
    → (i < n) × (input ≡ [])
waiting_done n content i [] w (lt, _) z = (lt, refl)
waiting_done n content i (e ∷ es) w (_, one, _, _, _) z = absurd (omega arith)

pub acquire-Coherent :
    (n i : ℕ) (content : Bytes) (cl : Caller) (input : List DataIndex) (w : ℕ)
    → may_acquire cl ≡ true
    → i < n
    → Coherent n cl input w
    → Coherent n (assigned content i) input w
acquire-Coherent n i content idle input w h lt (none_left, zero_wait) = (lt, none_left, zero_wait)
acquire-Coherent n i content (assigned d j) input w h lt c = absurd (cc)
acquire-Coherent n i content (counted d j) input w h lt c = absurd (cc)
acquire-Coherent n i content (waiting d j) input w h lt c = absurd (cc)

pub first_slot : (s : Slots) → 1 ≤ length s → (e : Bool) × (is_nil (get_elem? s 0) ≡ ok e)
unfolding is_nil
first_slot [] h = absurd (omega arith)
first_slot (none ∷ s) h = (true, refl)
first_slot (some d ∷ s) h = (false, refl)

pub remainder_lt : (m n : ℕ) → 1 ≤ n → m % n < n
remainder_lt m n h = grind arith

-- The outcome is a batcher in order.
abbrev pub Safe : ℕ → Run Batcher → Type 0
Safe n r = (c : Batcher) × (r ≡ ok c) × IsBatcher n c
