-- ===== src/Fsm/Batcher/Return.antt =====
-- SendLog of pkg/fsm/batcher.go always returns.
use sybline.Base.{
  ℕ, suc, ◌-◌, set, ◌≤◌, ◌≡◌, refl, subst, ◌∙◌, inl, inr, Bool, true, false, Option, none, some,
  List, [], ◌∷◌, Bytes, length, ◌==◌, ltb, arith, Bool-cases,
}
use sybline.Core.Run.{ok, first_part}
use sybline.Fsm.Apply.{Result}
use sybline.Fsm.Batcher.{
  DataIndex, Slots, Caller, idle, assigned, counted, waiting, Batcher, Move, acquire, advance,
  submit, finish, process, flush, slice_to, send_all, answers, send_logs, advance_index,
  submit_entry, finish_call, process_input, timer_flush, move,
}
use sybline.Fsm.Batcher.Steps.{enabled, Reach}
use sybline.Fsm.Batcher.Invariant.{IsBatcher, Coherent, entry_waiting}
use sybline.Fsm.Batcher.Bounds.{move-Safe, Reach-IsBatcher}

abbrev pub is_call : Move → Bool
is_call (acquire content) = true
is_call _ = false

abbrev pub NoCalls : List Move → Type 0
NoCalls [] = Unit
NoCalls (m ∷ ms) = (is_call m ≡ false) × NoCalls ms

module _ (apply_log : Slots → Option (List Result)) (n : ℕ) where
  pub data Runs : List Move → Batcher → Batcher → Type 0 where
    stop : {b : Batcher} → Runs [] b b
    step :
        {ms : List Move} {b c d : Batcher} (m : Move)
        → enabled n m b ≡ true
        → move apply_log n m b ≡ ok c
        → Runs ms c d
        → Runs (m ∷ ms) b d

  -- At most `k` moves, each of them possible and none of them a new call, free the lock of SendLog.
  pub record Frees (k : ℕ) (b : Batcher) : Type 0 where
    pub moves : List Move
    pub last : Batcher
    pub few : length moves ≤ k
    pub no_calls : NoCalls moves
    pub runs : Runs moves b last
    pub freed : last.caller ≡ idle

  Frees-step :
      (k : ℕ) (b c : Batcher) (m : Move)
      → is_call m ≡ false
      → enabled n m b ≡ true
      → move apply_log n m b ≡ ok c
      → Frees k c
      → Frees (suc k) b
  Frees-step k b c m other may at f = record {
    moves = m ∷ f.moves;
    last = f.last;
    few = omega (arith, f.few);
    no_calls = (other, f.no_calls);
    runs = step m may at f.runs;
    freed = f.freed;
  }

  Frees-le : (j k : ℕ) (b : Batcher) → j ≤ k → Frees j b → Frees k b
  Frees-le j k b h f = record {
    moves = f.moves;
    last = f.last;
    few = omega (arith, f.few);
    no_calls = f.no_calls;
    runs = f.runs;
    freed = f.freed;
  }

  send_logs-ok :
      (datas : Slots) (b c : Batcher)
      → send_logs apply_log n datas b ≡ ok c
      → (c.caller ≡ b.caller) × (c.input ≡ b.input) × (c.timer ≡ b.timer)
  unfolding send_logs
  send_logs-ok datas b c h =
      let (out, e, at) = first_part (send_all n b.output_chans 0 (answers apply_log datas)) _ h in
      ground (arith, e)

  flush-ok :
      (t : Option ℕ) (b c : Batcher)
      → timer_flush apply_log n t b ≡ ok c
      → b.timer ≡ t
      → (c.caller ≡ b.caller) × (c.timer ≡ none)
  unfolding timer_flush
  flush-ok none b c h e = ground arith
  flush-ok (some k) b c h e =
      let (datas, f, at) = first_part (slice_to b.data_slice k) _ h in
      let (same, _, free) = send_logs-ok datas (record b { timer = none }) c f in (same, free)

  process-ok :
      (e : DataIndex) (b c : Batcher)
      → process_input apply_log n (e ∷ []) b ≡ ok c
      → (c.caller ≡ b.caller) × (c.input ≡ [])
  unfolding process_input
  process-ok e b c h =
      let stored = set b.data_slice e.id (some e.content) in
      let taken = record b { input = []; data_slice = stored; wait = b.wait - 1 } in
      elim (Bool-cases (ltb e.id (length b.data_slice))) [
        | inr out ↦ absurd (ground arith)
        | inl below ↦ elim (Bool-cases (b.wait == 0)) [
          | inl zero_times ↦ absurd (ground arith)
          | inr counted_once ↦ elim (Bool-cases (e.id == n - 1)) [
            | inl last ↦
                let (same, empty, _) = send_logs-ok stored taken c (ground arith) in (same, empty)
            | inr more ↦ ground arith
          ]
        ]
      ]

  finish-ok :
      (content : Bytes) (i : ℕ) (b c : Batcher)
      → finish_call n (waiting content i) b ≡ ok c
      → c.caller ≡ idle
  unfolding finish_call
  finish-ok content i b c h = ground arith

module _ (apply_log : Slots → Option (List Result))
    (few : (s : Slots) (rs : List Result) → apply_log s ≡ some rs → length rs ≤ length s) (n : ℕ)
    (some_room : 1 ≤ n) where
  -- A move that is possible, and what is left after it.
  after_move :
      (k : ℕ) (m : Move) (b : Batcher)
      → IsBatcher n b
      → is_call m ≡ false
      → enabled n m b ≡ true
      → ((c : Batcher) → IsBatcher n c → move apply_log n m b ≡ ok c → Frees apply_log n k c)
      → Frees apply_log n (suc k) b
  after_move k m b v other may next =
      let (c, at, w) = move-Safe apply_log few n some_room m b v may in
      Frees-step apply_log n k b c m other may at (next c w at)

  Frees-finish :
      (content : Bytes) (i : ℕ) (b : Batcher)
      → IsBatcher n b
      → b.caller ≡ waiting content i
      → b.wait ≡ 0
      → Frees apply_log n 1 b
  unfolding enabled move
  Frees-finish content i b v stands zero_wait =
      after_move 0 finish b v refl (rw (stands, zero_wait) refl) (λ c w at. record {
        moves = [];
        last = c;
        few = omega arith;
        no_calls = tt;
        runs = stop;
        freed =
            finish-ok apply_log n content i b c (subst (λ cl. finish_call n cl b ≡ ok c) stands at);
      })

  drained :
      (content : Bytes) (i : ℕ) (input : List DataIndex) (w : ℕ)
      → Coherent n (waiting content i) input w
      → input ≡ []
      → w ≡ 0
  drained content i [] w (_, z) e = z
  drained content i (x ∷ xs) w c e = absurd (cc)

  Frees-process :
      (content : Bytes) (i : ℕ) (b : Batcher)
      → IsBatcher n b
      → b.caller ≡ waiting content i
      → b.timer ≡ none
      → (input : List DataIndex) → b.input ≡ input
      → Frees apply_log n 2 b
  unfolding enabled move
  Frees-process content i b v stands free [] empty = Frees-le apply_log n 1 2 b (omega arith) (
      Frees-finish content i b v stands (
        drained content i b.input b.wait
          (subst (λ cl. Coherent n cl b.input b.wait) stands v.coherent) empty))
  Frees-process content i b v stands free (e ∷ rest) full =
      let (_, _, _, _, _, alone, _, _) =
        entry_waiting n b.caller e rest b.wait
          (subst (λ l. Coherent n b.caller l b.wait) full v.coherent) in
      after_move 1 process b v refl (rw (full, free) refl) (λ c w at.
        let (same, empty) = process-ok apply_log n e b c (
          subst (λ l. process_input apply_log n (e ∷ l) b ≡ ok c) alone
            (subst (λ l. process_input apply_log n l b ≡ ok c) full at)) in
        Frees-finish content i c w (same ∙ stands) (
          drained content i c.input c.wait
            (subst (λ cl. Coherent n cl c.input c.wait) (same ∙ stands) w.coherent) empty))

  Frees-waiting :
      (content : Bytes) (i : ℕ) (b : Batcher)
      → IsBatcher n b
      → b.caller ≡ waiting content i
      → (t : Option ℕ) → b.timer ≡ t
      → Frees apply_log n 3 b
  unfolding enabled move
  Frees-waiting content i b v stands none free =
      Frees-le apply_log n 2 3 b (omega arith)
        (Frees-process content i b v stands free b.input refl)
  Frees-waiting content i b v stands (some k) busy =
      after_move 2 flush b v refl (rw busy refl) (λ c w at.
        let (same, free) =
          flush-ok apply_log n (some k) b c
            (subst (λ t. timer_flush apply_log n t b ≡ ok c) busy at) busy in
        Frees-process content i c w (same ∙ stands) free c.input refl)

  Frees-counted :
      (content : Bytes) (i : ℕ) (b : Batcher)
      → IsBatcher n b
      → b.caller ≡ counted content i
      → Frees apply_log n 4 b
  unfolding enabled move submit_entry
  Frees-counted content i b v stands =
      let (_, empty, _) =
        let c : Coherent n (counted content i) b.input b.wait =
          subst (λ cl. Coherent n cl b.input b.wait) stands v.coherent in
        c in
      after_move 3 submit b v refl (rw (stands, empty) (ground arith)) (λ c w at.
        let sent : submit_entry (counted content i) b ≡ ok c =
          subst (λ cl. submit_entry cl b ≡ ok c) stands at in
        Frees-waiting content i c w (ground arith) c.timer refl)

  Frees-assigned :
      (content : Bytes) (i : ℕ) (b : Batcher)
      → IsBatcher n b
      → b.caller ≡ assigned content i
      → Frees apply_log n 5 b
  unfolding enabled move advance_index
  Frees-assigned content i b v stands = after_move 4 advance b v refl (rw stands refl) (λ c w at.
      let sent : advance_index n (assigned content i) b ≡ ok c =
        subst (λ cl. advance_index n cl b ≡ ok c) stands at in
      Frees-counted content i c w (ground arith))

  Frees-caller :
      (b : Batcher) → IsBatcher n b → (cl : Caller) → b.caller ≡ cl → Frees apply_log n 5 b
  Frees-caller b v idle e = record {
    moves = [];
    last = b;
    few = omega arith;
    no_calls = tt;
    runs = stop;
    freed = e;
  }
  Frees-caller b v (assigned content i) e = Frees-assigned content i b v e
  Frees-caller b v (counted content i) e =
      Frees-le apply_log n 4 5 b (omega arith) (Frees-counted content i b v e)
  Frees-caller b v (waiting content i) e =
      Frees-le apply_log n 3 5 b (omega arith) (Frees-waiting content i b v e b.timer refl)

  -- No call of SendLog is stuck. Take a batch length of at least 1, and a raft that answers no more
  -- results than it was given entries: from every state that the goroutines can reach, at most five
  -- moves, each of them possible when its turn comes and none of them a new call, lead to a state in
  -- which the lock of SendLog is free.
  pub Reach-Frees : (b : Batcher) → Reach apply_log n b → Frees apply_log n 5 b
  Reach-Frees b r = Frees-caller b (Reach-IsBatcher apply_log few n some_room r) b.caller refl
