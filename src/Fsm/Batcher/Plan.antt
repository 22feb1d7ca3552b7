-- ===== src/Fsm/Batcher/Plan.antt =====
-- Calls of SendLog and timeouts of pkg/fsm/batcher.go one after the other, and what comes of them.
use sybline.Base.{
  ℕ, zero, suc, ◌+◌, ◌-◌, ◌≤◌, ◌<◌, ◌≡◌, refl, ap, true, Option, none, some, List, [], ◌∷◌, ◌++◌,
  map, Bytes, length, get_elem?, set, ◌==◌, ltb, if◌then◌else◌, arith,
}
use sybline.Core.Run.{Run, ok, ◌>>=◌}
use sybline.Fsm.Apply.{Result}
use sybline.Fsm.Batcher.{
  Slots, Chan, idle, Batcher, Move, acquire, advance, submit, finish, process, tick, flush,
  make_slots, slice_to, is_nil, move, send_all, answers,
}

pub data Event : Type 0 where
  call : Bytes → Event
  timeout : Event

module _ (apply_log : Slots → Option (List Result)) (n : ℕ) where
  -- Moves one after the other.
  unfoldable pub moves : List Move → Batcher → Run Batcher
  moves [] b = ok b
  moves (m ∷ ms) b = do c ← move apply_log n m b; moves ms c

  -- A call of SendLog from its start to its end, or what the timer does when it fires in between.
  unfoldable pub event : Event → Batcher → Run Batcher
  event (call content) b = moves (acquire content ∷ advance ∷ submit ∷ process ∷ finish ∷ []) b
  event timeout b = moves (tick ∷ flush ∷ []) b

  unfoldable pub events : List Event → Batcher → Run Batcher
  events [] b = ok b
  events (e ∷ es) b = do c ← event e b; events es c

-- The slots of a batch that has the entries `ps`.
unfoldable pub filled : ℕ → List Bytes → Slots
filled n [] = make_slots n
filled zero (p ∷ ps) = []
filled (suc n) (p ∷ ps) = some p ∷ filled n ps

pub set-filled :
    (n : ℕ) (ps : List Bytes) (d : Bytes)
    → length ps < n
    → set (filled n ps) (length ps) (some d) ≡ filled n (ps ++ d ∷ [])
unfolding filled make_slots
set-filled zero ps d h = absurd (omega arith)
set-filled (suc n) [] d h = refl
set-filled (suc n) (p ∷ ps) d h = ap (λ s. some p ∷ s) (set-filled n ps d (omega arith))

pub slice_to-filled :
    (n : ℕ) (ps : List Bytes)
    → length ps ≤ n
    → slice_to (filled n ps) (length ps) ≡ ok (map some ps)
unfolding filled slice_to
slice_to-filled n [] h = refl
slice_to-filled zero (p ∷ ps) h = absurd (omega arith)
slice_to-filled (suc n) (p ∷ ps) h = rw (slice_to-filled n ps (omega arith)) refl

pub filled-full : (n : ℕ) (ps : List Bytes) → length ps ≡ n → filled n ps ≡ map some ps
unfolding filled make_slots
filled-full zero [] h = refl
filled-full (suc n) [] h = absurd (omega arith)
filled-full zero (p ∷ ps) h = absurd (omega arith)
filled-full (suc n) (p ∷ ps) h = ap (λ s. some p ∷ s) (filled-full n ps (omega arith))

pub length-filled : (n : ℕ) (ps : List Bytes) → length (filled n ps) ≡ n
unfolding filled make_slots
length-filled zero [] = refl
length-filled (suc n) [] = omega (arith, length-filled n [])
length-filled zero (p ∷ ps) = refl
length-filled (suc n) (p ∷ ps) = omega (arith, length-filled n ps)

pub first_filled :
    (n : ℕ) (ps : List Bytes) → 1 ≤ n → is_nil (get_elem? (filled n ps) 0) ≡ ok (length ps == 0)
unfolding is_nil filled make_slots
first_filled zero ps h = absurd (omega arith)
first_filled (suc n) [] h = refl
first_filled (suc n) (p ∷ ps) h = ground arith

-- A batcher seen from outside, between two events: the entries of the batch that fills up, and what
-- went to raft, to the channels and to the callers.
pub record Plan : Type 0 where
  pub entries : List Bytes
  pub output_chans : ℕ
  pub logged : List Slots
  pub sent : List (Chan × Option Result)
  pub returned : List (Chan × Bytes)

-- Value by value to the channels from `i` on.
unfoldable pub to_chans : (batch i : ℕ) → List (Option Result) → List (Chan × Option Result)
to_chans batch i [] = []
to_chans batch i (r ∷ rs) = ((batch, i), r) ∷ to_chans batch (suc i) rs

abbrev pub new_plan : Plan
new_plan = record { entries = []; output_chans = 0; logged = []; sent = []; returned = [] }

-- The caller gets a channel of the slice of channels that is the current one when it returns.
abbrev pub give : ℕ → Bytes → Plan → Plan
give i d p = record p { returned = p.returned ++ ((p.output_chans, i), d) ∷ [] }

module _ (apply_log : Slots → Option (List Result)) (n : ℕ) where
  unfoldable pub send_off : List Bytes → Plan → Plan
  send_off batch p = record p {
    entries = [];
    output_chans = suc (p.output_chans);
    logged = p.logged ++ map some batch ∷ [];
    sent = p.sent ++ to_chans p.output_chans 0 (answers apply_log (map some batch));
  }

  unfoldable pub plan_event : Event → Plan → Plan
  plan_event (call d) p = give (length p.entries) d (
      if length p.entries == n - 1
      then send_off (p.entries ++ d ∷ []) p
      else record p { entries = p.entries ++ d ∷ [] })
  plan_event timeout p = if length p.entries == 0 then p else send_off p.entries p

  unfoldable pub plan_events : List Event → Plan → Plan
  plan_events [] p = p
  plan_events (e ∷ es) p = plan_events es (plan_event e p)

-- The batcher that a plan stands for: nobody is in SendLog, and the slots have the entries.
abbrev pub between : ℕ → Plan → Batcher
between n p = record {
  input = [];
  next_free_index = length p.entries;
  data_slice = filled n p.entries;
  output_chans = p.output_chans;
  wait = 0;
  caller = idle;
  timer = none;
  logged = p.logged;
  sent = p.sent;
  returned = p.returned;
}

pub send_all-to_chans :
    (n batch i : ℕ) (rs : List (Option Result))
    → i + length rs ≤ n
    → send_all n batch i rs ≡ ok (to_chans batch i rs)
unfolding send_all to_chans
send_all-to_chans n batch i [] h = refl
send_all-to_chans n batch i (r ∷ rs) h =
    let below : ltb i n ≡ true = ground arith in
    rw (send_all-to_chans n batch (suc i) rs (omega arith), below) refl
