-- ===== src/Fsm/Log.antt =====
-- Apply of pkg/fsm/syblineFSM.go: the entries of one log record.
use sybline.Base.{ℕ, suc, Bool, none, some, List, [], ◌∷◌, Bytes, length, ◌==◌, ◌||◌, if◌then◌else◌}
use sybline.Core.Run.{Run, ok, ◌>>=◌}
use sybline.Fsm.Command.{Decoder}
use sybline.Fsm.Apply.{Env, State, Result, apply_single}

-- The answer of Apply: no results, a decoding error, or the results of the entries.
pub data Answer : Type 0 where
  nothing undecodable : Answer
  results : List Result → Answer

module _ (d : Decoder) (env : ℕ → Env) where
  -- The i-th entry runs under `env i`; empty entries are skipped.
  unfoldable pub apply_entries : ℕ → List Bytes → State → Run (List Result × State)
  apply_entries i [] s = ok ([], s)
  apply_entries i (e ∷ es) s = if length e == 0 then apply_entries (suc i) es s else (do
    (r, t) ← apply_single d (env i) e s
    (rs, u) ← apply_entries (suc i) es t
    ok (r ∷ rs, u))

  unfoldable pub apply : (raft_log : Bool) → Bytes → State → Run (Answer × State)
  apply raft_log content s =
      if raft_log || (length content == 0) then ok (nothing, s) else elim (d.entries content) [
        | none ↦ ok (undecodable, s)
        | some es ↦ do (rs, t) ← apply_entries 0 es s; ok (results rs, t)
      ]
