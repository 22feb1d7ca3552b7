-- ===== src/Fsm/Batcher/Returned.antt =====
-- The calls of SendLog of pkg/fsm/batcher.go that have returned, in order.
use sybline.Base.{
  ℕ, suc, ◌+◌, ◌-◌, ◌≡◌, refl, ap, sym, subst, inl, inr, Option, some, List, [], ◌∷◌, ◌++◌, Bytes,
  length, length-append, get_elem?, ◌==◌, arith, Bool-cases,
}
use sybline.Fsm.Apply.{Result}
use sybline.Fsm.Batcher.{Slots, Chan}
use sybline.Fsm.Batcher.Plan.{Event, call, timeout, Plan, send_off, plan_event, plan_events}
use sybline.Fsm.Batcher.Channels.{get_elem?-append}

abbrev pub calls : List Event → ℕ
calls [] = 0
calls (call d ∷ es) = suc (calls es)
calls (timeout ∷ es) = calls es

module _ (apply_log : Slots → Option (List Result)) (n : ℕ) where
  pub returned-call :
      (d : Bytes) (p : Plan)
      → (c : Chan) × (c.1 ≡ length p.entries)
        × ((plan_event apply_log n (call d) p).returned ≡ p.returned ++ (c, d) ∷ [])
  unfolding plan_event send_off
  returned-call d p = elim (Bool-cases (length p.entries == n - 1)) [
    | inl e ↦ rw e ((suc (p.output_chans), length p.entries), refl, refl)
    | inr e ↦ rw e ((p.output_chans, length p.entries), refl, refl)
  ]

  pub returned-timeout : (p : Plan) → (plan_event apply_log n timeout p).returned ≡ p.returned
  unfolding plan_event send_off
  returned-timeout p = elim (Bool-cases (length p.entries == 0)) [
    | inl e ↦ rw e refl
    | inr e ↦ rw e refl
  ]

  pub length-returned :
      (es : List Event) (p : Plan)
      → length (plan_events apply_log n es p).returned ≡ length p.returned + calls es
  unfolding plan_events
  length-returned [] p = omega arith
  length-returned (call d ∷ es) p =
      let (c, _, grown) = returned-call d p in
      omega (
        arith,
        length-returned es (plan_event apply_log n (call d) p),
        ap (length {A = Chan × Bytes}) grown,
        length-append p.returned ((c, d) ∷ []),
      )
  length-returned (timeout ∷ es) p = omega (
    arith,
    length-returned es (plan_event apply_log n timeout p),
    ap (length {A = Chan × Bytes}) (returned-timeout p),
  )

  pub returned-kept :
      (es : List Event) (p : Plan) (j : ℕ) (x : Chan × Bytes)
      → get_elem? p.returned j ≡ some x
      → get_elem? (plan_events apply_log n es p).returned j ≡ some x
  unfolding plan_events
  returned-kept [] p j x h = h
  returned-kept (call d ∷ es) p j x h =
      let (c, _, grown) = returned-call d p in
      returned-kept es (plan_event apply_log n (call d) p) j x (
        subst (λ l. get_elem? l j ≡ some x) (sym grown)
          (get_elem?-append p.returned ((c, d) ∷ []) j h))
  returned-kept (timeout ∷ es) p j x h =
      returned-kept es (plan_event apply_log n timeout p) j x
        (subst (λ l. get_elem? l j ≡ some x) (sym (returned-timeout p)) h)

  pub plan_events-append :
      (es fs : List Event) (p : Plan)
      → plan_events apply_log n (es ++ fs) p
        ≡ plan_events apply_log n fs (plan_events apply_log n es p)
  unfolding plan_events
  plan_events-append [] fs p = refl
  plan_events-append (e ∷ es) fs p = plan_events-append es fs (plan_event apply_log n e p)

  pub plan_events-call :
      (es fs : List Event) (d : Bytes) (p : Plan)
      → plan_events apply_log n (es ++ call d ∷ fs) p
        ≡ plan_events apply_log n fs
            (plan_event apply_log n (call d) (plan_events apply_log n es p))
  unfolding plan_events
  plan_events-call es fs d p = plan_events-append es (call d ∷ fs) p
