-- ===== src/Fsm/Batcher/History.antt =====
-- What a sequence of calls and timeouts of pkg/fsm/batcher.go leaves in the log and the channels.
use sybline.Base.{
  ℕ, suc, ◌-◌, ◌≤◌, ◌<◌, ◌≡◌, refl, ap, sym, subst, ◌∙◌, inl, inr, ◌⊎◌, Option, none, some, List,
  [], ◌∷◌, ◌++◌, map, append-nil, Bytes, length, length-append, get_elem?, ◌==◌, arith, Bool-cases,
}
use sybline.Fsm.Apply.{Result}
use sybline.Fsm.Batcher.{Slots, Chan, answers}
use sybline.Fsm.Batcher.Plan.{
  Event, call, timeout, Plan, to_chans, new_plan, give, send_off, plan_event, plan_events,
}
use sybline.Fsm.Batcher.Channels.{
  received, received_other, received_new, get_elem?-append, get_elem?-snoc, snoc_cases,
  get_elem?-lt, get_elem?-map,
}

module _ (apply_log : Slots → Option (List Result)) (n : ℕ) where
  -- The entry of a caller with this channel: in a batch that was sent off, or in the one that fills.
  abbrev pub Placed : Plan → Chan → Bytes → Type 0
  Placed p c d =
      ((datas : Slots) × (get_elem? p.logged c.0 ≡ some datas)
        × (get_elem? datas c.1 ≡ some (some d)))
      ⊎ ((c.0 ≡ p.output_chans) × (get_elem? p.entries c.1 ≡ some d))

  pub record History (p : Plan) : Type 0 where
    pub counted : length p.logged ≡ p.output_chans
    pub fresh : (g i : ℕ) → p.output_chans ≤ g → received (g, i) p.sent ≡ none
    pub answered :
        (g i : ℕ) (datas : Slots)
        → get_elem? p.logged g ≡ some datas
        → received (g, i) p.sent ≡ get_elem? (answers apply_log datas) i
    pub placed :
        (j : ℕ) (c : Chan) (d : Bytes)
        → get_elem? p.returned j ≡ some (c, d)
        → suc (c.1) < n
        → Placed p c d

  pub new_plan-History : History new_plan
  unfolding received
  new_plan-History = record {
    counted = refl;
    fresh = λ g i h. refl;
    answered = λ g i datas h. absurd (cc);
    placed = λ j c d h lt. absurd (cc);
  }

  pub Placed-send_off :
      (more : List Bytes) (p : Plan) (c : Chan) (d : Bytes)
      → length p.logged ≡ p.output_chans
      → Placed p c d
      → Placed (send_off apply_log n (p.entries ++ more) p) c d
  unfolding send_off
  Placed-send_off more p c d counted (inl (datas, at, found)) =
      inl (datas, get_elem?-append p.logged (map some (p.entries ++ more) ∷ []) c.0 at, found)
  Placed-send_off more p c d counted (inr (current, found)) =
      let batch = map some (p.entries ++ more) in
      inl (
        batch,
        subst (λ g. get_elem? (p.logged ++ batch ∷ []) g ≡ some batch) (counted ∙ sym current)
            (get_elem?-snoc p.logged batch),
        get_elem?-map (p.entries ++ more) c.1 (get_elem?-append p.entries more c.1 found),
      )

  pub send_off-History :
      (more : List Bytes) (p : Plan)
      → History p
      → History (send_off apply_log n (p.entries ++ more) p)
  unfolding send_off
  send_off-History more p h =
      let batch = map some (p.entries ++ more) in
      record {
        counted = omega (arith, length-append p.logged (batch ∷ []), h.counted);
        fresh = λ g i le.
            received_other g i p.output_chans 0 (answers apply_log batch) p.sent (λ e. omega arith)
            ∙ h.fresh g i (omega arith);
        answered = λ g i datas at. elim (snoc_cases p.logged batch datas g at) [
          | inl before ↦
              received_other g i p.output_chans 0 (answers apply_log batch) p.sent
                (λ e. omega (arith, get_elem?-lt p.logged g before, h.counted))
              ∙ h.answered g i datas before
          | inr (last, same) ↦
              subst
                (λ l.
                  received (g, i) (p.sent ++ to_chans p.output_chans 0 (answers apply_log batch))
                  ≡ get_elem? (answers apply_log l) i)
                same
                (subst
                  (λ k.
                    received (k, i) (p.sent ++ to_chans p.output_chans 0 (answers apply_log batch))
                    ≡ get_elem? (answers apply_log batch) i)
                  (sym (last ∙ h.counted))
                  (received_new p.output_chans i (answers apply_log batch) p.sent
                    (h.fresh p.output_chans i (omega arith))))
        ];
        placed = λ j c d at lt. Placed-send_off more p c d h.counted (h.placed j c d at lt);
      }

  pub give-History :
      (i : ℕ) (e : Bytes) (p : Plan)
      → History p
      → (suc i < n → Placed p (p.output_chans, i) e)
      → History (give i e p)
  give-History i e p h here = record {
    counted = h.counted;
    fresh = h.fresh;
    answered = h.answered;
    placed = λ j c d at lt. elim (snoc_cases p.returned ((p.output_chans, i), e) (c, d) j at) [
      | inl before ↦ h.placed j c d before lt
      | inr (_, same) ↦ given c d same lt
    ];
  }
    where
      given :
          (c : Chan) (d : Bytes)
          → ◌≡◌ {A = Chan × Bytes} ((p.output_chans, i), e) (c, d)
          → suc (c.1) < n
          → Placed p c d
      given c d same lt =
          let at : ◌≡◌ {A = Chan} (p.output_chans, i) c = ap (λ (x : Chan × Bytes). x.0) same in
          let entry : e ≡ d = ap (λ (x : Chan × Bytes). x.1) same in
          subst (Placed p c) entry
            (subst (λ k. Placed p k e) at (here (subst (λ (k : Chan). suc (k.1) < n) (sym at) lt)))

  pub add_entry-History :
      (d : Bytes) (p : Plan) → History p → History (record p { entries = p.entries ++ d ∷ [] })
  add_entry-History d p h = record {
    counted = h.counted;
    fresh = h.fresh;
    answered = h.answered;
    placed = λ j c e at lt. elim (h.placed j c e at lt) [
      | inl off ↦ inl off
      | inr (current, found) ↦ inr (current, get_elem?-append p.entries (d ∷ []) c.1 found)
    ];
  }

  pub plan_event-History :
      (e : Event) (p : Plan) → 1 ≤ n → History p → History (plan_event apply_log n e p)
  unfolding plan_event
  plan_event-History (call d) p room h = elim (Bool-cases (length p.entries == n - 1)) [
    | inl e ↦ rw e (
        give-History (length p.entries) d (send_off apply_log n (p.entries ++ d ∷ []) p)
          (send_off-History (d ∷ []) p h) (λ lt. absurd (ground arith)))
    | inr e ↦ rw e (
        give-History (length p.entries) d (record p { entries = p.entries ++ d ∷ [] })
          (add_entry-History d p h) (λ lt. inr (refl, get_elem?-snoc p.entries d)))
  ]
  plan_event-History timeout p room h = elim (Bool-cases (length p.entries == 0)) [
    | inl e ↦ rw e h
    | inr e ↦ rw e (
        subst (λ l. History (send_off apply_log n l p)) (append-nil p.entries)
          (send_off-History [] p h))
  ]

  pub plan_events-History :
      (es : List Event) (p : Plan) → 1 ≤ n → History p → History (plan_events apply_log n es p)
  unfolding plan_events
  plan_events-History [] p room h = h
  plan_events-History (e ∷ es) p room h =
      plan_events-History es (plan_event apply_log n e p) room (plan_event-History e p room h)
