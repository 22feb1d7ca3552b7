-- ===== src/Handler/Batches.antt =====
-- SubmitBatchedMessages of pkg/handler/Handler.go.
use mathlib.Core.List.{Permᴰ}
use sybline.Base.{
  ◌+◌, ◌==◌, ap₂, count, one_if, eq_refl, ℕ, suc, ◌≡◌, refl, ap, sym, ◌∙◌, subst, inl, inr, String,
  Bool, true, false, Option, none, some, List, [], ◌∷◌, ◌++◌, Bytes, length, length-append,
  append-nil, append_assoc, arith, str_eq, eq_iff, Bool-cases, Option-cases, if◌then◌else◌,
}
use sybline.Base.Dict
use sybline.Base.Dict.{Dict}
use sybline.Fsm.Command.{Op, Messages}
use sybline.Handler.Validation.{HandlerError}
use sybline.Handler.Sending.{
  Payload, batch_messages, Handled, refused, send, Context, Server, valid, from_context, permitted,
  values,
}
use sybline.Handler.Request.{group, submit_batched_messages}
use sybline.Handler.Routes.{
  only, contents_of, ids_of, Groups, IsKeyed, Groups-put, put-IsKeyed, get-rk,
}

-- The payload has one entry for each routing key of the request, with all that was submitted under it.
abbrev pub has_rk : String → Messages → Bool
has_rk rk m = str_eq m.rk rk

abbrev pub IsComplete : List (String × Bytes) → Messages → Type 0
IsComplete ms m = (m.contents ≡ only m.rk ms) × (length m.ids ≡ length m.contents)

abbrev pub AllComplete : List (String × Bytes) → List Messages → Type 0
AllComplete ms [] = Unit
AllComplete ms (m ∷ sent) = IsComplete ms m × AllComplete ms sent

abbrev pub Batches : List (String × Bytes) → List Messages → Type 0
Batches ms sent =
    AllComplete ms sent
    × ((rk : String) → count (has_rk rk) sent ≡ (if length (only rk ms) == 0 then 0 else 1))

AllComplete-Perm :
    (ms : List (String × Bytes)) {xs ys : List Messages}
    → Permᴰ xs ys
    → AllComplete ms ys
    → AllComplete ms xs
AllComplete-Perm ms Permᴰ.nil a = a
AllComplete-Perm ms (Permᴰ.cons {a = x} {b = y} e p) a =
    (subst (IsComplete ms) (sym e) a.0, AllComplete-Perm ms p a.1)
AllComplete-Perm ms (Permᴰ.swap {a = x} {b = y} {a' = x'} {b' = y'} e f) a =
    (subst (IsComplete ms) (sym e) a.1.0, (subst (IsComplete ms) (sym f) a.0, a.1.1))
AllComplete-Perm ms (Permᴰ.trans p q) a = AllComplete-Perm ms p (AllComplete-Perm ms q a)

count-Perm : (f : Messages → Bool) {xs ys : List Messages} → Permᴰ xs ys → count f xs ≡ count f ys
unfolding count
count-Perm f Permᴰ.nil = refl
count-Perm f (Permᴰ.cons e p) = ap₂ (λ i j. i + j) (ap (λ z. one_if (f z)) e) (count-Perm f p)
count-Perm f (Permᴰ.swap {a = x} {b = y} {a' = x'} {b' = y'} e g) =
    let first = ap (λ z. one_if (f z)) e in
    let second = ap (λ z. one_if (f z)) g in omega (arith, first, second)
count-Perm f (Permᴰ.trans p q) = count-Perm f p ∙ count-Perm f q

-- What is found behind the first entry is found.
later :
    (routes : Dict Messages) (k j : String) (m x : Messages)
    → Dict.get routes k ≡ none
    → Dict.get routes j ≡ some x
    → Dict.get ((k, m) ∷ routes) j ≡ some x
unfolding Dict.get
later routes k j m x n e = elim (Bool-cases (str_eq k j)) [
  | inl hit ↦
      let gone : Dict.get routes j ≡ none =
        subst (λ i. Dict.get routes i ≡ none) ((eq_iff k j).0 hit) n in
      absurd (cc)
  | inr miss ↦ rw (Dict.get, miss) e
]

-- Each entry of the map is the one that is found under its key.
complete :
    (ms : List (String × Bytes)) (whole routes : Dict Messages)
    → Groups whole ms
    → IsKeyed routes
    → ((k : String) (m : Messages) → Dict.get routes k ≡ some m → Dict.get whole k ≡ some m)
    → AllComplete ms (values routes)
unfolding Dict.get
complete ms whole [] g w found = tt
complete ms whole ((k, m) ∷ routes) g w found =
    let here : Dict.get whole m.rk ≡ some m =
      subst (λ r. Dict.get whole r ≡ some m) (sym w.0)
        (found k m (rw (Dict.get, eq_refl k) refl)) in
    (
      (rw here at (g m.rk).0, rw here at (g m.rk).1 ∙ ap length (sym (rw here at (g m.rk).0))),
      complete ms whole routes g w.3 λ j x e. found j x (later routes k j m x w.2 e),
    )

count-values :
    (routes : Dict Messages) (rk : String)
    → IsKeyed routes
    → count (has_rk rk) (values routes)
      ≡ (if length (contents_of (Dict.get routes rk)) == 0 then 0 else 1)
unfolding count Dict.get
count-values [] rk w = refl
count-values ((k, m) ∷ routes) rk w = elim (Bool-cases (str_eq k rk)) [
  | inl hit ↦
      let gone : Dict.get routes rk ≡ none =
        subst (λ i. Dict.get routes i ≡ none) ((eq_iff k rk).0 hit) w.2 in
      let rest = count-values routes rk w.3 in
      let rest' : count (has_rk rk) (values routes) ≡ 0 = rw gone at rest in
      let filled : (length m.contents == 0) ≡ false = ground arith in
      rw (Dict.get, w.0, hit, rest', filled) refl
  | inr miss ↦ rw (Dict.get, w.0, miss) (omega (arith, count-values routes rk w.3))
]

-- If a command is sent, its payload is such a map, in the order of a visit.
unfoldable pub Grouped : Server → List (String × Bytes) → Handled → Type 0
Grouped s ms (refused e) = Unit
Grouped s ms (send op p user) =
    (routes : Dict Messages) × (p ≡ batch_messages (s.visit (values routes)))
    × Groups routes ms
    × IsKeyed routes

module _ (s : Server) (ctx : Context) (user : String) (all : List (String × Bytes))
    (f : Dict Messages → Handled)
    (g : (routes : Dict Messages)
      → Groups routes all
      → IsKeyed routes
      → Grouped s all (f routes)) where
  valid-Grouped :
      (o : Option HandlerError) (h : Handled) → Grouped s all h → Grouped s all (valid o h)
  unfolding valid Grouped
  valid-Grouped none h k = k
  valid-Grouped (some e) h k = tt

  permitted-Grouped :
      (o : Option Bool) (h : Handled) → Grouped s all h → Grouped s all (permitted o h)
  unfolding permitted Grouped
  permitted-Grouped none h k = tt
  permitted-Grouped (some true) h k = k
  permitted-Grouped (some false) h k = tt

  group-Grouped :
      (n : ℕ) (ms done : List (String × Bytes)) (routes : Dict Messages)
      → Groups routes done
      → IsKeyed routes
      → done ++ ms ≡ all
      → Grouped s all (group s ctx user n ms routes f)
  unfolding group
  group-Grouped n [] done routes held w e =
      g routes (subst (Groups routes) (sym (append-nil done) ∙ e) held) w
  group-Grouped n ((rk, content) ∷ ms) done routes held w e =
      let e' : (done ++ (rk, content) ∷ []) ++ ms ≡ all =
        append_assoc done ((rk, content) ∷ []) ms ∙ e in
      elim (Option-cases (Dict.get routes rk)) [
        | inr (old, there) ↦
            rw (group, there)
              (valid-Grouped _ _ (
                group-Grouped (suc n) ms (done ++ (rk, content) ∷ []) _
                  (Groups-put routes done rk content _ held
                    (ap (λ o. contents_of o ++ content ∷ []) (sym there))
                    (omega (
                      arith,
                      length-append old.ids (s.new_id n ∷ []),
                      ap (λ o. length (ids_of o)) there,
                    )))
                  (put-IsKeyed routes rk _ (get-rk routes rk old w there)
                    (omega (arith, length-append old.contents (content ∷ []))) w)
                  e'))
        | inl missing ↦
            rw (group, missing)
              (valid-Grouped _ _ (
                permitted-Grouped _ _ (
                  group-Grouped (suc n) ms (done ++ (rk, content) ∷ []) _
                    (Groups-put routes done rk content _ held
                      (ap (λ o. contents_of o ++ content ∷ []) (sym missing))
                      (ap (λ o. suc (length (ids_of o))) (sym missing)))
                    (put-IsKeyed routes rk _ refl (omega arith) w) e')))
      ]

context-Grouped :
    {A : Type 0} (s : Server) (ms : List (String × Bytes)) (o : Option A) (f : A → Handled)
    → ((a : A) → Grouped s ms (f a))
    → Grouped s ms (from_context o f)
unfolding from_context Grouped
context-Grouped s ms none f k = tt
context-Grouped s ms (some a) f k = k a

whole :
    (s : Server) (ctx : Context) (ms : List (String × Bytes))
    → Grouped s ms (submit_batched_messages s ctx ms)
unfolding submit_batched_messages Grouped only Dict.get
whole s ctx ms = context-Grouped s ms ctx.username _ λ user.
    group-Grouped s ctx user ms _ (λ routes g w. (routes, refl, g, w)) 0 ms [] []
      (λ rk. (refl, refl)) tt refl

-- If SubmitBatchedMessages sends a command, where `range` visits each entry of the map once, in any
-- order, then the payload has for each routing key of the request exactly one entry with this key, and
-- none for another key. The entry has the contents that the request has under the key, in the order of
-- the request, and as many ids as contents, so that BatchAddMessage finds an id for each message.
pub submit_batched_messages-Batches :
    (s : Server) (ctx : Context) (ms : List (String × Bytes)) (op : Op) (p : Payload)
    (user : String)
    → ((xs : List Messages) → Permᴰ (s.visit xs) xs)
    → submit_batched_messages s ctx ms ≡ send op p user
    → (sent : List Messages) × (p ≡ batch_messages sent) × Batches ms sent
unfolding Grouped
submit_batched_messages-Batches s ctx ms op p user fair sent =
    let (routes, same, g, w) = subst (Grouped s ms) sent (whole s ctx ms) in
    let visited = fair (values routes) in
    (
      s.visit (values routes),
      same,
      (
        AllComplete-Perm ms visited (complete ms routes routes g w (λ k m e. e)),
        λ rk.
            count-Perm (has_rk rk) visited
            ∙ count-values routes rk w
            ∙ ap (λ cs. if length cs == 0 then 0 else 1) (g rk).0,
      ),
    )
