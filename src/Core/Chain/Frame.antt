-- ===== src/Core/Chain/Frame.antt =====
-- What writes to nodes and cuts of lists do to a chain.
use sybline.Base.{
  ℕ, suc, ◌<◌, ◌≡◌, refl, true, false, ◌||◌, List, [], ◌∷◌, ◌++◌, length, ◌==◌, arith, ap, ==→eq,
  length-append,
}
use sybline.Core.Node.{Ptr, Node, put_cell}
use sybline.Core.Chain.{
  item, items, Seg, has, Distinct, Disjoint, Below, Blank, last_or, IsLast, IsStore,
}

pub has-append : (a : Ptr) (ps qs : List Ptr) → has a (ps ++ qs) ≡ (has a ps || has a qs)
has-append a [] qs = refl
has-append a (p ∷ ps) qs = ground (arith, has-append a ps qs)

module _ (cells : Ptr → Node) (a : Ptr) (n : Node) where
  -- A write outside a chain.
  pub Seg-put :
      (stop p : Ptr) (ps : List Ptr)
      → has a ps ≡ false
      → Seg cells stop p ps
      → Seg (put_cell cells a n) stop p ps
  Seg-put stop p [] out s = s
  Seg-put stop p (q ∷ qs) out s = ground (arith, Seg-put stop (cells q).next qs)

  pub items-put :
      (ps : List Ptr) → has a ps ≡ false → items (put_cell cells a n) ps ≡ items cells ps
  items-put [] out = refl
  items-put (q ∷ qs) out = ground (arith, items-put qs)

  pub Blank-put :
      (ps : List Ptr) → has a ps ≡ false → Blank cells ps → Blank (put_cell cells a n) ps
  Blank-put [] out b = tt
  Blank-put (q ∷ qs) out b = ground (arith, Blank-put qs)

  -- A write that keeps `Next`.
  pub Seg-put_same :
      (stop p : Ptr) (ps : List Ptr)
      → n.next ≡ (cells a).next
      → Seg cells stop p ps
      → Seg (put_cell cells a n) stop p ps
  Seg-put_same stop p [] same s = s
  Seg-put_same stop p (q ∷ qs) same s =
      ground (arith, Seg-put_same stop (cells q).next qs, ==→eq q a)

module _ (cells : Ptr → Node) where
  pub Seg-split :
      (stop p q : Ptr) (ps qs : List Ptr)
      → Seg cells stop p (ps ++ q ∷ qs)
      → Seg cells q p ps × Seg cells stop q (q ∷ qs)
  Seg-split stop p q [] qs s = (s.0, ground arith)
  Seg-split stop p q (r ∷ ps) qs s =
      let ih = Seg-split stop (cells r).next q ps qs s.2 in ((s.0, s.1, ih.0), ih.1)

  pub Seg-join :
      (stop p q : Ptr) (ps qs : List Ptr)
      → Seg cells q p ps
      → Seg cells stop q qs
      → Seg cells stop p (ps ++ qs)
  Seg-join stop p q [] qs s t = ground arith
  Seg-join stop p q (r ∷ ps) qs s t = (s.0, s.1, Seg-join stop (cells r).next q ps qs s.2 t)

  pub items-append : (ps qs : List Ptr) → items cells (ps ++ qs) ≡ items cells ps ++ items cells qs
  items-append [] qs = refl
  items-append (p ∷ ps) qs = ap (λ xs. item (cells p) ∷ xs) (items-append ps qs)

pub Below-append : (n : ℕ) (ps qs : List Ptr) → Below n ps → Below n qs → Below n (ps ++ qs)
Below-append n [] qs b c = c
Below-append n (p ∷ ps) qs b c = (b.0, b.1, Below-append n ps qs b.2 c)

pub Below-suc : (n : ℕ) (ps : List Ptr) → Below n ps → Below (suc n) ps
Below-suc n [] b = tt
Below-suc n (p ∷ ps) b = (b.0, omega arith, Below-suc n ps b.2)

pub has-Below : (n : ℕ) (ps : List Ptr) → Below n ps → has n ps ≡ false
has-Below n [] b = refl
has-Below n (p ∷ ps) b = ground (arith, has-Below n ps)

pub Distinct-snoc :
    (ps : List Ptr) (q : Ptr) → Distinct ps → has q ps ≡ false → Distinct (ps ++ q ∷ [])
Distinct-snoc [] q d out = (refl, tt)
Distinct-snoc (p ∷ ps) q d out =
    (ground (arith, has-append p ps (q ∷ [])), Distinct-snoc ps q d.1 (ground arith))

pub Disjoint-snoc :
    (ps qs : List Ptr) (q : Ptr) → Disjoint ps qs → has q qs ≡ false → Disjoint (ps ++ q ∷ []) qs
Disjoint-snoc [] qs q d out = (out, tt)
Disjoint-snoc (p ∷ ps) qs q d out = (d.0, Disjoint-snoc ps qs q d.1 out)

pub Disjoint-tail :
    (ps qs : List Ptr) (q : Ptr) → Disjoint ps (q ∷ qs) → (has q ps ≡ false) × Disjoint ps qs
Disjoint-tail [] qs q d = (refl, tt)
Disjoint-tail (p ∷ ps) qs q d =
    let ih = Disjoint-tail ps qs q d.1 in (ground arith, (ground arith, ih.1))

-- The pool grows at its end.
pub Disjoint-pool :
    (ps qs : List Ptr) (q : Ptr) → Disjoint ps qs → has q ps ≡ false → Disjoint ps (qs ++ q ∷ [])
Disjoint-pool [] qs q d out = tt
Disjoint-pool (p ∷ ps) qs q d out =
    (ground (arith, has-append p qs (q ∷ [])), Disjoint-pool ps qs q d.1 (ground arith))

pub last_or-snoc : (d : Ptr) (ps : List Ptr) (q : Ptr) → last_or d (ps ++ q ∷ []) ≡ q
last_or-snoc d [] q = refl
last_or-snoc d (p ∷ ps) q = last_or-snoc p ps q

pub IsLast-snoc : (ps : List Ptr) (q : Ptr) → IsLast q (ps ++ q ∷ [])
IsLast-snoc [] q = refl
IsLast-snoc (p ∷ ps) q = rw last_or-snoc

pub last_or-append :
    (d : Ptr) (ps qs : List Ptr) (q : Ptr) → last_or d (ps ++ q ∷ qs) ≡ last_or q qs
last_or-append d [] qs q = refl
last_or-append d (p ∷ ps) qs q = last_or-append p ps qs q

module _ (cells new : Ptr → Node) where
  -- A chain depends on its own nodes alone.
  pub Seg-frame :
      (stop p : Ptr) (ps : List Ptr)
      → ((a : Ptr) → has a ps ≡ true → new a ≡ cells a)
      → Seg cells stop p ps
      → Seg new stop p ps
  Seg-frame stop p [] same s = s
  Seg-frame stop p (q ∷ qs) same s =
      let e : new q ≡ cells q = same q (ground arith) in
      (s.0, s.1, rw e (Seg-frame stop (cells q).next qs (λ a h. same a (ground arith)) s.2))

  pub items-frame :
      (ps : List Ptr)
      → ((a : Ptr) → has a ps ≡ true → new a ≡ cells a)
      → items new ps ≡ items cells ps
  items-frame [] same = refl
  items-frame (q ∷ qs) same =
      let e : new q ≡ cells q = same q (ground arith) in
      rw (e, items-frame qs (λ a h. same a (ground arith)))

module _ (cells : Ptr → Node) (a : Ptr) (n : Node) where
  pub items-put_same :
      (ps : List Ptr) → item n ≡ item (cells a) → items (put_cell cells a n) ps ≡ items cells ps
  items-put_same [] same = refl
  items-put_same (q ∷ qs) same = ground (arith, items-put_same qs same, ==→eq q a)

pub has-last_or : (q : Ptr) (ps : List Ptr) → has (last_or q ps) (q ∷ ps) ≡ true
has-last_or q [] = ground arith
has-last_or q (p ∷ ps) = ground (arith, has-last_or p ps)

pub not_last : (a q : Ptr) (ps : List Ptr) → has a (q ∷ ps) ≡ false → (a == last_or q ps) ≡ false
not_last a q ps out = ground (arith, has-last_or q ps, ==→eq a (last_or q ps))

-- The last node of a chain is led on to `new`.
pub Seg-relink :
    (cells : Ptr → Node) (new stop p q : Ptr) (ps : List Ptr)
    → Distinct (q ∷ ps)
    → Seg cells stop p (q ∷ ps)
    → Seg
        (put_cell cells (last_or q ps) (record (cells (last_or q ps)) { next = new }))
        new
        p
        (q ∷ ps)
Seg-relink cells new stop p q [] d s = (s.0, s.1, ground arith)
Seg-relink cells new stop p q (r ∷ ps) d s =
    let ih = Seg-relink cells new stop (cells q).next r ps d.1 s.2 in
    let ne : (q == last_or r ps) ≡ false = not_last q r ps d.0 in (s.0, s.1, rw ne ih)

pub not-has_of_Disjoint :
    (a : Ptr) (ps qs : List Ptr) → Disjoint ps qs → has a ps ≡ true → has a qs ≡ false
not-has_of_Disjoint a [] qs d h = cc
not-has_of_Disjoint a (p ∷ ps) qs d h = ground (arith, not-has_of_Disjoint a ps qs, ==→eq a p)

-- The two halves of a list of distinct pointers.
pub Distinct-split :
    (ps qs : List Ptr) → Distinct (ps ++ qs) → Distinct ps × Distinct qs × Disjoint ps qs
Distinct-split [] qs d = (tt, d, tt)
Distinct-split (p ∷ ps) qs d =
    let ih = Distinct-split ps qs d.1 in
    let out = has-append p ps qs in ((ground arith, ih.0), ih.1, (ground arith, ih.2))

pub IsStore-put :
    (cells : Ptr → Node) (pool : List Ptr) (fresh : ℕ) (os : List Ptr) (a : Ptr) (n : Node)
    → IsStore cells pool fresh os
    → has a os ≡ true
    → IsStore (put_cell cells a n) pool fresh os
IsStore-put cells pool fresh os a n s h = record {
  distinct = s.distinct;
  pooled = s.pooled;
  apart = s.apart;
  below = s.below;
  pool_below = s.pool_below;
  blanks = Blank-put cells a n pool (not-has_of_Disjoint a os pool s.apart h) s.blanks;
  room = s.room;
}

pub last_or-pos :
    (cells : Ptr → Node) (stop p q : Ptr) (ps : List Ptr)
    → Seg cells stop p (q ∷ ps)
    → 0 < last_or q ps
last_or-pos cells stop p q [] s = s.1
last_or-pos cells stop p q (r ∷ ps) s = last_or-pos cells stop (cells q).next r ps s.2

pub last_or-pos_ne :
    (cells : Ptr → Node) (stop p q : Ptr) (ps : List Ptr)
    → Seg cells stop p (q ∷ ps)
    → (last_or q ps == 0) ≡ false
last_or-pos_ne cells stop p q ps s = ground (arith, last_or-pos cells stop p q ps s)

pub Below-init : (n : ℕ) (ps qs : List Ptr) → Below n (ps ++ qs) → Below n ps
Below-init n [] qs b = tt
Below-init n (p ∷ ps) qs b = (b.0, b.1, Below-init n ps qs b.2)

pub Disjoint-init : (ps qs rs : List Ptr) → Disjoint (ps ++ qs) rs → Disjoint ps rs
Disjoint-init [] qs rs d = tt
Disjoint-init (p ∷ ps) qs rs d = (d.0, Disjoint-init ps qs rs d.1)

-- Fewer nodes in use.
pub IsStore-init :
    (cells : Ptr → Node) (pool : List Ptr) (fresh : ℕ) (ps qs : List Ptr)
    → IsStore cells pool fresh (ps ++ qs)
    → IsStore cells pool fresh ps
IsStore-init cells pool fresh ps qs s = record {
  distinct = (Distinct-split ps qs s.distinct).0;
  pooled = s.pooled;
  apart = Disjoint-init ps qs pool s.apart;
  below = Below-init fresh ps qs s.below;
  pool_below = s.pool_below;
  blanks = s.blanks;
  room = omega (arith, s.room, length-append ps qs);
}

pub length-items : (cells : Ptr → Node) (ps : List Ptr) → length (items cells ps) ≡ length ps
length-items cells [] = refl
length-items cells (p ∷ ps) = ap suc (length-items cells ps)
