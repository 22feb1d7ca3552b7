-- ===== src/Core/Chain/Middle.antt =====
-- A node in the middle of a list of nodes, `us ++ p ∷ vs`, and the list without it.
use sybline.Base.{
  ℕ, suc, ◌<◌, ◌≡◌, refl, false, ◌||◌, List, [], ◌∷◌, ◌++◌, length, ◌==◌, arith, length-append,
  ==→eq,
}
use sybline.Core.Node.{Ptr, Node, blank}
use sybline.Core.Chain.{has, Distinct, Disjoint, Below, Blank, IsStore}
use sybline.Core.Chain.Frame.{Distinct-snoc, Disjoint-pool, Below-append}

pub has-middle :
    (a p : Ptr) (us vs : List Ptr) → has a (us ++ p ∷ vs) ≡ ((a == p) || has a (us ++ vs))
has-middle a p [] vs = refl
has-middle a p (c ∷ us) vs = ground (arith, has-middle a p us vs)

pub Distinct-middle :
    (p : Ptr) (us vs : List Ptr)
    → Distinct (us ++ p ∷ vs)
    → (has p (us ++ vs) ≡ false) × Distinct (us ++ vs)
Distinct-middle p [] vs d = d
Distinct-middle p (c ∷ us) vs d =
    let ih = Distinct-middle p us vs d.1 in
    let out = has-middle c p us vs in (ground (arith, ==→eq c p, ==→eq p c), (ground arith, ih.1))

pub Disjoint-middle :
    (p : Ptr) (us vs qs : List Ptr)
    → Disjoint (us ++ p ∷ vs) qs
    → (has p qs ≡ false) × Disjoint (us ++ vs) qs
Disjoint-middle p [] vs qs d = d
Disjoint-middle p (c ∷ us) vs qs d = let ih = Disjoint-middle p us vs qs d.1 in (ih.0, (d.0, ih.1))

pub Below-middle :
    (n : ℕ) (p : Ptr) (us vs : List Ptr)
    → Below n (us ++ p ∷ vs)
    → (0 < p) × (p < n) × Below n (us ++ vs)
Below-middle n p [] vs b = b
Below-middle n p (c ∷ us) vs b =
    let ih = Below-middle n p us vs b.2 in (ih.0, ih.1, (b.0, b.1, ih.2))

pub Blank-snoc :
    (cells : Ptr → Node) (ps : List Ptr) (p : Ptr)
    → Blank cells ps
    → cells p ≡ blank
    → Blank cells (ps ++ p ∷ [])
Blank-snoc cells [] p b e = (e, tt)
Blank-snoc cells (q ∷ ps) p b e = (b.0, Blank-snoc cells ps p b.1 e)

pub length-middle : (p : Ptr) (us vs : List Ptr) → length (us ++ p ∷ vs) ≡ suc (length (us ++ vs))
length-middle p us vs = omega (arith, length-append us (p ∷ vs), length-append us vs)

module _ (cells new : Ptr → Node) (pool : List Ptr) (fresh : ℕ) (p : Ptr) (us vs : List Ptr)
    (s : IsStore cells pool fresh (us ++ p ∷ vs)) (blanks : Blank new pool) where
  -- The node goes, and the pool has no room for it.
  pub IsStore-drop : IsStore new pool fresh (us ++ vs)
  IsStore-drop = record {
    distinct = (Distinct-middle p us vs s.distinct).1;
    pooled = s.pooled;
    apart = (Disjoint-middle p us vs pool s.apart).1;
    below = (Below-middle fresh p us vs s.below).2;
    pool_below = s.pool_below;
    blanks = blanks;
    room = omega (arith, s.room, length-middle p us vs);
  }

  -- The node goes to the pool.
  pub IsStore-release : new p ≡ blank → IsStore new (pool ++ p ∷ []) fresh (us ++ vs)
  IsStore-release clean =
      let d = Distinct-middle p us vs s.distinct in
      let apart = Disjoint-middle p us vs pool s.apart in
      let below = Below-middle fresh p us vs s.below in
      record {
        distinct = d.1;
        pooled = Distinct-snoc pool p s.pooled apart.0;
        apart = Disjoint-pool (us ++ vs) pool p apart.1 d.0;
        below = below.2;
        pool_below = Below-append fresh pool (p ∷ []) s.pool_below (below.0, below.1, tt);
        blanks = Blank-snoc new pool p blanks clean;
        room = omega (arith, s.room, length-middle p us vs, length-append pool (p ∷ []));
      }
