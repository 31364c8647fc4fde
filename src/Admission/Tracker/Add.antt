-- ===== src/Admission/Tracker/Add.antt =====
-- Add appends.
use s5lb.Base.{
  ℕ, ◌≡◌, refl, sym, ◌≢◌, false, List, [], ◌∷◌, ◌++◌, none, some, arith, All, length-append,
}
use s5lb.Admission.Tracker.{Tracker, add}
use s5lb.Admission.Tracker.Chain.{
  NotIn, Distinct, Tracks, is_cell, Relinked, Seg-relink_front, Seg-join, tail_apart,
}

Distinct-append : (xs : List ℕ) (s : ℕ) → Distinct xs → NotIn s xs → Distinct (xs ++ s ∷ [])
Distinct-append [] s d n = (tt, tt)
Distinct-append (x ∷ xs) s d n =
    (NotIn-append xs d.0 (λ e. n.0 (sym e)), Distinct-append xs s d.1 n.1)
  where
    NotIn-append : (ys : List ℕ) → NotIn x ys → s ≢ x → NotIn x (ys ++ s ∷ [])
    NotIn-append [] n ne = (ne, tt)
    NotIn-append (y ∷ ys) n ne = (n.0, NotIn-append ys n.1 ne)

Relinked-add :
    (t : Tracker) (s : ℕ) (xs : List ℕ)
    → NotIn s xs
    → All (Relinked t.store (add t s).store t.tail (some s)) xs
unfolding add
Relinked-add t s [] n = tt
Relinked-add t s (x ∷ xs) n = (ground (arith, n.0), Relinked-add t s xs n.1)

-- Add puts a session that is not tracked behind all others, whatever its old links and flag were;
-- the order of the others stays.
pub add-Tracks :
    (t : Tracker) (s : ℕ) (xs : List ℕ) → Tracks t xs → NotIn s xs → Tracks (add t s) (xs ++ s ∷ [])
unfolding add
add-Tracks t s xs v n = record {
  linked =
      Seg-join (add t s).store none _ xs (s ∷ []) t.tail (some s) (some s) none
        (Seg-relink_front t.store (add t s).store t.head xs t.tail none (some s) v.distinct
          (Relinked-add t s xs n) v.linked)
        (refl, ground (arith, apart), ground (arith, apart), (ground (arith, apart), refl));
  distinct = Distinct-append xs s v.distinct n;
  counted = omega (arith, v.counted, length-append xs (s ∷ []));
}
  where
    apart : is_cell t.tail s ≡ false
    apart = tail_apart t.store none t.head s xs t.tail none n refl v.linked
