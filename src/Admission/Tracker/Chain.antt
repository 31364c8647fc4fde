-- ===== src/Admission/Tracker/Chain.antt =====
-- The doubly linked list as a segment of the store: what it means that the cells `xs` are linked.
use s5lb.Base.{
  ℕ, ◌≡◌, refl, subst, ◌∙◌, ◌≢◌, Bool, false, ◌==◌, List, [], ◌∷◌, ◌++◌, Option, none, some, arith,
  All, length, if◌then◌else◌,
}
use s5lb.Admission.Tracker.{Session, Tracker}

abbrev pub Store : Type 0
Store = ℕ → Session

-- From `cur` the next pointers run through `xs` to `end`; the prev pointers run back to `before`;
-- `last` is the last cell, or `before` if there is none. Every cell is live.
abbrev pub Seg : Store → Option ℕ → Option ℕ → List ℕ → Option ℕ → Option ℕ → Type 0
Seg st before cur [] last end = (cur ≡ end) × (last ≡ before)
Seg st before cur (x ∷ xs) last end =
    (cur ≡ some x)
    × ((st x).prev ≡ before)
    × ((st x).released ≡ false)
    × Seg st (some x) (st x).next xs last end

abbrev pub NotIn : ℕ → List ℕ → Type 0
NotIn s xs = All (λ x. x ≢ s) xs

abbrev pub Distinct : List ℕ → Type 0
Distinct [] = Unit {0}
Distinct (x ∷ xs) = NotIn x xs × Distinct xs

-- The tracker holds exactly the sessions `xs`, oldest first.
pub record Tracks (t : Tracker) (xs : List ℕ) : Type 0 where
  pub linked : Seg t.store none t.head xs t.tail none
  pub distinct : Distinct xs
  pub counted : t.count ≡ length xs

abbrev pub is_cell : Option ℕ → ℕ → Bool
is_cell none x = false
is_cell (some p) x = x == p

-- A segment that is not empty has a last cell.
Seg-last :
    (st : Store) (before cur : Option ℕ) (x : ℕ) (xs : List ℕ) (last end : Option ℕ)
    → Seg st before cur (x ∷ xs) last end
    → (l : ℕ) × (last ≡ some l)
Seg-last st before cur x [] last end s = (x, s.3.1)
Seg-last st before cur x (y ∷ xs) last end s = Seg-last st (some x) (st x).next y xs last end s.3

module _ (st st' : Store) where
  -- Outside of `last`, whose next pointer becomes `end'`, the links are as they were.
  abbrev pub Relinked : Option ℕ → Option ℕ → ℕ → Type 0
  Relinked last end' x =
      ((st' x).prev ≡ (st x).prev)
      × ((st' x).released ≡ (st x).released)
      × ((st' x).next ≡ (if is_cell last x then end' else (st x).next))

  last_elsewhere :
      (x : ℕ) (before cur : Option ℕ) (y : ℕ) (ys : List ℕ) (last end : Option ℕ)
      → NotIn x (y ∷ ys)
      → Seg st before cur (y ∷ ys) last end
      → is_cell last x ≡ false
  last_elsewhere x before cur y [] last end n s = ground arith
  last_elsewhere x before cur y (z ∷ ys) last end n s =
      last_elsewhere x (some y) (st y).next z ys last end n.1 s.3

  -- A segment whose last next pointer is set to `end'` runs to `end'`.
  Seg-relink :
      (before cur : Option ℕ) (x : ℕ) (xs : List ℕ) (last end end' : Option ℕ)
      → Distinct (x ∷ xs)
      → All (Relinked last end') (x ∷ xs)
      → Seg st before cur (x ∷ xs) last end
      → Seg st' before cur (x ∷ xs) last end'
  Seg-relink before cur x [] last end end' d r s =
      (s.0, r.0.0 ∙ s.1, r.0.1 ∙ s.2, (ground (arith, r.0.2, s.3), s.3.1))
  Seg-relink before cur x (y ∷ xs) last end end' d r s =
      let apart = last_elsewhere x (some x) (st x).next y xs last end d.0 s.3 in
      let same : (st' x).next ≡ (st x).next = rw apart at r.0.2 in
      let rest = Seg-relink (some x) (st x).next y xs last end end' d.1 r.1 s.3 in
      (s.0, r.0.0 ∙ s.1, r.0.1 ∙ s.2, (same ∙ rest.0, rest.1, rest.2, rest.3))

  -- The same for a segment from nil that may be empty: then `end'` is where it starts.
  pub Seg-relink_front :
      (cur : Option ℕ) (xs : List ℕ) (last end end' : Option ℕ)
      → Distinct xs
      → All (Relinked last end') xs
      → Seg st none cur xs last end
      → Seg st' none (elim last [ none ↦ end' | some p ↦ cur ]) xs last end'
  Seg-relink_front cur [] last end end' d r s = ground arith
  Seg-relink_front cur (x ∷ xs) last end end' d r s =
      let rest = Seg-relink none cur x xs last end end' d r s in
      let (l, e) = Seg-last st none cur x xs last end s in
      (ground (arith, e, s.0), rest.1, rest.2, rest.3)

  abbrev pub Same : ℕ → Type 0
  Same x =
      ((st' x).prev ≡ (st x).prev)
      × ((st' x).released ≡ (st x).released)
      × ((st' x).next ≡ (st x).next)

  pub Seg-Same :
      (before cur : Option ℕ) (xs : List ℕ) (last end : Option ℕ)
      → All Same xs
      → Seg st before cur xs last end
      → Seg st' before cur xs last end
  Seg-Same before cur [] last end a s = s
  Seg-Same before cur (x ∷ xs) last end a s =
      (s.0, a.0.0 ∙ s.1, a.0.1 ∙ s.2, rw a.0.2 (Seg-Same (some x) (st x).next xs last end a.1 s.3))

  -- Outside of `cur`, whose prev pointer becomes `before'`, the links are as they were.
  abbrev pub Rebacked : Option ℕ → Option ℕ → ℕ → Type 0
  Rebacked cur before' x =
      ((st' x).prev ≡ (if is_cell cur x then before' else (st x).prev))
      × ((st' x).released ≡ (st x).released)
      × ((st' x).next ≡ (st x).next)

  Rebacked-Same :
      (x : ℕ) (before' : Option ℕ) (xs : List ℕ)
      → NotIn x xs
      → All (Rebacked (some x) before') xs
      → All Same xs
  Rebacked-Same x before' [] n a = tt
  Rebacked-Same x before' (y ∷ xs) n a =
      ((ground (arith, n.0), a.0.1, a.0.2), Rebacked-Same x before' xs n.1 a.1)

  -- A segment to nil whose first prev pointer is set to `before'`; if it is empty, it ends there.
  pub Seg-relink_back :
      (before before' cur : Option ℕ) (xs : List ℕ) (last : Option ℕ)
      → Distinct xs
      → All (Rebacked cur before') xs
      → Seg st before cur xs last none
      → Seg st' before' cur xs (elim cur [ none ↦ before' | some n ↦ last ]) none
  Seg-relink_back before before' cur [] last d a s = ground arith
  Seg-relink_back before before' cur (x ∷ xs) last d a s =
      let a' = subst (λ c. All (Rebacked c before') (x ∷ xs)) s.0 a in
      let same = Rebacked-Same x before' xs d.0 a'.1 in
      (
        s.0,
        ground (arith, a'.0.0),
        a'.0.1 ∙ s.2,
        rw (s.0, a'.0.2) (Seg-Same (some x) (st x).next xs last none same s.3),
      )

-- A segment through two lists is two segments.
pub Seg-split :
    (st : Store) (before cur : Option ℕ) (xs ys : List ℕ) (last end : Option ℕ)
    → Seg st before cur (xs ++ ys) last end
    → (m c : Option ℕ) × Seg st before cur xs m c × Seg st m c ys last end
Seg-split st before cur [] ys last end s = (before, cur, (refl, refl), s)
Seg-split st before cur (x ∷ xs) ys last end s =
    let (m, c, front, back) = Seg-split st (some x) (st x).next xs ys last end s.3 in
    (m, c, (s.0, s.1, s.2, front), back)

pub Seg-join :
    (st : Store) (before cur : Option ℕ) (xs ys : List ℕ) (m c last end : Option ℕ)
    → Seg st before cur xs m c
    → Seg st m c ys last end
    → Seg st before cur (xs ++ ys) last end
Seg-join st before cur [] ys m c last end f b = ground (arith)
Seg-join st before cur (x ∷ xs) ys m c last end f b =
    (f.0, f.1, f.2, Seg-join st (some x) (st x).next xs ys m c last end f.3 b)

-- The last cell of a segment is no cell outside it.
pub tail_apart :
    (st : Store) (before cur : Option ℕ) (s : ℕ) (xs : List ℕ) (last end : Option ℕ)
    → NotIn s xs
    → is_cell before s ≡ false
    → Seg st before cur xs last end
    → is_cell last s ≡ false
tail_apart st before cur s [] last end n b g = ground (arith, g.1)
tail_apart st before cur s (x ∷ xs) last end n b g =
    tail_apart st (some x) (st x).next s xs last end n.1 (ground (arith, n.0)) g.3
