-- ===== src/Admission/Tracker/Release.antt =====
-- Release takes one session out, wherever it stands.
use s5lb.Base.{
  ℕ, ◌≡◌, refl, sym, true, false, List, [], ◌∷◌, ◌++◌, Option, none, some, arith, All, All-imp,
  length, length-append, ltb, subst,
}
use s5lb.Admission.Tracker.{Tracker, unlink, release}
use s5lb.Admission.Tracker.Chain.{
  Store, Seg, NotIn, Distinct, Tracks, is_cell, Relinked, Rebacked, Seg-relink_front,
  Seg-relink_back, Seg-join, Seg-split, tail_apart,
}

module _ (s : ℕ) where
  NotIn-split : (front behind : List ℕ) → NotIn s (front ++ behind) → NotIn s front × NotIn s behind
  NotIn-split [] behind n = (tt, n)
  NotIn-split (x ∷ front) behind n = let r = NotIn-split front behind n.1 in ((n.0, r.0), r.1)

-- What distinctness of `front ++ s ∷ behind` says of its parts.
record Apart (front behind : List ℕ) (s : ℕ) : Type 0 where
  front_distinct : Distinct front
  behind_distinct : Distinct behind
  not_front : NotIn s front
  not_behind : NotIn s behind
  disjoint : All (λ x. NotIn x behind) front
  together : Distinct (front ++ behind)

Apart-of_Distinct :
    (front behind : List ℕ) (s : ℕ) → Distinct (front ++ s ∷ behind) → Apart front behind s
Apart-of_Distinct [] behind s d = record {
  front_distinct = tt;
  behind_distinct = d.1;
  not_front = tt;
  not_behind = d.0;
  disjoint = tt;
  together = d.1;
}
Apart-of_Distinct (x ∷ front) behind s d =
    let r = Apart-of_Distinct front behind s d.1 in
    let n = NotIn-split x front (s ∷ behind) d.0 in
    record {
      front_distinct = (n.0, r.front_distinct);
      behind_distinct = r.behind_distinct;
      not_front = ((λ e. n.1.0 (sym e)), r.not_front);
      not_behind = r.not_behind;
      disjoint = (n.1.1, r.disjoint);
      together = (NotIn-join x front behind n.0 n.1.1, r.together);
    }
  where
    NotIn-join : (x : ℕ) (xs ys : List ℕ) → NotIn x xs → NotIn x ys → NotIn x (xs ++ ys)
    NotIn-join x [] ys n m = m
    NotIn-join x (y ∷ xs) ys n m = (n.0, NotIn-join x xs ys n.1 m)

-- A cell of a segment, or where it starts from, is no cell of a disjoint list.
last-NotIn :
    (st : Store) (front : List ℕ) (cur last end : Option ℕ) (y : ℕ)
    → NotIn y front
    → Seg st none cur front last end
    → is_cell last y ≡ false
last-NotIn st front cur last end y n g = tail_apart st none cur y front last end n refl g

first-NotIn :
    (st : Store) (before cur : Option ℕ) (behind : List ℕ) (last : Option ℕ) (x : ℕ)
    → NotIn x behind
    → Seg st before cur behind last none
    → is_cell cur x ≡ false
first-NotIn st before cur [] last x n g = ground (arith, g.0)
first-NotIn st before cur (y ∷ behind) last x n g = ground (arith, g.0, n.0)

module _ (t : Tracker) (s : ℕ) where
  Relinked-unlink :
      (front : List ℕ) (m c : Option ℕ)
      → (t.store s).prev ≡ m
      → (t.store s).next ≡ c
      → is_cell m s ≡ false
      → is_cell c s ≡ false
      → NotIn s front
      → All (λ x. is_cell c x ≡ false) front
      → All (Relinked t.store (unlink t s).store m c) front
  unfolding unlink
  Relinked-unlink [] m c em ec ms cs n a = tt
  Relinked-unlink (x ∷ front) m c em ec ms cs n a =
      (ground (arith, n.0, a.0), Relinked-unlink front m c em ec ms cs n.1 a.1)

  Rebacked-unlink :
      (behind : List ℕ) (m c : Option ℕ)
      → (t.store s).prev ≡ m
      → (t.store s).next ≡ c
      → is_cell m s ≡ false
      → is_cell c s ≡ false
      → NotIn s behind
      → All (λ x. is_cell m x ≡ false) behind
      → All (Rebacked t.store (unlink t s).store c m) behind
  unfolding unlink
  Rebacked-unlink [] m c em ec ms cs n a = tt
  Rebacked-unlink (x ∷ behind) m c em ec ms cs n a =
      (ground (arith, n.0, a.0), Rebacked-unlink behind m c em ec ms cs n.1 a.1)

  head-unlink :
      (m c : Option ℕ)
      → (t.store s).prev ≡ m
      → (t.store s).next ≡ c
      → is_cell m s ≡ false
      → ((unlink t s).head ≡ elim m [ none ↦ c | some p ↦ t.head ])
        × ((unlink t s).tail ≡ elim c [ none ↦ m | some n ↦ t.tail ])
  unfolding unlink
  head-unlink m c em ec ms = (ground arith, ground arith)

  All-not_last :
      (front behind : List ℕ) (m cur end : Option ℕ)
      → All (λ x. NotIn x behind) front
      → NotIn s behind
      → Seg t.store none cur front m end
      → All (λ x. is_cell m x ≡ false) behind
  All-not_last front [] m cur end d n g = tt
  All-not_last front (y ∷ behind) m cur end d n g = (
    last-NotIn t.store front cur m end y (heads front d) g,
    All-not_last front behind m cur end (tails front d) n.1 g,
  )
    where
      heads : (xs : List ℕ) → All (λ x. NotIn x (y ∷ behind)) xs → NotIn y xs
      heads [] a = tt
      heads (x ∷ xs) a = ((λ e. a.0.0 (sym e)), heads xs a.1)

      tails : (xs : List ℕ) → All (λ x. NotIn x (y ∷ behind)) xs → All (λ x. NotIn x behind) xs
      tails [] a = tt
      tails (x ∷ xs) a = (a.0.1, tails xs a.1)

  unlink-Tracks :
      (front behind : List ℕ)
      → Tracks t (front ++ s ∷ behind)
      → Tracks (unlink t s) (front ++ behind) × (((unlink t s).store s).released ≡ true)
  unlink-Tracks front behind v =
      let apart = Apart-of_Distinct front behind s v.distinct in
      let (m, c0, before, here) =
        Seg-split t.store none t.head front (s ∷ behind) t.tail none v.linked in
      let c : Option ℕ = (t.store s).next in
      let ms = last-NotIn t.store front t.head m c0 s apart.not_front before in
      let cs = first-NotIn t.store (some s) c behind t.tail s apart.not_behind here.3 in
      let not_first =
        All-imp front (λ x n. first-NotIn t.store (some s) c behind t.tail x n here.3)
          apart.disjoint in
      let not_last = All-not_last front behind m t.head c0 apart.disjoint apart.not_behind before in
      let ends = head-unlink m c here.1 refl ms in
      let front' =
        Seg-relink_front t.store (unlink t s).store t.head front m c0 c apart.front_distinct
          (Relinked-unlink front m c here.1 refl ms cs apart.not_front not_first) before in
      let behind' =
        Seg-relink_back t.store (unlink t s).store (some s) m c behind t.tail apart.behind_distinct
          (Rebacked-unlink behind m c here.1 refl ms cs apart.not_behind not_last) here.3 in
      (
        record {
          linked =
              rw (ends.0, ends.1)
                (Seg-join (unlink t s).store none _ front behind m c _ none front' behind');
          distinct = apart.together;
          counted =
              unfold unlink in
              omega
                (arith, v.counted, length-append front (s ∷ behind), length-append front behind);
        },
        unlink_released here.1 ms cs,
      )
    where
      unlink_released :
          {m : Option ℕ}
          → (t.store s).prev ≡ m
          → is_cell m s ≡ false
          → is_cell (t.store s).next s ≡ false
          → ((unlink t s).store s).released ≡ true
      unlink_released em ms cs = unfold unlink in ground arith

-- Releasing a tracked session takes it out and keeps the others in their order; the session is marked
-- as released, so a second release changes nothing.
pub release-Tracks :
    (t : Tracker) (s : ℕ) (front behind : List ℕ)
    → Tracks t (front ++ s ∷ behind)
    → Tracks (release t s) (front ++ behind) × (release (release t s) s ≡ release t s)
unfolding release
release-Tracks t s front behind v =
    let (m, c0, before, here) =
      Seg-split t.store none t.head front (s ∷ behind) t.tail none v.linked in
    let done = unlink-Tracks t s front behind v in
    let some_tracked : ltb 0 t.count ≡ true =
      ground (arith, v.counted, length-append front (s ∷ behind)) in
    let once : release t s ≡ unlink t s = unfold release in rw (here.2, some_tracked) refl in
    (
      subst (λ u. Tracks u (front ++ behind)) (sym once) done.0,
      subst (λ u. release u s ≡ u) (sym once) (unfold release in rw done.1 refl),
    )

-- Releasing a session that was never added, whose flag is unset and whose links are nil, while at least
-- one session is tracked: the list becomes empty, and the count goes down by one.
pub release_stray :
    (t : Tracker) (s x : ℕ) (xs : List ℕ)
    → Tracks t (x ∷ xs)
    → (t.store s).released ≡ false
    → (t.store s).prev ≡ none
    → (t.store s).next ≡ none
    → ((release t s).head ≡ none) × ((release t s).tail ≡ none) × ((release t s).count ≡ length xs)
unfolding release
release_stray t s x xs v live no_prev no_next =
    let some_tracked : ltb 0 t.count ≡ true = ground (arith, v.counted) in
    rw (live, some_tracked) (ground arith, ground arith, ground (arith, v.counted))
