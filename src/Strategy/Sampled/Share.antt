-- ===== src/Strategy/Sampled/Share.antt =====
-- weighted_random: the upstream into whose share of the weights the draw falls.
use s5lb.Base.{
  ℕ, suc, ◌+◌, ◌-◌, ◌^◌, ◌≤◌, ◌<◌, ◌≡◌, refl, sym, subst, ap, ◌∙◌, inl, inr, ltb, List, [], ◌∷◌,
  ◌++◌, some, arith, length, get_elem?, Bool-cases, length-append, ℤ,
}
use s5lb.Upstream.{Snapshot, u64}
use s5lb.Strategy.{eligible, eligible-nil}
use s5lb.Strategy.Sampled.{
  weight_of, total_weight, walk, last_id, or_else, weighted_of, pick_weighted,
}
use s5lb.Strategy.Sampled.Laws.{InRange, Sound, Picked-at, List-cases}

-- `u` stands at some place of `xs`, and `r` falls into its share of the weights.
walk_share :
    (before : List Snapshot) (u : Snapshot) (behind : List Snapshot) (r : ℕ)
    → total_weight before ≤ r
    → r < total_weight before + weight_of u.weight
    → walk r (before ++ u ∷ behind) ≡ some u.id
unfolding walk total_weight
walk_share [] u behind r lo hi = ground arith
walk_share (v ∷ before) u behind r lo hi =
    ground (arith, walk_share before u behind (r - weight_of v.weight))

walk_total :
    (xs : List Snapshot) (r : ℕ)
    → r < total_weight xs
    → (i : ℕ) × (u : Snapshot) × (get_elem? xs i ≡ some u) × (walk r xs ≡ some u.id)
unfolding walk total_weight
walk_total [] r h = elim h [ ]
walk_total (u ∷ xs) r h = elim (Bool-cases (ltb r (weight_of u.weight))) [
  | inl lt ↦ (0, u, refl, rw lt)
  | inr ge ↦
      let (i, v, at, e) = walk_total xs (r - weight_of u.weight) (ground arith) in
      (suc i, v, at, rw ge e)
]

weight_of_pos : (w : ℤ) → 0 < weight_of w
unfolding weight_of
weight_of_pos w = ground arith

total_weight_pos : (xs : List Snapshot) → 0 < length xs → 0 < total_weight xs
unfolding total_weight
total_weight_pos [] h = elim h [ ]
total_weight_pos (u ∷ xs) h = omega (arith, weight_of_pos u.weight)

weighted_of_lem :
    (draw : ℕ → ℕ → ℕ) (xs : List Snapshot)
    → 0 < length xs
    → total_weight xs < 2 ^ 63
    → weighted_of draw xs ≡ or_else (walk (draw 0 (total_weight xs)) xs) (last_id xs)
unfolding weighted_of
weighted_of_lem draw [] h bound = elim h [ ]
weighted_of_lem draw (c ∷ xs) h bound =
    let same : u64 (total_weight (c ∷ xs)) ≡ total_weight (c ∷ xs) = omega arith in
    let some_weight = total_weight_pos (c ∷ xs) h in rw same (ground (arith, some_weight))

weighted_of-Sound :
    (draw : ℕ → ℕ → ℕ) (pool : List Snapshot) (max_per : ℕ)
    → InRange draw
    → total_weight (eligible pool max_per) < 2 ^ 63
    → Sound max_per pool (weighted_of draw (eligible pool max_per))
unfolding weighted_of
weighted_of-Sound draw pool max_per ok bound = elim (List-cases (eligible pool max_per)) [
  | inl e ↦ inl (rw (e, weighted_of), eligible-nil pool max_per e)
  | inr h ↦
      let xs = eligible pool max_per in
      let (i, u, at, e) =
        walk_total xs (draw 0 (total_weight xs)) (ok 0 _ (total_weight_pos xs h.0)) in
      inr (
        u.id,
        weighted_of_lem draw xs h.0 bound ∙ ap (λ o. or_else o (last_id xs)) e,
        Picked-at pool max_per i u at,
      )
]

-- weighted-random, where the weights sum below 2^63: an eligible upstream, with no index out of
-- range; and the one at each place of the eligible list is returned for the draws that fall into
-- its share, as many values as its weight (1 if the weight is not positive).
pub pick_weighted_lem :
    (draw : ℕ → ℕ → ℕ) (pool : List Snapshot) (max_per : ℕ)
    → InRange draw
    → total_weight (eligible pool max_per) < 2 ^ 63
    → let xs = eligible pool max_per in
      Sound max_per pool (pick_weighted draw pool max_per)
      × ((before : List Snapshot) (u : Snapshot) (behind : List Snapshot)
          → xs ≡ before ++ u ∷ behind
          → total_weight before ≤ draw 0 (total_weight xs)
          → draw 0 (total_weight xs) < total_weight before + weight_of u.weight
          → pick_weighted draw pool max_per ≡ some u.id)
unfolding pick_weighted
pick_weighted_lem draw pool max_per ok bound = (
  weighted_of-Sound draw pool max_per ok bound,
  λ before u behind s lo hi.
      let nonempty =
        subst (λ l. 0 < length l) (sym s) (omega (arith, length-append before (u ∷ behind))) in
      weighted_of_lem draw (eligible pool max_per) nonempty bound
      ∙ ap (λ o. or_else o (last_id (eligible pool max_per)))
          (ap (walk (draw 0 (total_weight (eligible pool max_per)))) s
            ∙ walk_share before u behind _ lo hi),
)
