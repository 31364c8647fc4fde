-- ===== src/Strategy/Sampled.antt =====
-- internal/strategy/random.go, p2c.go and weighted_random.go: selectors that draw from the eligible
-- upstreams. `draw k n` is the k-th result that rand.IntN (or Int64N) gives in this call for the
-- bound n; an index out of range, a panic in Go, is `none`.
pub mod Laws
pub mod Duel
pub mod Share
use s5lb.Base.{
  ℕ, zero, suc, ◌+◌, ◌-◌, ◌^◌, ◌≤◌, ◌<◌, ◌≡◌, refl, sym, subst, ap, ◌≢◌, ◌⊎◌, inl, inr, Bool, true,
  false, ◌||◌, ltb, leb, ◌==◌, if◌then◌else◌, String, List, [], ◌∷◌, Option, none, some, arith, All,
  Any, length, get_elem?, Bool-cases, get_elem?_total, All-get_elem?, ℤ, pos, negsuc,
}
use s5lb.Upstream.{Snapshot, u64}
use s5lb.Strategy.{
  CanTake, NoneTakes, Picked, eligible, eligible-CanTake, eligible-Any, eligible-nil,
}

abbrev id_at : List Snapshot → ℕ → Option String
id_at cands i = elim (get_elem? cands i) [ none ↦ none | some u ↦ some u.id ]

random_of : (ℕ → ℕ → ℕ) → List Snapshot → Option String
random_of draw [] = some ""
random_of draw (c ∷ cands) = id_at (c ∷ cands) (draw 0 (length (c ∷ cands)))

-- random.go
unfoldable pub pick_random : (ℕ → ℕ → ℕ) → List Snapshot → ℕ → Option String
unfolding random_of
pick_random draw pool max_per = random_of draw (eligible pool max_per)

less_loaded : Option Snapshot → Option Snapshot → Option String
less_loaded none _ = none
less_loaded (some a) none = none
less_loaded (some a) (some b) = some (if leb a.active b.active then a.id else b.id)

two_of : (ℕ → ℕ → ℕ) → List Snapshot → Option String
unfolding less_loaded
two_of draw [] = some ""
two_of draw (c ∷ []) = some c.id
two_of draw (c ∷ d ∷ cands) =
    let n = length (c ∷ d ∷ cands) in
    let i = draw 0 n in
    let j = draw 1 (n - 1) in
    let j' = if leb i j then j + 1 else j in
    less_loaded (get_elem? (c ∷ d ∷ cands) i) (get_elem? (c ∷ d ∷ cands) j')

-- p2c.go
unfoldable pub pick_p2c : (ℕ → ℕ → ℕ) → List Snapshot → ℕ → Option String
unfolding two_of
pick_p2c draw pool max_per = two_of draw (eligible pool max_per)

-- A weight below 1 counts as 1.
unfoldable pub weight_of : ℤ → ℕ
weight_of (pos zero) = 1
weight_of (pos (suc n)) = suc n
weight_of (negsuc n) = 1

unfoldable pub total_weight : List Snapshot → ℕ
total_weight [] = 0
total_weight (u ∷ cands) = weight_of u.weight + total_weight cands

-- The loop over the candidates: `none` when it falls through.
walk : ℕ → List Snapshot → Option String
walk r [] = none
walk r (u ∷ cands) = let w = weight_of u.weight in if ltb r w then some u.id else walk (r - w) cands

last_id : List Snapshot → Option String
last_id cands = id_at cands (length cands - 1)

abbrev or_else : Option String → Option String → Option String
or_else none d = d
or_else (some id) d = some id

-- The int64 sum wraps; a sum that is not positive makes the draw uniform.
weighted_of : (ℕ → ℕ → ℕ) → List Snapshot → Option String
unfolding walk last_id total_weight
weighted_of draw [] = some ""
weighted_of draw (c ∷ cands) =
    let total = u64 (total_weight (c ∷ cands)) in
    if total == 0 || leb (2 ^ 63) total
    then id_at (c ∷ cands) (draw 0 (length (c ∷ cands)))
    else or_else (walk (draw 0 total) (c ∷ cands)) (last_id (c ∷ cands))

-- weighted_random.go
unfoldable pub pick_weighted : (ℕ → ℕ → ℕ) → List Snapshot → ℕ → Option String
unfolding weighted_of
pick_weighted draw pool max_per = weighted_of draw (eligible pool max_per)
