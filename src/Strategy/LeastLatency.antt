-- ===== src/Strategy/LeastLatency.antt =====
-- internal/strategy/least_latency.go: the lowest latency, biased by the active sessions, with ties broken
-- by reservoir sampling. What the code does with float64 is `Float`.
pub mod Laws
mod Tests
use s5lb.Base.{
  ℕ, ◌+◌, ◌≡◌, refl, sym, ap, subst, ◌≢◌, ◌⊎◌, inl, inr, Bool, true, false, ◌||◌, ◌==◌,
  if◌then◌else◌, if-elim, Bool-cases, ◌∙◌, String, str_eq, eq_iff, List, [], ◌∷◌, arith, All, Any,
}
use s5lb.Upstream.{Snapshot}
use s5lb.Strategy.{CanTake, NoneTakes, Named, skips}

-- `latency` is the float64 of a bit pattern, `tiny` 1e-9, `times` the product with float64(1+active), and
-- `top` math.MaxFloat64.
pub record Float (W : Type 0) : Type 0 where
  pub latency : ℕ → W
  pub not_positive : W → Bool
  pub tiny : W
  pub times : W → ℕ → W
  pub top : W
  pub less : W → W → Bool
  pub same : W → W → Bool

module _ {W : Type 0} (f : Float W) where
  unfoldable pub score : Snapshot → W
  score u =
      let lat = f.latency u.ewma_latency in
      f.times (if f.not_positive lat then f.tiny else lat) (1 + u.active)

  -- The variables of the loop.
  pub record Best : Type 0 where
    pub best_id : String
    pub best_score : W
    pub tie_count : ℕ

  abbrev start : Best
  start = record { best_id = ""; best_score = f.top; tie_count = 0 }

  -- `draw k n` is the result of rand.IntN(n) in the round `k` of the loop.
  unfoldable pub consider : (ℕ → ℕ → ℕ) → ℕ → ℕ → Snapshot → Best → Best
  unfolding score
  consider draw max_per k u b =
      if skips max_per u
      then b
      else if str_eq b.best_id "" || f.less (score u) b.best_score
      then record { best_id = u.id; best_score = score u; tie_count = 1 }
      else if f.same (score u) b.best_score
      then record {
        best_id = if draw k (b.tie_count + 1) == 0 then u.id else b.best_id;
        best_score = b.best_score;
        tie_count = b.tie_count + 1;
      }
      else b

  unfoldable pub scan : (ℕ → ℕ → ℕ) → ℕ → ℕ → Best → List Snapshot → Best
  unfolding consider
  scan draw max_per k b [] = b
  scan draw max_per k b (u ∷ pool) = scan draw max_per (k + 1) (consider draw max_per k u b) pool

  unfoldable pub pick : (ℕ → ℕ → ℕ) → List Snapshot → ℕ → String
  unfolding scan
  pick draw pool max_per = (scan draw max_per 0 start pool).best_id
