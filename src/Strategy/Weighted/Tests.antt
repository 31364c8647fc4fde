-- ===== src/Strategy/Weighted/Tests.antt =====
-- Three picks of the weighted round robin over two upstreams, of weights 2 and 1.
use s5lb.Base.{
  ◌^◌, ℕ, ◌+◌, ◌*◌, ◌<◌, ◌≡◌, refl, String, eq_iff, List, [], ◌∷◌, length, lookup, put, ◌+ℤ◌, ◌-ℤ◌,
  All, arith, pos, true, false,
}
use s5lb.Config.Names.{one_of}
use s5lb.Upstream.{Snapshot}
use s5lb.Strategy.Weighted.{credit}
use s5lb.Strategy.Weighted.Int64.{int64, pick}
use s5lb.Strategy.Weighted.Int64.Shares.{picks, picks_ahead, picks_cycle}
use s5lb.Strategy.Weighted.Counts.{weights, times}
use s5lb.Strategy.Weighted.Fair.{Offers}

abbrev member : String → ℕ → ℕ → Snapshot
member id weight active = record {
  id = id;
  addr = id;
  weight = pos weight;
  priority = pos 0;
  active = active;
  healthy = true;
  draining = false;
  consecutive_failures = 0;
  ewma_latency = 0;
  total_sessions = 0;
  total_failures = 0;
}

abbrev two : ℕ → List Snapshot
two active = member "a" 2 active ∷ member "b" 1 0 ∷ []

abbrev two_weights : List (String × ℕ)
two_weights = ("a", 2) ∷ ("b", 1) ∷ []

abbrev pools : List (List Snapshot)
pools = two 0 ∷ two 1 ∷ two 2 ∷ []

two-Offers : (n : ℕ) → n < 9 → Offers 9 two_weights (two n)
two-Offers n h = (
  refl,
  ((λ e. ground (arith, eq_iff "a" "", e)), ((λ e. ground (arith, eq_iff "b" "", e)), tt)),
  (((λ e. ground (arith, eq_iff "b" "a", e)), tt), (tt, tt)),
  ((refl, h), ((refl, omega arith), tt)),
)

pools-Offers : All (Offers 9 two_weights) pools
pools-Offers =
    (two-Offers 0 (omega arith), (two-Offers 1 (omega arith), (two-Offers 2 (omega arith), tt)))

smooth : (picks 9 pools [] []).1 ≡ "a" ∷ "b" ∷ "a" ∷ []
unfolding picks pick int64 ◌+ℤ◌ ◌-ℤ◌ lookup put one_of
smooth = refl

-- Two weights of 2 ^ 62: the credit of "b" wraps around, and "a" is picked again.
abbrev huge : List Snapshot
huge = member "a" (2 ^ 62) 0 ∷ member "b" (2 ^ 62) 0 ∷ []

starved : (picks 9 (huge ∷ huge ∷ []) [] []).1 ≡ "a" ∷ "a" ∷ []
unfolding picks pick int64 ◌+ℤ◌ ◌-ℤ◌ lookup put one_of
starved = refl

picks_cycle_example :
    All
      (λ (p : String × ℕ).
        (times p.0 (picks 9 pools [] []).1 ≡ p.1) × (credit p.0 (picks 9 pools [] []).0 ≡ pos 0))
      two_weights
picks_cycle_example = picks_cycle 9 two_weights pools pools-Offers (omega arith) (omega arith) refl

picks_ahead_example :
    All
      (λ (p : String × ℕ).
        weights two_weights * times p.0 (picks 9 pools [] []).1
        < length pools * p.1 + weights two_weights)
      two_weights
picks_ahead_example = picks_ahead 9 two_weights pools pools-Offers (omega arith) (omega arith)
