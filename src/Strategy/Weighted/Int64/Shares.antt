-- ===== src/Strategy/Weighted/Int64/Shares.antt =====
-- The share of each upstream under the weighted round robin (wrr.go) with its int64 credits, while all can
-- take sessions.
use s5lb.Base.{
  ℕ, ◌+◌, ◌*◌, ◌^◌, ◌<◌, ◌≡◌, refl, sym, ap, ◌∙◌, subst, String, List, [], ◌∷◌, length, All, arith,
  pos,
}
use native.Mathlib.Nat.{suc-mul}
use s5lb.Upstream.{Snapshot}
use s5lb.Strategy.Weighted.{Credits, credit}
use s5lb.Strategy.Weighted
use s5lb.Strategy.Weighted.Credits.{total_of}
use s5lb.Strategy.Weighted.Counts.{weights, times, shape-total}
use s5lb.Strategy.Weighted.Fair.{turns, Offers, turns_ahead, turns_cycle}
use s5lb.Strategy.Weighted.Int64.{pick}
use s5lb.Strategy.Weighted.Int64.Exact.{Small, pick-Small}

-- A pick for each of the pools, the last one first.
unfoldable pub picks : ℕ → List (List Snapshot) → Credits → List String → Credits × List String
picks max_per [] current h = (current, h)
picks max_per (pool ∷ pools) current h =
    let r = pick current pool max_per in picks max_per pools r.0 (r.1 ∷ h)

picks_exact :
    (n max_per : ℕ) (ws : List (String × ℕ)) (pools : List (List Snapshot)) (current : Credits)
    (h : List String)
    → All (Offers max_per ws) pools
    → Small n current
    → n + 2 * (length pools * weights ws) < 2 ^ 63
    → picks max_per pools current h ≡ turns max_per pools current h
unfolding picks turns
picks_exact n max_per ws [] current h offers small bound = refl
picks_exact n max_per ws (pool ∷ pools) current h ((same, _, _, _), offers) small bound =
    let total : total_of pool ≡ weights ws = sym (shape-total pool) ∙ ap weights same in
    let more = suc-mul (length pools) (weights ws) in
    let (exact, next) =
      pick-Small n max_per current pool small (omega (arith, total, more, bound)) in
    ap (λ (r : Credits × String). picks max_per pools r.0 (r.1 ∷ h)) exact
    ∙ picks_exact (n + 2 * total_of pool) max_per ws pools (Weighted.pick current pool max_per).0
        ((Weighted.pick current pool max_per).1 ∷ h) offers next (omega (arith, total, more, bound))

-- A group starts without credits. In every session all upstreams of the pool, which keeps its IDs and
-- weights, can take a session; no two have the same ID and none an empty one. Twice the number of
-- sessions times the sum of the weights stays below 2 ^ 63. Then no upstream has been picked a whole time
-- more than its weight's share of the sessions.
pub picks_ahead :
    (max_per : ℕ) (ws : List (String × ℕ)) (pools : List (List Snapshot))
    → All (Offers max_per ws) pools
    → 0 < weights ws
    → 2 * (length pools * weights ws) < 2 ^ 63
    → All
        (λ (p : String × ℕ).
          weights ws * times p.0 (picks max_per pools [] []).1 < length pools * p.1 + weights ws)
        ws
picks_ahead max_per ws pools offers some bound =
    subst
      (λ (r : Credits × List String).
        All (λ (p : String × ℕ). weights ws * times p.0 r.1 < length pools * p.1 + weights ws) ws)
      (sym (picks_exact 0 max_per ws pools [] [] offers tt (omega (arith, bound))))
      (turns_ahead max_per ws pools offers some)

-- A group starts without credits. In as many sessions as the sum of the weights all upstreams of the
-- pool, which keeps its IDs and weights, can take a session; no two have the same ID and none an empty
-- one. Twice the square of the sum of the weights is below 2 ^ 63. Then each upstream is picked exactly as
-- often as its weight says, and its credit is back at zero.
pub picks_cycle :
    (max_per : ℕ) (ws : List (String × ℕ)) (pools : List (List Snapshot))
    → All (Offers max_per ws) pools
    → 0 < weights ws
    → 2 * (weights ws * weights ws) < 2 ^ 63
    → length pools ≡ weights ws
    → let r = picks max_per pools [] [] in
      All (λ (p : String × ℕ). (times p.0 r.1 ≡ p.1) × (credit p.0 r.0 ≡ pos 0)) ws
picks_cycle max_per ws pools offers some bound whole =
    subst
      (λ (r : Credits × List String).
        All (λ (p : String × ℕ). (times p.0 r.1 ≡ p.1) × (credit p.0 r.0 ≡ pos 0)) ws)
      (sym (
        picks_exact 0 max_per ws pools [] [] offers tt
          (omega (arith, subst (λ k. 2 * (k * weights ws) < 2 ^ 63) (sym whole) bound))))
      (turns_cycle max_per ws pools offers some whole)
