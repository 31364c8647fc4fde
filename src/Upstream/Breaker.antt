-- ===== src/Upstream/Breaker.antt =====
-- The circuit breaker: failures inside one window are counted, and the threshold trips it.
use s5lb.Base.{
  ℕ, ◌+◌, ◌≤◌, ◌<◌, ◌≡◌, refl, ◌∙◌, ◌↔◌, ◌⊎◌, true, false, List, [], ◌∷◌, arith, ltb, All, length,
}
use s5lb.Upstream.{
  State, inc_active, dec_active, mark_healthy, mark_unhealthy, record_success, record_failure,
  count_failure, trip, set_drain,
}
use s5lb.Upstream.Laws.{Call, inc, dec, succeed, heal, counts, drains, fail, wound, apply}

-- A State between two calls: an upstream taken out by the breaker has counted at least the threshold.
abbrev pub Counted : ℕ → State → Type 0
Counted threshold s = s.healthy ≡ true → s.consecutive_failures < threshold

-- What a call does to the count. A failure after the window begins a new one; inside the window it adds
-- one. No other call adds to the count.
abbrev pub Counts : ℕ → Call → State → State → Type 0
Counts window (fail now) s t =
    (s.first_failure_ts + window < now → (t.consecutive_failures ≡ 1) × (t.first_failure_ts ≡ now))
    × (now ≤ s.first_failure_ts + window
        → (t.consecutive_failures ≡ s.consecutive_failures + 1)
          × (0 < s.consecutive_failures → t.first_failure_ts ≡ s.first_failure_ts))
Counts window _ s t =
    (t.consecutive_failures ≡ s.consecutive_failures) ⊎ (t.consecutive_failures ≡ 0)

-- An upstream goes out of service when a failure reaches the threshold, or by MarkUnhealthy.
abbrev pub Leaves : ℕ → Call → State → State → Type 0
Leaves threshold (wound now) s t = Unit {0}
Leaves threshold _ s t = s.healthy ≡ true → t.healthy ≡ false → threshold ≤ t.consecutive_failures

-- If the threshold is positive, every step of a call keeps a healthy upstream below the threshold,
-- whatever time it comes with: a failure that comes later than the window after the first one begins a
-- new window with the count 1, one that comes inside it adds 1, and no other step adds to the count. An
-- upstream goes out of service only at the threshold or by MarkUnhealthy.
pub apply-Counted :
    (max threshold window : ℕ) (c : Call) (s : State)
    → 0 < threshold
    → Counted threshold s
    → let t = apply max threshold window c s in
      Counted threshold t × Counts window c s t × Leaves threshold c s t
unfolding apply inc_active dec_active record_success mark_healthy count_failure trip mark_unhealthy
    set_drain
apply-Counted max threshold window inc s pos v = (ground arith, ground arith, ground arith)
apply-Counted max threshold window (wound now) s pos v = (ground arith, ground arith, tt)
apply-Counted max threshold window (fail now) s pos v = (
  ground arith,
  (λ h. (ground arith, ground arith), λ h. (ground arith, λ k. ground arith)),
  ground arith,
)
apply-Counted max threshold window dec s pos v = (ground arith, ground arith, ground arith)
apply-Counted max threshold window succeed s pos v = (ground arith, ground arith, ground arith)
apply-Counted max threshold window heal s pos v = (ground arith, ground arith, ground arith)
apply-Counted max threshold window counts s pos v = (ground arith, ground arith, ground arith)
apply-Counted max threshold window (drains b) s pos v = (ground arith, ground arith, ground arith)

-- One failure: the count it returns is the one it stores, and restarts at 1 when the window is over;
-- `tripped` says that this call made the upstream unhealthy.
pub record_failure_lem :
    (threshold window now : ℕ) (s : State)
    → let (t, n, tripped) = record_failure threshold window now s in
      (t.consecutive_failures ≡ n)
      × (s.first_failure_ts + window < now → n ≡ 1)
      × (now ≤ s.first_failure_ts + window → n ≡ s.consecutive_failures + 1)
      × ((tripped ≡ true) ↔ ((s.healthy ≡ true) × (t.healthy ≡ false)))
unfolding record_failure
record_failure_lem threshold window now s = (refl, ground arith, ground arith, ground arith)

-- Consecutive failures, each at its time.
unfoldable pub failures : ℕ → ℕ → List ℕ → State → State
failures threshold window [] s = s
failures threshold window (now ∷ ts) s =
    failures threshold window ts (record_failure threshold window now s).0

module _ (threshold window : ℕ) where
  record_failure_inside :
      (now : ℕ) (s : State)
      → 0 < s.consecutive_failures
      → now ≤ s.first_failure_ts + window
      → let t = (record_failure threshold window now s).0 in
        (t.consecutive_failures ≡ s.consecutive_failures + 1)
        × (t.first_failure_ts ≡ s.first_failure_ts)
        × (s.healthy ≡ ltb s.consecutive_failures threshold
            → t.healthy ≡ ltb (s.consecutive_failures + 1) threshold)
  unfolding record_failure
  record_failure_inside now s h k = (ground arith, ground arith, ground arith)

  failures_inside :
      (first : ℕ) (ts : List ℕ) (s : State)
      → 0 < s.consecutive_failures
      → s.first_failure_ts ≡ first
      → All (λ t. t ≤ first + window) ts
      → s.healthy ≡ ltb s.consecutive_failures threshold
      → let t = failures threshold window ts s in
        (t.consecutive_failures ≡ s.consecutive_failures + length ts)
        × (t.healthy ≡ ltb (s.consecutive_failures + length ts) threshold)
  unfolding failures
  failures_inside first [] s h e all live = (ground arith, ground arith)
  failures_inside first (now ∷ ts) s h e all live =
      let one = record_failure_inside now s h (ground arith) in
      let ih =
        failures_inside first ts (record_failure threshold window now s).0 (omega (arith, one.0))
          (one.1 ∙ e) all.1 (rw one.0 (one.2 live)) in
      (omega (arith, one.0, ih.0), ground (arith, one.0, ih.1))

  -- From a healthy upstream with no failure counted, a burst of failures that lies within one window
  -- is counted in full, and the upstream ends healthy exactly if the burst is below the threshold.
  pub failures_burst :
      (now : ℕ) (ts : List ℕ) (s : State)
      → s.healthy ≡ true
      → s.consecutive_failures ≡ 0
      → All (λ t. t ≤ now + window) ts
      → let t = failures threshold window (now ∷ ts) s in
        (t.consecutive_failures ≡ length (now ∷ ts))
        × (t.healthy ≡ ltb (length (now ∷ ts)) threshold)
  unfolding failures
  failures_burst now ts s live none_counted all =
      let t = (record_failure threshold window now s).0 in
      let ih =
        failures_inside now ts t (first_lem.2) first_lem.1 all
          (ground (arith, first_lem.0, first_lem.3)) in
      (omega (arith, ih.0, first_lem.0), ground (arith, ih.1, first_lem.0))
    where
      first_lem :
          let t = (record_failure threshold window now s).0 in
          (t.consecutive_failures ≡ 1)
          × (t.first_failure_ts ≡ now)
          × (0 < t.consecutive_failures)
          × (t.healthy ≡ ltb 1 threshold)
      first_lem = unfold record_failure in (ground arith, ground arith, ground arith, ground arith)
