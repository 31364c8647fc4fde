-- ===== src/Balancer/Health/Laws.antt =====
-- What a round of active probes (health.go) does to the pool.
use s5lb.Base.{
  ℕ, ◌+◌, ◌<◌, ◌≡◌, refl, Bool, true, false, not, ◌&&◌, if◌then◌else◌, if-elim, List, [], ◌∷◌,
  arith,
}
use s5lb.Upstream.{u64, Upstream, State, record_success, record_failure, mark_healthy}
use s5lb.Balancer.Pool.{Member}
use s5lb.Balancer.Health.{Policy, rests, recover, check, run_health_checks}

-- What a check of one upstream does, with its probe's result.
abbrev pub Checked : Policy → ℕ → Bool → State → State × Bool → Type 0
Checked p now good s r =
    (r.0.active ≡ s.active)
    × (r.0.draining ≡ s.draining)
    × (r.0.total_sessions ≡ s.total_sessions)
    × (r.1 ≡ (not s.healthy && r.0.healthy))
    × (rests p now s ≡ true → r.0 ≡ s)
    × (rests p now s ≡ false → good ≡ true → (r.0.healthy ≡ true) × (r.0.consecutive_failures ≡ 0))
    × (good ≡ false → r.0.healthy ≡ true → s.healthy ≡ true)
    × (rests p now s ≡ false
        → good ≡ false
        → (r.0.total_failures ≡ u64 (s.total_failures + 1))
          × (r.0.last_failure_ts ≡ now)
          × (0 < r.0.consecutive_failures)
          × (r.0.healthy ≡ true → r.0.consecutive_failures < p.threshold))

recover-Checked :
    (p : Policy) (now : ℕ) (s : State)
    → rests p now s ≡ false
    → Checked p now true s (recover (record_success s))
unfolding record_success mark_healthy
recover-Checked p now s h = (
  ground arith,
  ground arith,
  ground arith,
  ground arith,
  λ h'. absurd (cc),
  λ _ _. (ground arith, ground arith),
  λ e. absurd (cc),
  λ _ e. absurd (cc),
)

fail-Checked :
    (p : Policy) (now : ℕ) (s : State)
    → rests p now s ≡ false
    → Checked p now false s ((record_failure p.threshold p.window now s).0, false)
unfolding record_failure
fail-Checked p now s h = (
  refl,
  refl,
  refl,
  ground arith,
  λ h'. absurd (cc),
  λ _ e. absurd (cc),
  λ _ e. ground (arith, e),
  λ _ _. (refl, refl, ground arith, λ e. ground (arith, e)),
)

rest-Checked :
    (p : Policy) (now : ℕ) (good : Bool) (s : State)
    → rests p now s ≡ true
    → Checked p now good s (s, false)
rest-Checked p now good s h =
    (refl, refl, refl, ground arith, λ _. refl, λ h'. absurd (cc), λ _ e. e, λ h'. absurd (cc))

-- A check leaves the sessions and the drain flag alone. It leaves a resting upstream as it is; if the
-- others answer they are healthy with no failure counted, and if they do not none becomes healthy. It
-- dispatches exactly if it made an unhealthy upstream healthy, and counts a probe that failed.
pub check_lem :
    (p : Policy) (now : ℕ) (good : Bool) (s : State) → Checked p now good s (check p now good s)
unfolding check
check_lem p now good s =
    if-elim (Checked p now good s) (rests p now s) _ _ (rest-Checked p now good s)
      (λ h. probed good h)
  where
    probed :
        (answers : Bool)
        → rests p now s ≡ false
        → Checked p now answers s (
            if answers
            then recover (record_success s)
            else ((record_failure p.threshold p.window now s).0, false))
    probed true h = recover-Checked p now s h
    probed false h = fail-Checked p now s h

-- The upstreams of the first list that are unhealthy there and healthy in the second.
abbrev pub recovered : List Member → List Member → ℕ
recovered [] _ = 0
recovered (m ∷ ms) [] = 0
recovered (m ∷ ms) (x ∷ xs) =
    let n = recovered ms xs in if not m.state.healthy && x.state.healthy then n + 1 else n

-- The upstreams of two lists are the same, in order, and each state of the second is what a check
-- makes of the one in the first.
unfoldable pub Round : Policy → ℕ → (Upstream → Bool) → List Member → List Member → Type 0
Round p now good [] [] = Unit
Round p now good [] (x ∷ xs) = ⊥
Round p now good (m ∷ ms) [] = ⊥
Round p now good (m ∷ ms) (x ∷ xs) =
    (x.up ≡ m.up)
    × Checked p now (good m.up) m.state (x.state, not m.state.healthy && x.state.healthy)
    × Round p now good ms xs

-- While no session changes a state, a round of probes keeps the upstreams, their sessions and their
-- drain flags. An unhealthy upstream with a recent failure stays as it is. Of the others, one that
-- answers is healthy with no failure counted; for one that does not a failure is counted at this
-- time, it does not become healthy, and it stays healthy only below the threshold. The round
-- dispatches once for every upstream that became healthy.
pub run_health_checks-Round :
    (p : Policy) (now : ℕ) (good : Upstream → Bool) (ms : List Member)
    → let r = run_health_checks p now good ms in Round p now good ms r.0 × (r.1 ≡ recovered ms r.0)
unfolding run_health_checks Round
run_health_checks-Round p now good [] = (tt, refl)
run_health_checks-Round p now good (m ∷ ms) =
    let (rest, count) = run_health_checks-Round p now good ms in
    let one = check_lem p now (good m.up) m.state in
    ((refl, (one.0, one.1, one.2, refl, one.4, one.5, one.6, one.7), rest), rw (one.3, count) refl)
