-- ===== src/Upstream/Tests.antt =====
-- The laws of State at concrete states, and runs of its methods.
use s5lb.Base.{◌≡◌, refl, true, false, arith}
use s5lb.Upstream.{State, inc_active, set_drain}
use s5lb.Upstream.Laws.{fail, apply}
use s5lb.Upstream.Breaker.{Counted, Counts, Leaves, apply-Counted}

abbrev busy : State
busy = record {
  active = 2;
  healthy = true;
  draining = false;
  last_failure_ts = 40;
  first_failure_ts = 30;
  consecutive_failures = 1;
  total_sessions = 9;
  total_failures = 1;
  ewma_bits = 0;
}

apply-Counted_example :
    Counted 2 (apply 3 2 50 (fail 60) busy)
    × Counts 50 (fail 60) busy (apply 3 2 50 (fail 60) busy)
    × Leaves 2 (fail 60) busy (apply 3 2 50 (fail 60) busy)
apply-Counted_example = apply-Counted 3 2 50 (fail 60) busy (omega arith) (λ _. omega arith)

drained_refuses : (inc_active 3 (set_drain true busy)).1 ≡ false
unfolding inc_active set_drain
drained_refuses = refl
