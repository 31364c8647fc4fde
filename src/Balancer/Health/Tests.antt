-- ===== src/Balancer/Health/Tests.antt =====
-- A round of probes over an upstream that has recovered and one that has not.
use s5lb.Base.{◌≡◌, refl, true, false, String, List, [], ◌∷◌, pos}
use s5lb.Upstream.{State, record_success, mark_healthy}
use s5lb.Balancer.Pool.{Member}
use s5lb.Balancer.Health.{Policy, check, run_health_checks}
use s5lb.Balancer.Health.Laws.{Round, recovered, run_health_checks-Round}

abbrev policy : Policy
policy = record { threshold = 3; window = 100; backoff = 30 }

-- Out of service since 50, after five failures.
abbrev down : State
down = record {
  active = 1;
  healthy = false;
  draining = false;
  last_failure_ts = 50;
  first_failure_ts = 40;
  consecutive_failures = 5;
  total_sessions = 9;
  total_failures = 5;
  ewma_bits = 0;
}

abbrev member : String → Member
member id = record {
  up = record {
    id = id;
    host = id;
    port = 1;
    username = "";
    password = "";
    weight = pos 1;
    priority = pos 0;
  };
  state = down;
}

recovers : (check policy 100 true down).1 ≡ true
unfolding check record_success mark_healthy
recovers = refl

rests_on : check policy 70 true down ≡ (down, false)
unfolding check
rests_on = refl

abbrev pool : List Member
pool = member "a" ∷ member "b" ∷ []

run_health_checks-Round_example :
    let r = run_health_checks policy 100 (λ u. true) pool in
    Round policy 100 (λ u. true) pool r.0 × (r.1 ≡ recovered pool r.0)
run_health_checks-Round_example = run_health_checks-Round policy 100 (λ u. true) pool
