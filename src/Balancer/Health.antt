-- ===== src/Balancer/Health.antt =====
-- internal/balancer/health.go: active probes of the upstreams. A round visits every upstream of the
-- pool once; its workers touch different upstreams, so the order of the pool stands for any other.
-- A session that changes a state during its check is left out.
-- Times are nanoseconds of one clock, which does not go back. The dispatches are counted: what a
-- dispatch does is Balancer/Queue.
pub mod Laws
mod Tests
use s5lb.Base.{
  ℕ, ◌+◌, ◌-◌, Bool, true, false, not, ◌&&◌, ltb, if◌then◌else◌, String, List, [], ◌∷◌, Option,
  none, some,
}
use s5lb.Socks5.Wire.{Bytes, Conn, Outcome, ok, err}
use s5lb.Socks5.Client.{client_handshake}
use s5lb.Upstream.{Upstream, State, record_success, record_failure, mark_healthy}
use s5lb.Balancer.Pool.{Member}
use s5lb.Balancer.Session.{World, dialer_of}

-- FailureThreshold, FailureWindow and RetryBackoff.
pub record Policy : Type 0 where
  pub threshold : ℕ
  pub window : ℕ
  pub backoff : ℕ

shakes : Outcome (Unit {0}) → Bool
shakes (ok _ c) = true
shakes (err e c) = false

probe_conn : World → Upstream → Option Conn → Bool
unfolding shakes
probe_conn w up none = false
probe_conn w up (some c) = shakes (client_handshake (w.bytes up.username) (w.bytes up.password) c)

-- probe: whether it returns no error.
unfoldable pub probe : World → Upstream → Bool
unfolding probe_conn
probe w up = probe_conn w up (dialer_of w.dialer w.tcp_dialer (w.addr up))

-- markHealthy of the balancer: the result says whether it dispatches.
abbrev pub recover : State → State × Bool
recover s = mark_healthy s

-- An unhealthy upstream whose last failure is recent is left alone.
abbrev pub rests : Policy → ℕ → State → Bool
rests p now s = not s.healthy && ltb (now - s.last_failure_ts) p.backoff

-- The body of a worker's loop, for a probe that succeeds if `good`.
unfoldable pub check : Policy → ℕ → Bool → State → State × Bool
check p now good s =
    if rests p now s
    then (s, false)
    else if good
    then recover (record_success s)
    else ((record_failure p.threshold p.window now s).0, false)

-- runHealthChecks: the pool after a round, and how many dispatches it made.
unfoldable pub run_health_checks : Policy → ℕ → (Upstream → Bool) → List Member → List Member × ℕ
unfolding check
run_health_checks p now good [] = ([], 0)
run_health_checks p now good (m ∷ ms) =
    let (s, dispatches) = check p now (good m.up) m.state in
    let (rest, n) = run_health_checks p now good ms in
    (record m { state = s } ∷ rest, if dispatches then n + 1 else n)
