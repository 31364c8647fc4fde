-- ===== src/Upstream.antt =====
-- internal/upstream/state.go and internal/upstream/upstream.go: one backend proxy, its immutable
-- specification and its mutable State. A method of State that holds `mu` from its first read to its
-- last write is one function from the old State to the new one and its result. RecordFailure counts in
-- an atomic counter and reads the clock before it locks: count_failure and trip are separate steps, and
-- the time of trip need not be the latest.
-- A time is a number of nanoseconds, passed in where the source calls time.Now; 0 is time.Time{}.
-- `active` and `consecutiveFailures` are `int` and stay far below 2^63; the uint64 counters wrap.
-- A float64 is its bit pattern.
pub mod Laws
pub mod Breaker
pub mod Latency
mod Tests
use s5lb.Base.{
  ℕ, ◌+◌, ◌-◌, ◌%◌, ◌^◌, Bool, true, false, not, ◌&&◌, ◌||◌, ltb, leb, ◌==◌, if◌then◌else◌, String,
  ℤ,
}

pub record State : Type 0 where
  pub active : ℕ
  pub healthy : Bool
  pub draining : Bool
  pub last_failure_ts : ℕ
  pub first_failure_ts : ℕ
  pub consecutive_failures : ℕ
  pub total_sessions : ℕ
  pub total_failures : ℕ
  pub ewma_bits : ℕ

abbrev pub u64 : ℕ → ℕ
u64 n = n % 2 ^ 64

unfoldable pub new_state : State
new_state = record {
  active = 0;
  healthy = true;
  draining = false;
  last_failure_ts = 0;
  first_failure_ts = 0;
  consecutive_failures = 0;
  total_sessions = 0;
  total_failures = 0;
  ewma_bits = 0;
}

-- A cap below 1 admits nobody, as 0 does.
unfoldable pub inc_active : ℕ → State → State × Bool
inc_active max s =
    if not s.healthy || s.draining
    then (s, false)
    else if leb max s.active
    then (s, false)
    else (record s { active = s.active + 1; total_sessions = u64 (s.total_sessions + 1) }, true)

unfoldable pub dec_active : State → State
dec_active s = if ltb 0 s.active then record s { active = s.active - 1 } else s

unfoldable pub mark_healthy : State → State × Bool
mark_healthy s =
    if s.healthy
    then (s, false)
    else (record s { healthy = true; consecutive_failures = 0; first_failure_ts = 0 }, true)

unfoldable pub mark_unhealthy : ℕ → State → State × Bool
mark_unhealthy now s =
    if not s.healthy
    then (s, false)
    else (record s { healthy = false; last_failure_ts = now }, true)

unfoldable pub record_success : State → State
record_success s =
    if ltb 0 s.consecutive_failures
    then record s { consecutive_failures = 0; first_failure_ts = 0 }
    else s

-- The two resets at the top of the critical section of RecordFailure: the window, then its start.
abbrev slide : ℕ → ℕ → State → State
slide window now s =
    let kept =
      if ltb 0 s.consecutive_failures && ltb (s.first_failure_ts + window) now
      then 0
      else s.consecutive_failures in
    record s {
      consecutive_failures = kept;
      first_failure_ts = if kept == 0 then now else s.first_failure_ts;
    }

-- The atomic counter.
unfoldable pub count_failure : State → State
count_failure s = record s { total_failures = u64 (s.total_failures + 1) }

-- The critical section, with the time that was read before it.
unfoldable pub trip : ℕ → ℕ → ℕ → State → State × ℕ × Bool
trip threshold window now s =
    let t = slide window now s in
    let consecutive = t.consecutive_failures + 1 in
    let tripped = s.healthy && leb threshold consecutive in
    (
      record t {
        consecutive_failures = consecutive;
        last_failure_ts = now;
        healthy = if tripped then false else s.healthy;
      },
      consecutive,
      tripped,
    )

-- RecordFailure with nothing in between.
unfoldable pub record_failure : ℕ → ℕ → ℕ → State → State × ℕ × Bool
unfolding count_failure trip
record_failure threshold window now s = trip threshold window now (count_failure s)

unfoldable pub set_drain : Bool → State → State
set_drain drain s = record s { draining = drain }

-- The immutable part. `Weight` and `Priority` are signed.
pub record Upstream : Type 0 where
  pub id : String
  pub host : String
  pub port : ℕ
  pub username : String
  pub password : String
  pub weight : ℤ
  pub priority : ℤ

pub record Snapshot : Type 0 where
  pub id : String
  pub addr : String
  pub weight : ℤ
  pub priority : ℤ
  pub active : ℕ
  pub healthy : Bool
  pub draining : Bool
  pub consecutive_failures : ℕ
  pub ewma_latency : ℕ
  pub total_sessions : ℕ
  pub total_failures : ℕ

-- `addr` is what Addr() formats.
unfoldable pub snapshot : (Upstream → String) → Upstream → State → Snapshot
snapshot addr u s = record {
  id = u.id;
  addr = addr u;
  weight = u.weight;
  priority = u.priority;
  active = s.active;
  healthy = s.healthy;
  draining = s.draining;
  consecutive_failures = s.consecutive_failures;
  ewma_latency = s.ewma_bits;
  total_sessions = s.total_sessions;
  total_failures = s.total_failures;
}
