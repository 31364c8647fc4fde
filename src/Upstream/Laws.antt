-- ===== src/Upstream/Laws.antt =====
-- What the methods of State guarantee between calls.
use s5lb.Base.{ℕ, ◌+◌, ◌≤◌, ◌<◌, ◌≡◌, ◌↔◌, Bool, true, false, List, [], ◌∷◌, arith}
use s5lb.Upstream.{
  State, inc_active, dec_active, mark_healthy, mark_unhealthy, record_success, count_failure, trip,
  set_drain,
}

-- Every step that another goroutine may make on a State; `counts` and `fail` are the two of
-- RecordFailure. The cap is read from the config.
pub data Call : Type 0 where
  inc dec succeed heal counts : Call
  fail : ℕ → Call
  wound : ℕ → Call
  drains : Bool → Call

unfoldable pub apply : ℕ → ℕ → ℕ → Call → State → State
apply max threshold window inc s = (inc_active max s).0
apply max threshold window dec s = dec_active s
apply max threshold window succeed s = record_success s
apply max threshold window heal s = (mark_healthy s).0
apply max threshold window counts s = count_failure s
apply max threshold window (fail now) s = (trip threshold window now s).0
apply max threshold window (wound now) s = (mark_unhealthy now s).0
apply max threshold window (drains b) s = set_drain b s

-- IncActive succeeds exactly on a healthy upstream that is not draining and is below its cap; then
-- it takes one slot, and otherwise it changes nothing.
pub inc_active_lem :
    (max : ℕ) (s : State)
    → (((inc_active max s).1 ≡ true)
        ↔ ((s.healthy ≡ true) × (s.draining ≡ false) × (s.active < max)))
      × ((inc_active max s).1 ≡ true → (inc_active max s).0.active ≡ s.active + 1)
      × ((inc_active max s).1 ≡ false → (inc_active max s).0 ≡ s)
unfolding inc_active
inc_active_lem max s = (ground arith, ground arith, ground arith)

-- A slot that was taken can be given back: the active count is the one before.
pub dec_active-inc_active :
    (max : ℕ) (s : State)
    → (inc_active max s).1 ≡ true
    → (dec_active (inc_active max s).0).active ≡ s.active
unfolding inc_active dec_active
dec_active-inc_active max s h = ground arith

apply_bounded :
    (max threshold window : ℕ) (c : Call) (s : State)
    → s.active ≤ max
    → (apply max threshold window c s).active ≤ max
unfolding apply inc_active dec_active record_success mark_healthy count_failure trip mark_unhealthy
    set_drain
apply_bounded max threshold window inc s h = ground arith
apply_bounded max threshold window _ s h = ground arith

unfoldable pub run : ℕ → ℕ → ℕ → List Call → State → State
run max threshold window [] s = s
run max threshold window (c ∷ cs) s = run max threshold window cs (apply max threshold window c s)

-- From a state within the cap, the number of active sessions never exceeds it, whatever calls are
-- interleaved.
pub run_bounded :
    (max threshold window : ℕ) (cs : List Call) (s : State)
    → s.active ≤ max
    → (run max threshold window cs s).active ≤ max
unfolding run
run_bounded max threshold window [] s h = h
run_bounded max threshold window (c ∷ cs) s h =
    run_bounded max threshold window cs (apply max threshold window c s)
      (apply_bounded max threshold window c s h)
