-- ===== src/Admission/Gate.antt =====
-- internal/admission/gate.go: the gate that admits sessions. `slots` is a buffered channel whose
-- contents carry no data: the gate keeps how many it holds. Each select is one atomic step; a select
-- that blocks takes its outcome from the environment, which hands over what has become ready.
pub mod Laws
use s5lb.Base.{
  ℕ, ◌+◌, ◌-◌, Bool, true, false, ltb, if◌then◌else◌, String, str_eq, Option, none, some, ℤ, pos,
  ◌+ℤ◌, ◌-ℤ◌,
}
use s5lb.Admission.Tracker.{Tracker}
use s5lb.Admission.Tracker.Victims.{Victim, pick_oldest_victim, pick_lowest_priority_victim}

pub data Outcome : Type 0 where
  admitted rejected evicted : Outcome

pub data Reason : Type 0 where
  no_reason admission_full admission_canceled admission_wait_timeout : Reason
  evict_no_tracker evict_no_victim evict_wait_timeout : Reason

pub record Decision : Type 0 where
  pub outcome : Outcome
  pub reason : Reason

abbrev pub reject : Reason → Decision
reject r = record { outcome = rejected; reason = r }

abbrev pub admit : Decision
admit = record { outcome = admitted; reason = no_reason }

-- `slots` is the number of tokens in the channel, of capacity `cap`; `inflight` the atomic counter
-- beside it.
pub record Gate : Type 0 where
  pub cap : ℕ
  pub slots : ℕ
  pub inflight : ℤ

-- The strategies of New by their name; every other string is `rejects`.
pub data Kind : Type 0 where
  rejects waits drops_oldest drops_lowest_priority : Kind

unfoldable pub kind_of : String → Kind
kind_of strategy =
    if str_eq strategy "wait"
    then waits
    else if str_eq strategy "drop-oldest"
    then drops_oldest
    else if str_eq strategy "drop-lowest-priority"
    then drops_lowest_priority
    else rejects

unfoldable pub new : ℕ → Gate
new max_clients = record { cap = max_clients; slots = 0; inflight = pos 0 }

-- A send to `slots` and the increment behind it.
unfoldable pub take_slot : Gate → Gate
take_slot g = record g { slots = g.slots + 1; inflight = g.inflight +ℤ pos 1 }

unfoldable pub try_acquire : Gate → Gate × Bool
unfolding take_slot
try_acquire g = if ltb g.slots g.cap then (take_slot g, true) else (g, false)

unfoldable pub release : Gate → Gate
release g =
    if ltb 0 g.slots then record g { slots = g.slots - 1; inflight = g.inflight -ℤ pos 1 } else g

-- What a blocked select finds ready: room in the channel, the context, or the timer (which exists
-- only where the wait is bounded).
pub data Wake : Type 0 where
  freed done expired : Wake

-- The gate when the select fires, what fires it, and whether ctx.Err() is context.Canceled after.
pub record Wait : Type 0 where
  pub gate : Gate
  pub wake : Wake
  pub canceled : Bool

wakes : Wake → Gate → Gate × Bool
unfolding take_slot
wakes freed g = (take_slot g, true)
wakes done g = (g, false)
wakes expired g = (g, false)

unfoldable pub wait_acquire : Wait → Gate × Bool
unfolding wakes
wait_acquire w = wakes w.wake w.gate

abbrev decide : Gate × Bool → Decision → Decision → Gate × Decision
decide (g, true) won lost = (g, won)
decide (g, false) won lost = (g, lost)

acquire_reject : Gate → Gate × Decision
acquire_reject g = decide (try_acquire g) admit (reject admission_full)

or_wait : Gate × Bool → Gate × Decision → Gate × Decision
or_wait (g, true) waited = (g, admit)
or_wait (g, false) waited = waited

acquire_wait : Gate → Wait → Gate × Decision
unfolding or_wait
acquire_wait g w = or_wait (try_acquire g) (
    decide (wait_acquire w) admit
      (reject (if w.canceled then admission_canceled else admission_wait_timeout)))

-- The gate, the decision, and the connection that was closed to make room.
pub record Acquired : Type 0 where
  pub gate : Gate
  pub decision : Decision
  pub closed : Option Victim

abbrev settle : Gate × Decision → Option Victim → Acquired
settle (g, d) v = record { gate = g; decision = d; closed = v }

after_evict : Wait → Option Victim → Acquired
after_evict w none = settle (decide (wait_acquire w) admit (reject evict_no_victim)) none
after_evict w (some v) =
    settle
      (decide (wait_acquire w) (record { outcome = evicted; reason = no_reason })
        (reject evict_wait_timeout))
      (some v)

or_evict : Gate × Bool → Acquired → Acquired
or_evict (g, true) later = settle (g, admit) none
or_evict (g, false) later = later

-- `tracker` is nil for `none`; otherwise it has picked `victim`.
acquire_evict : Gate → Wait → Option (Option Victim) → Acquired
unfolding or_evict after_evict
acquire_evict g w none =
    or_evict (try_acquire g) (settle (decide (wait_acquire w) admit (reject evict_no_tracker)) none)
acquire_evict g w (some victim) = or_evict (try_acquire g) (after_evict w victim)

-- What the tracker picks for the strategy, with fuel for its loop.
pick_victim : Kind → ℕ → Tracker → Option (Option Victim)
pick_victim drops_oldest fuel t = some (pick_oldest_victim t)
pick_victim _ fuel t = pick_lowest_priority_victim fuel t

of_tracker : Kind → ℕ → Option Tracker → Gate → Wait → Option Acquired
unfolding acquire_evict pick_victim
of_tracker kind fuel none g w = some (acquire_evict g w none)
of_tracker kind fuel (some t) g w = elim (pick_victim kind fuel t) [
  | none ↦ none
  | some victim ↦ some (acquire_evict g w (some victim))
]

-- Acquire, by the strategy; `none` says that the fuel ran out. `g` is the gate when it is called.
unfoldable pub acquire : Kind → ℕ → Option Tracker → Gate → Wait → Option Acquired
unfolding acquire_reject acquire_wait of_tracker
acquire rejects fuel t g w = some (settle (acquire_reject g) none)
acquire waits fuel t g w = some (settle (acquire_wait g w) none)
acquire drops_oldest fuel t g w = of_tracker drops_oldest fuel t g w
acquire drops_lowest_priority fuel t g w = of_tracker drops_lowest_priority fuel t g w
