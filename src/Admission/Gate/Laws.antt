-- ===== src/Admission/Gate/Laws.antt =====
-- What an admission does to the gate.
use s5lb.Base.{
  true, ltb, Bool-cases, ap, sym, ℕ, ◌≤◌, ◌<◌, ◌≡◌, refl, ◌≢◌, ◌⊎◌, inl, inr, Option, none, some,
  List, [], ◌∷◌, length, arith, pos, ◌+ℤ◌, ◌-ℤ◌,
}
use s5lb.Admission.Tracker.{Tracker}
use s5lb.Admission.Tracker.Chain.{Tracks}
use s5lb.Admission.Tracker.Victims.{
  Victim, victim_from_session, pick_oldest_victim, pick_lowest_priority_victim,
}
use s5lb.Admission.Tracker.Victims.Laws.{
  pick_lowest_priority_victim-Tracks, pick_lowest_priority_victim-nil,
}
use s5lb.Admission.Gate.{
  Gate, Kind, rejects, waits, drops_oldest, drops_lowest_priority, Wait, Wake, freed, done, expired,
  wakes, rejected, evicted, no_reason, Acquired, acquire, acquire_evict, take_slot, release,
  try_acquire, wait_acquire, of_tracker, pick_victim,
}

-- The gate holds one token for each session in flight, and never more than its capacity.
pub record Balanced (g : Gate) : Type 0 where
  pub in_flight : g.inflight ≡ pos g.slots
  pub bounded : g.slots ≤ g.cap

-- The environment fires a send only where there is room.
abbrev pub Possible : Wait → Type 0
Possible w = w.wake ≡ freed → w.gate.slots < w.gate.cap

-- An admission takes one slot of the gate that it finds, and a rejection takes none and says why; a
-- session is evicted only if a victim was closed.
pub record Fair (g : Gate) (w : Wait) (a : Acquired) : Type 0 where
  pub slot :
      ((a.decision.outcome ≡ rejected)
        × (a.decision.reason ≢ no_reason)
        × ((a.gate ≡ g) ⊎ (a.gate ≡ w.gate)))
      ⊎ ((a.decision.outcome ≢ rejected)
          × (a.decision.reason ≡ no_reason)
          × (((a.gate ≡ take_slot g) × (g.slots < g.cap))
              ⊎ ((a.gate ≡ take_slot w.gate) × (w.wake ≡ freed) × (g.cap ≤ g.slots))))
  pub victim : a.decision.outcome ≡ evicted → (v : Victim) × (a.closed ≡ some v)
  pub at_once : g.slots < g.cap → a.closed ≡ none

module _ (g : Gate) (w : Wait) where
  acquire_evict-Fair : (t : Option (Option Victim)) → Fair g w (acquire_evict g w t)
  unfolding acquire_evict try_acquire wait_acquire
  acquire_evict-Fair none = record {
    slot = ground arith;
    victim = ground arith;
    at_once = ground arith;
  }
  acquire_evict-Fair (some none) = record {
    slot = ground arith;
    victim = ground arith;
    at_once = ground arith;
  }
  acquire_evict-Fair (some (some v)) = record {
    slot = ground arith;
    victim = λ e. (v, ground arith);
    at_once = ground arith;
  }

  acquire_plain-Fair :
      (fuel : ℕ) (t : Option Tracker)
      → ((a : Acquired) × (acquire rejects fuel t g w ≡ some a) × Fair g w a)
        × ((a : Acquired) × (acquire waits fuel t g w ≡ some a) × Fair g w a)
  unfolding acquire try_acquire wait_acquire
  acquire_plain-Fair fuel t = (
    (_, refl, record { slot = ground arith; victim = ground arith; at_once = ground arith }),
    (_, refl, record { slot = ground arith; victim = ground arith; at_once = ground arith }),
  )

  of_tracker-Fair :
      (kind : Kind) (fuel : ℕ) (t : Tracker) (victim : Option Victim)
      → pick_victim kind fuel t ≡ some victim
      → (a : Acquired) × (of_tracker kind fuel (some t) g w ≡ some a) × Fair g w a
  unfolding of_tracker
  of_tracker-Fair kind fuel t victim e =
      (acquire_evict g w (some victim), rw (e, of_tracker) refl, acquire_evict-Fair (some victim))

  -- The tracker at hand, if there is one, holds the sessions `xs`, and the fuel suffices for its loop.
  abbrev pub Ready : ℕ → Option Tracker → List ℕ → Type 0
  Ready fuel none xs = Unit {0}
  Ready fuel (some t) xs = Tracks t xs × (length xs < fuel)

lowest_total :
    (fuel : ℕ) (t : Tracker) (xs : List ℕ)
    → Tracks t xs
    → length xs < fuel
    → (v : Option Victim) × (pick_lowest_priority_victim fuel t ≡ some v)
lowest_total fuel t [] v h = (none, pick_lowest_priority_victim-nil fuel t v)
lowest_total fuel t (x ∷ xs) v h =
    let (s, e, _) = pick_lowest_priority_victim-Tracks fuel t x xs v h in
    (some (victim_from_session (t.store s)), e)

-- Every strategy decides, and its decision is fair: an admission takes one slot, of the gate at the
-- call or, if that was full, of the gate at the wake-up; a rejection takes none and gives a reason;
-- `evicted` says that a victim's connection was closed; and with a slot free at the call nobody is.
pub acquire-Fair :
    (kind : Kind) (fuel : ℕ) (t : Option Tracker) (xs : List ℕ) (g : Gate) (w : Wait)
    → Ready g w fuel t xs
    → (a : Acquired) × (acquire kind fuel t g w ≡ some a) × Fair g w a
unfolding acquire
acquire-Fair rejects fuel t xs g w r = (acquire_plain-Fair g w fuel t).0
acquire-Fair waits fuel t xs g w r = (acquire_plain-Fair g w fuel t).1
acquire-Fair drops_oldest fuel none xs g w r = (_, refl, acquire_evict-Fair g w none)
acquire-Fair drops_oldest fuel (some t) xs g w r =
    of_tracker-Fair g w drops_oldest fuel t (pick_oldest_victim t) refl
acquire-Fair drops_lowest_priority fuel none xs g w r = (_, refl, acquire_evict-Fair g w none)
acquire-Fair drops_lowest_priority fuel (some t) xs g w r =
    let (v, e) = lowest_total fuel t xs r.0 r.1 in
    of_tracker-Fair g w drops_lowest_priority fuel t v e

pub take_slot-Balanced : (g : Gate) → g.slots < g.cap → Balanced g → Balanced (take_slot g)
unfolding take_slot ◌+ℤ◌
take_slot-Balanced g h v = record { in_flight = ground arith; bounded = omega (arith, h) }

pub release-Balanced : (g : Gate) → Balanced g → Balanced (release g)
unfolding release ◌-ℤ◌
release-Balanced g v = record { in_flight = ground arith; bounded = ground arith }

pub try_acquire-taken :
    (g h : Gate) → try_acquire g ≡ (h, true) → (h ≡ take_slot g) × (g.slots < g.cap)
unfolding try_acquire
try_acquire-taken g h e = elim (Bool-cases (ltb g.slots g.cap)) [
  | inl room ↦ (ap (λ r. r.0) (sym (rw room at e)), ground (arith, room))
  | inr full ↦ absurd (ground (full, arith, ap (λ r. r.1) (rw full at e)))
]

wakes-taken : (k : Wake) (g h : Gate) → wakes k g ≡ (h, true) → (h ≡ take_slot g) × (k ≡ freed)
unfolding wakes
wakes-taken freed g h e = (ap (λ r. r.0) (sym e), refl)
wakes-taken done g h e = absurd (ground (arith, ap (λ r. r.1) e))
wakes-taken expired g h e = absurd (ground (arith, ap (λ r. r.1) e))

pub wait_acquire-taken :
    (w : Wait) (h : Gate) → wait_acquire w ≡ (h, true) → (h ≡ take_slot w.gate) × (w.wake ≡ freed)
unfolding wait_acquire
wait_acquire-taken w h e = wakes-taken w.wake w.gate h e

Fair-Balanced :
    (g : Gate) (w : Wait) (a : Acquired)
    → Fair g w a
    → Balanced g
    → Balanced w.gate
    → Possible w
    → Balanced a.gate
Fair-Balanced g w a f vg vw p = elim f.slot [
  | inl (_, _, inl e) ↦ rw e vg
  | inl (_, _, inr e) ↦ rw e vw
  | inr (_, _, inl now) ↦ rw now.0 (take_slot-Balanced g now.1 vg)
  | inr (_, _, inr later) ↦ rw later.0 (take_slot-Balanced w.gate (p later.1) vw)
]

-- Acquire and Release keep the in-flight counter equal to the tokens held, and the tokens within the
-- capacity, if the environment frees a waiting send only where there is room.
pub acquire-Balanced :
    (kind : Kind) (fuel : ℕ) (t : Option Tracker) (xs : List ℕ) (g : Gate) (w : Wait)
    → Ready g w fuel t xs
    → Balanced g
    → Balanced w.gate
    → Possible w
    → (a : Acquired) × (acquire kind fuel t g w ≡ some a)
      × Balanced a.gate
      × Balanced (release a.gate)
acquire-Balanced kind fuel t xs g w r vg vw p =
    let (a, e, f) = acquire-Fair kind fuel t xs g w r in
    let v = Fair-Balanced g w a f vg vw p in (a, e, v, release-Balanced a.gate v)
