-- ===== src/Admission/Tests.antt =====
-- The laws of the tracker and the gate with two sessions.
use s5lb.Base.{ℕ, ◌≡◌, refl, false, [], ◌∷◌, none, some, arith, pos, ◌+ℤ◌, if◌then◌else◌, ◌==◌}
use s5lb.Admission.Tracker.{Session, Tracker, add, release}
use s5lb.Admission.Tracker.Chain.{Tracks}
use s5lb.Admission.Tracker.Add.{add-Tracks}
use s5lb.Admission.Tracker.Release.{release-Tracks}
use s5lb.Admission.Tracker.Victims.{victim_from_session, pick_lowest_priority_victim}
use s5lb.Admission.Tracker.Victims.Laws.{pick_lowest_priority_victim-Tracks, Evicted}
use s5lb.Admission.Gate.{Gate, new, drops_oldest, Wait, freed, take_slot, acquire, Acquired}
use s5lb.Admission.Gate.Laws.{Fair, Balanced, acquire-Fair}

-- Session 1 is on a less important upstream than every other.
abbrev session_of : ℕ → Session
session_of x = record {
  conn = some x;
  upstream_id = "up";
  upstream_prio = if x == 1 then pos 9 else pos 2;
  admitted_at = 100;
  prev = none;
  next = none;
  released = false;
}

abbrev nobody : Tracker
nobody = record { store = session_of; head = none; tail = none; count = 0 }

abbrev one : Tracker
one = add nobody 0

abbrev two : Tracker
two = add one 1

nobody-Tracks : Tracks nobody []
nobody-Tracks = record { linked = (refl, refl); distinct = tt; counted = refl }

one-Tracks : Tracks one (0 ∷ [])
one-Tracks = add-Tracks nobody 0 [] nobody-Tracks tt

two-Tracks : Tracks two (0 ∷ 1 ∷ [])
two-Tracks = add-Tracks one 1 (0 ∷ []) one-Tracks ((λ e. omega arith), tt)

add-Tracks_example : Tracks (add two 5) (0 ∷ 1 ∷ 5 ∷ [])
add-Tracks_example =
    add-Tracks two 5 (0 ∷ 1 ∷ []) two-Tracks ((λ e. omega arith), ((λ e. omega arith), tt))

release-Tracks_example :
    Tracks (release two 0) (1 ∷ []) × (release (release two 0) 0 ≡ release two 0)
release-Tracks_example = release-Tracks two 0 [] (1 ∷ []) two-Tracks

pick_lowest_priority_victim-Tracks_example :
    (v : ℕ) × (pick_lowest_priority_victim 3 two ≡ some (some (victim_from_session (two.store v))))
    × Evicted two.store 0 (1 ∷ []) v
pick_lowest_priority_victim-Tracks_example =
    pick_lowest_priority_victim-Tracks 3 two 0 (1 ∷ []) two-Tracks (omega arith)

abbrev full : Gate
full = take_slot (new 1)

-- The evicted session frees its slot, and the wait ends.
abbrev freed_later : Wait
freed_later = record { gate = new 1; wake = freed; canceled = false }

full-Balanced : Balanced full
full-Balanced = unfold take_slot new ◌+ℤ◌ in record { in_flight = refl; bounded = omega arith }

acquire-Fair_example :
    (a : Acquired) × (acquire drops_oldest 3 (some two) full freed_later ≡ some a)
    × Fair full freed_later a
acquire-Fair_example =
    acquire-Fair drops_oldest 3 (some two) (0 ∷ 1 ∷ []) full freed_later (two-Tracks, omega arith)

new-Balanced : Balanced (new 1)
new-Balanced = unfold new in record { in_flight = refl; bounded = omega arith }
