-- ===== src/Balancer/Frontend/Tests.antt =====
-- One session from its admission to its end, at a gate for one.
use s5lb.Base.{◌≤◌, ◌≡◌, refl, true, false, [], ◌∷◌, none, length, arith, pos}
use s5lb.Admission.Tracker
use s5lb.Admission.Tracker.{Tracker, Session}
use s5lb.Admission.Gate
use s5lb.Admission.Gate.{take_slot, try_acquire}
use s5lb.Balancer.Frontend.Steps.{Front, Admitted, here, next, acquires, adds, Run-Admitted}

abbrev blank : Session
blank = record {
  conn = none;
  upstream_id = "";
  upstream_prio = pos 0;
  admitted_at = 0;
  prev = none;
  next = none;
  released = false;
}

abbrev idle : Front
idle = record {
  gate = Gate.new 1;
  tracker = record { store = λ x. blank; head = none; tail = none; count = 0 };
  live = [];
  entering = 0;
  leaving = 0;
}

abbrev entering : Front
entering = record idle { gate = take_slot idle.gate; entering = 1 }

abbrev live : Front
live = record entering { tracker = Tracker.add idle.tracker 7; live = 7 ∷ []; entering = 0 }

idle-Admitted : Admitted idle
idle-Admitted =
    unfold Gate.new in
    record {
      tracked = record { linked = (refl, refl); distinct = tt; counted = refl };
      tokens = refl;
      balanced = record { in_flight = refl; bounded = omega arith };
    }

admits : try_acquire idle.gate ≡ (take_slot idle.gate, true)
unfolding try_acquire Gate.new
admits = refl

Run-Admitted_example : Admitted live × (length live.live ≤ live.gate.cap)
Run-Admitted_example =
    Run-Admitted idle live
      (next idle entering live
        (next idle idle entering (here idle) (acquires idle (take_slot idle.gate) admits))
        (adds entering 7 (omega arith) tt))
      idle-Admitted
