-- ===== src/Balancer/Frontend/Steps.antt =====
-- The accept loop and the goroutines of the sessions (balancer.go, Serve), interleaved: the token of
-- the gate and the place in the tracker, from Acquire to the deferred Release calls.
use s5lb.Base.{
  ℕ, ◌+◌, ◌-◌, ◌≤◌, ◌<◌, ◌≡◌, refl, sym, ap, subst, ◌∙◌, true, List, [], ◌∷◌, ◌++◌, length,
  length-append, arith,
}
use s5lb.Admission.Tracker
use s5lb.Admission.Tracker.{Tracker}
use s5lb.Admission.Tracker.Chain.{Tracks, NotIn}
use s5lb.Admission.Tracker.Add.{add-Tracks}
use s5lb.Admission.Tracker.Release.{release-Tracks}
use s5lb.Admission.Gate
use s5lb.Admission.Gate.{Gate, Wait, try_acquire, wait_acquire, take_slot}
use s5lb.Admission.Gate.Laws.{
  Balanced, Possible, take_slot-Balanced, release-Balanced, try_acquire-taken, wait_acquire-taken,
}

-- `live` are the tracked sessions, oldest first; `entering` counts those between Acquire and Add, and
-- `leaving` those between the two deferred calls.
pub record Front : Type 0 where
  pub gate : Gate
  pub tracker : Tracker
  pub live : List ℕ
  pub entering : ℕ
  pub leaving : ℕ

pub data Step : Front → Front → Type 0 where
  acquires :
      (f : Front) (g : Gate)
      → try_acquire f.gate ≡ (g, true)
      → Step f (record f { gate = g; entering = f.entering + 1 })
  waits :
      (f : Front) (w : Wait) (g : Gate)
      → w.gate ≡ f.gate
      → Possible w
      → wait_acquire w ≡ (g, true)
      → Step f (record f { gate = g; entering = f.entering + 1 })
  adds :
      (f : Front) (s : ℕ)
      → 0 < f.entering
      → NotIn s f.live
      → Step f (record f {
        tracker = Tracker.add f.tracker s;
        live = f.live ++ s ∷ [];
        entering = f.entering - 1;
      })
  untracks :
      (f : Front) (s : ℕ) (front behind : List ℕ)
      → f.live ≡ front ++ s ∷ behind
      → Step f (record f {
        tracker = Tracker.release f.tracker s;
        live = front ++ behind;
        leaving = f.leaving + 1;
      })
  releases :
      (f : Front)
      → 0 < f.leaving
      → Step f (record f { gate = Gate.release f.gate; leaving = f.leaving - 1 })

pub data Run : Front → Front → Type 0 where
  here : (f : Front) → Run f f
  next : (f g h : Front) → Run f g → Step g h → Run f h

-- The tracker holds the live sessions, and the gate a token for each session on its way in, live, or on
-- its way out.
pub record Admitted (f : Front) : Type 0 where
  pub tracked : Tracks f.tracker f.live
  pub tokens : f.gate.slots ≡ f.entering + length f.live + f.leaving
  pub balanced : Balanced f.gate

slots-take_slot : (g : Gate) → (take_slot g).slots ≡ g.slots + 1
unfolding take_slot
slots-take_slot g = refl

slots-release : (g : Gate) → (Gate.release g).slots ≡ g.slots - 1
unfolding Gate.release
slots-release g = ground arith

enter-Admitted :
    (f : Front) (g : Gate)
    → g ≡ take_slot f.gate
    → f.gate.slots < f.gate.cap
    → Admitted f
    → Admitted (record f { gate = g; entering = f.entering + 1 })
enter-Admitted f g e room v = record {
  tracked = v.tracked;
  tokens = omega (arith, v.tokens, ap (λ h. h.slots) e, slots-take_slot f.gate);
  balanced = subst Balanced (sym e) (take_slot-Balanced f.gate room v.balanced);
}

Step-Admitted : (f g : Front) → Step f g → Admitted f → Admitted g
Step-Admitted _ _ (acquires f g e) v =
    let (taken, room) = try_acquire-taken f.gate g e in enter-Admitted f g taken room v
Step-Admitted _ _ (waits f w g same room e) v =
    let (taken, freed_now) = wait_acquire-taken w g e in
    enter-Admitted f g (taken ∙ ap take_slot same)
      (subst (λ h. h.slots < h.cap) same (room freed_now)) v
Step-Admitted _ _ (adds f s some_in fresh) v = record {
  tracked = add-Tracks f.tracker s f.live v.tracked fresh;
  tokens = omega (arith, v.tokens, length-append f.live (s ∷ []));
  balanced = v.balanced;
}
Step-Admitted _ _ (untracks f s front behind e) v = record {
  tracked = (release-Tracks f.tracker s front behind (subst (Tracks f.tracker) e v.tracked)).0;
  tokens =
      omega (
        arith,
        v.tokens,
        ap length e,
        length-append front (s ∷ behind),
        length-append front behind,
      );
  balanced = v.balanced;
}
Step-Admitted _ _ (releases f some_out) v = record {
  tracked = v.tracked;
  tokens = omega (arith, v.tokens, slots-release f.gate);
  balanced = release-Balanced f.gate v.balanced;
}

-- From a state in which the tracker holds the live sessions and the gate a token for each session, the
-- accept loop and the sessions' goroutines only reach such states, however they interleave; so there
-- are never more live sessions than the capacity of the gate.
pub Run-Admitted : (f g : Front) → Run f g → Admitted f → Admitted g × (length g.live ≤ g.gate.cap)
Run-Admitted f g run v =
    let kept = along run v in (kept, omega (arith, kept.tokens, kept.balanced.bounded))
  where
    along : {a b : Front} → Run a b → Admitted a → Admitted b
    along (here _) h = h
    along (next a b c before step) h = Step-Admitted b c step (along before h)
