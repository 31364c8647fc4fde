-- ===== src/Admission/Tracker/Victims.antt =====
-- Sessions, PickOldestVictim and PickLowestPriorityVictim. The loops follow `next` from the head;
-- they take fuel, and `none` means that it ran out. The list's length and one more is enough.
pub mod Laws
use s5lb.Base.{
  ℕ, zero, suc, Bool, true, false, ◌||◌, ◌==◌, if◌then◌else◌, String, str_eq, List, [], ◌∷◌, Option,
  none, some, ℤ, ltb_ℤ,
}
use s5lb.Admission.Tracker.{Session, Tracker}
use s5lb.Admission.Tracker.Chain.{Store}

pub record Victim : Type 0 where
  pub conn : Option ℕ
  pub upstream_id : String
  pub upstream_prio : ℤ
  pub admitted_at : ℕ

unfoldable pub victim_from_session : Session → Victim
victim_from_session s = record {
  conn = s.conn;
  upstream_id = s.upstream_id;
  upstream_prio = s.upstream_prio;
  admitted_at = s.admitted_at;
}

pub record SessionSnapshot : Type 0 where
  pub client_addr : String
  pub upstream_id : String
  pub upstream_prio : ℤ
  pub admitted_at : ℕ

-- `remote` is the text of a connection's RemoteAddr, "" where that is nil.
unfoldable pub session_snapshot : (ℕ → String) → Session → SessionSnapshot
session_snapshot remote s = record {
  client_addr = elim s.conn [ none ↦ "" | some c ↦ remote c ];
  upstream_id = s.upstream_id;
  upstream_prio = s.upstream_prio;
  admitted_at = s.admitted_at;
}

abbrev push : SessionSnapshot → Option (List SessionSnapshot) → Option (List SessionSnapshot)
push x none = none
push x (some xs) = some (x ∷ xs)

snapshots : (ℕ → String) → ℕ → Store → Option ℕ → Option (List SessionSnapshot)
snapshots remote zero st cur = none
snapshots remote (suc fuel) st none = some []
snapshots remote (suc fuel) st (some s) =
    push (session_snapshot remote (st s)) (snapshots remote fuel st (st s).next)

unfoldable pub sessions : (ℕ → String) → ℕ → Tracker → Option (List SessionSnapshot)
unfolding snapshots
sessions remote fuel t = snapshots remote fuel t.store t.head

pick_at : Store → Option ℕ → Option Victim
pick_at st none = none
pick_at st (some s) = some (victim_from_session (st s))

-- `none` is (Victim{}, false).
unfoldable pub pick_oldest_victim : Tracker → Option Victim
unfolding pick_at
pick_oldest_victim t = pick_at t.store t.head

abbrev worse_than : Store → ℕ → Option ℕ → Bool
worse_than st s none = true
worse_than st s (some w) = ltb_ℤ (st w).upstream_prio (st s).upstream_prio

consider : Store → ℕ → Option ℕ → Option ℕ
consider st s worst =
    if str_eq (st s).upstream_id "" then worst else if worse_than st s worst then some s else worst

scan : ℕ → Store → Option ℕ → Option ℕ → Option (Option ℕ)
unfolding consider
scan zero st cur worst = none
scan (suc fuel) st none worst = some worst
scan (suc fuel) st (some s) worst = scan fuel st (st s).next (consider st s worst)

-- Where no session has an upstream, the head.
or_head : Store → Option ℕ → Option ℕ → Option Victim
unfolding pick_at
or_head st head none = pick_at st head
or_head st head (some w) = pick_at st (some w)

lowest : ℕ → Store → Option ℕ → Option (Option Victim)
unfolding scan or_head
lowest fuel st none = some none
lowest fuel st (some h) = elim (scan fuel st (some h) none) [
  | none ↦ none
  | some worst ↦ some (or_head st (some h) worst)
]

unfoldable pub pick_lowest_priority_victim : ℕ → Tracker → Option (Option Victim)
unfolding lowest
pick_lowest_priority_victim fuel t = lowest fuel t.store t.head
