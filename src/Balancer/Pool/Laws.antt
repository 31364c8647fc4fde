-- ===== src/Balancer/Pool/Laws.antt =====
-- How taking and releasing a slot change the active counts.
use s5lb.Base.{
  ℕ, ◌+◌, ◌-◌, ◌≤◌, ◌≡◌, inl, inr, String, str_eq, eq_iff, List, [], ◌∷◌, Option, none, some,
  if◌then◌else◌, arith, Option-cases,
}
use s5lb.Upstream.{State, inc_active, dec_active}
use s5lb.Balancer.Pool.{Member, find, set_state, pick_slot, release_state}

-- The active sessions of the upstream with this ID; 0 where there is none.
abbrev pub count_of : Option Member → ℕ
count_of none = 0
count_of (some m) = m.state.active

abbrev pub active_of : String → List Member → ℕ
active_of id ms = count_of (find id ms)

pub find-set_state :
    (id j : String) (s : State) (ms : List Member) (m : Member)
    → find id ms ≡ some m
    → find j (set_state id s ms)
      ≡ (if str_eq id j then some (record m { state = s }) else find j ms)
unfolding find set_state
find-set_state id j s [] m e = absurd (cc)
find-set_state id j s (x ∷ ms) m e =
    ground (arith, eq_iff x.up.id id, eq_iff x.up.id j, eq_iff id j, find-set_state id j s ms m)

-- A pick that takes a slot takes that of `id`: it adds one session to it, up to the cap, and none to any other upstream.
pub active_of-pick_slot :
    (max_per : ℕ) (id j taken : String) (ms : List Member)
    → (pick_slot max_per id ms).1 ≡ some taken
    → (taken ≡ id)
      × (active_of j (pick_slot max_per id ms).0 ≡ active_of j ms + (if str_eq id j then 1 else 0))
      × (active_of id (pick_slot max_per id ms).0 ≤ max_per)
unfolding pick_slot inc_active
active_of-pick_slot max_per id j taken ms e = elim (Option-cases (find id ms)) [
  | inl missing ↦ absurd (ground (arith, missing))
  | inr (m, found) ↦ (
    ground (arith, found),
    ground
        (arith, found, eq_iff id j, find-set_state id j (inc_active max_per m.state).0 ms m found),
    ground (
      arith,
      found,
      eq_iff id id,
      find-set_state id id (inc_active max_per m.state).0 ms m found,
    ),
  )
]

-- Releasing a slot takes one session from an upstream that has one, and none from any other.
pub active_of-release_state :
    (id j : String) (ms : List Member)
    → active_of j (release_state id ms) ≡ active_of j ms - (if str_eq id j then 1 else 0)
unfolding release_state dec_active
active_of-release_state id j ms = elim (Option-cases (find id ms)) [
  | inl missing ↦ ground (arith, missing, eq_iff id j)
  | inr (m, found) ↦
      ground (arith, found, eq_iff id j, find-set_state id j (dec_active m.state) ms m found)
]

pub pick_slot-refused :
    (max_per : ℕ) (id : String) (ms : List Member)
    → (pick_slot max_per id ms).1 ≡ none
    → (pick_slot max_per id ms).0 ≡ ms
unfolding pick_slot inc_active
pick_slot-refused max_per id ms e = elim (Option-cases (find id ms)) [
  | inl missing ↦ ground (arith, missing)
  | inr (m, found) ↦ ground (arith, found)
]
