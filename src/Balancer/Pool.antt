-- ===== src/Balancer/Pool.antt =====
-- The pool: each upstream with its State, as pick and releaseSlot use it (balancer.go, queue.go). An
-- upstream is found by its ID, which is unique in the pool (setUpstreams refuses duplicates).
pub mod Laws
pub mod Drain
use s5lb.Base.{
  ℕ, Bool, true, false, String, str_eq, List, [], ◌∷◌, Option, none, some, if◌then◌else◌, map,
}
use s5lb.Upstream.{Upstream, State, Snapshot, inc_active, dec_active, snapshot, set_drain}

pub record Member : Type 0 where
  pub up : Upstream
  pub state : State

-- `byID[id]`.
unfoldable pub find : String → List Member → Option Member
find id [] = none
find id (m ∷ ms) = if str_eq m.up.id id then some m else find id ms

-- A write to the State of the upstream with this ID.
unfoldable pub set_state : String → State → List Member → List Member
set_state id s [] = []
set_state id s (m ∷ ms) =
    if str_eq m.up.id id then record m { state = s } ∷ ms else m ∷ set_state id s ms

-- currentPool: the snapshots in pool order.
unfoldable pub current_pool : (Upstream → String) → List Member → List Snapshot
current_pool addr = map (λ m. snapshot addr m.up m.state)

take_member : ℕ → String → List Member → Option Member → List Member × Option String
take_member max_per id ms none = (ms, none)
take_member max_per id ms (some m) =
    let (s, won) = inc_active max_per m.state in
    if won then (set_state id s ms, some id) else (ms, none)

-- pick, after the selector has answered `id`: the slot that was taken, if any.
unfoldable pub pick_slot : ℕ → String → List Member → List Member × Option String
unfolding take_member
pick_slot max_per id ms =
    if str_eq id "" then (ms, none) else take_member max_per id ms (find id ms)

-- The DecActive of releaseSlot.
unfoldable pub release_state : String → List Member → List Member
release_state id ms = elim (find id ms) [
  | none ↦ ms
  | some m ↦ set_state id (dec_active m.state) ms
]

-- DrainUpstream.
unfoldable pub drain_upstream : String → Bool → List Member → List Member × Bool
drain_upstream id drain ms = elim (find id ms) [
  | none ↦ (ms, false)
  | some m ↦ (set_state id (set_drain drain m.state) ms, true)
]

unfoldable pub any_healthy : List Member → Bool
any_healthy [] = false
any_healthy (m ∷ ms) = if m.state.healthy then true else any_healthy ms
