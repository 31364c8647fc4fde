-- ===== src/Strategy.antt =====
-- internal/strategy: the selectors. A selector reads snapshots of the pool, in pool order, and
-- returns the ID of the upstream to use, or "" for none. base.go is here, each selector in a child.
-- A cap (`maxPer`) below 1 makes every upstream ineligible, as the cap 0 does. What the selectors
-- take from outside the repository (random draws, the FNV hash, float64 arithmetic, net.Addr) are
-- arguments.
pub mod Priority
pub mod LeastActive
pub mod LeastLatency
pub mod ConsistentHash
pub mod RoundRobin
pub mod Sampled
pub mod Weighted
pub mod Registry
mod Tests
use s5lb.Base.{
  ℕ, ◌+◌, ◌≤◌, ◌<◌, ◌≡◌, refl, ◌≢◌, ◌⊎◌, inl, inr, Bool, true, false, not, ◌&&◌, ◌||◌, ltb, leb,
  if◌then◌else◌, String, List, [], ◌∷◌, Option, none, some, arith, All, Any, length, ◌++◌, map,
}
use s5lb.Upstream.{Snapshot}

-- config.HashKey, with every other string as `other_key` (it is treated as client-ip).
pub data HashKey : Type 0 where
  client_ip destination destination_host other_key : HashKey

-- A net.Addr by what the code asks of it: its String(), and what net.SplitHostPort makes of that.
pub record Addr : Type 0 where
  pub text : String
  pub split_host : Option String

pub record SelectCtx : Type 0 where
  pub client_addr : Option Addr
  pub dst_host : String
  pub dst_port : ℕ
  pub hash_key : HashKey

-- The host of the client's address, or the whole text where it does not split.
host_of : Addr → String
host_of a = elim a.split_host [ none ↦ a.text | some host ↦ host ]

client_input : Option Addr → String
unfolding host_of
client_input none = ""
client_input (some a) = host_of a

-- `join` is fmt.Sprintf("%s:%d").
input_by : HashKey → (String → ℕ → String) → SelectCtx → String
unfolding client_input
input_by destination join sc = join sc.dst_host sc.dst_port
input_by destination_host join sc = sc.dst_host
input_by _ join sc = client_input sc.client_addr

unfoldable pub hash_input : (String → ℕ → String) → SelectCtx → String
unfolding input_by
hash_input join sc = input_by sc.hash_key join sc

unfoldable pub eligible : List Snapshot → ℕ → List Snapshot
eligible [] max_per = []
eligible (s ∷ pool) max_per =
    let out = eligible pool max_per in if s.healthy && ltb s.active max_per then s ∷ out else out

-- The `continue` test of the selectors that scan the pool themselves.
abbrev pub skips : ℕ → Snapshot → Bool
skips max_per u = not u.healthy || leb max_per u.active

abbrev pub CanTake : ℕ → Snapshot → Type 0
CanTake max_per u = (u.healthy ≡ true) × (u.active < max_per)

abbrev pub Named : Snapshot → Type 0
Named u = u.id ≢ ""

-- `id` names an upstream of the pool that is healthy and below its cap.
abbrev pub Picked : ℕ → List Snapshot → String → Type 0
Picked max_per pool id = Any (λ u. CanTake max_per u × (u.id ≡ id)) pool

abbrev pub NoneTakes : ℕ → List Snapshot → Type 0
NoneTakes max_per pool = All (λ u. ¬ CanTake max_per u) pool

-- The eligible list holds upstreams of the pool that can take a session.
pub eligible-CanTake :
    (pool : List Snapshot) (max_per : ℕ) → All (CanTake max_per) (eligible pool max_per)
unfolding eligible
eligible-CanTake [] max_per = tt
eligible-CanTake (s ∷ pool) max_per = ground (arith, eligible-CanTake pool max_per)

pub eligible-Any :
    (P : Snapshot → Type 0) (pool : List Snapshot) (max_per : ℕ)
    → Any P (eligible pool max_per)
    → Any P pool
unfolding eligible
eligible-Any P [] max_per h = h
eligible-Any P (s ∷ pool) max_per h = ground (arith, eligible-Any P pool max_per)

pub eligible-nil :
    (pool : List Snapshot) (max_per : ℕ) → eligible pool max_per ≡ [] → NoneTakes max_per pool
unfolding eligible
eligible-nil [] max_per e = tt
eligible-nil (s ∷ pool) max_per e = ground (arith, eligible-nil pool max_per)
