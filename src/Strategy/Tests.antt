-- ===== src/Strategy/Tests.antt =====
-- The selectors on a small pool.
use s5lb.Base.{
  zero, suc, ◌<◌, length, ◌+◌, if◌then◌else◌, str_eq, ℕ, ◌≤◌, ◌≡◌, refl, ◌≢◌, ◌⊎◌, true, false,
  String, eq_iff, List, [], ◌∷◌, none, some, arith, All, Any, pos, negsuc,
}
use s5lb.Upstream.{Snapshot}
use s5lb.Strategy.{CanTake, NoneTakes, Named, SelectCtx, destination_host, hash_input}
use s5lb.Strategy.ConsistentHash
use s5lb.Strategy.ConsistentHash.{hash_of, pick_highest}
use s5lb.Strategy.RoundRobin
use s5lb.Strategy.RoundRobin.{pick-Rotation, Rotation, SlotRefuses, seen}

abbrev member : String → ℕ → Snapshot
member id active = record {
  id = id;
  addr = id;
  weight = pos 2;
  priority = negsuc 0;
  active = active;
  healthy = true;
  draining = false;
  consecutive_failures = 0;
  ewma_latency = 0;
  total_sessions = 0;
  total_failures = 0;
}

abbrev sick : Snapshot
sick = record (member "s" 0) { healthy = false }

abbrev pool : List Snapshot
pool = sick ∷ member "a" 3 ∷ member "b" 1 ∷ member "c" 1 ∷ []

pool-Named : All Named pool
pool-Named = (
  (λ e. ground (arith, eq_iff "s" "")),
  (
    (λ e. ground (arith, eq_iff "a" "")),
    ((λ e. ground (arith, eq_iff "b" "")), ((λ e. ground (arith, eq_iff "c" "")), tt)),
  ),
)

abbrev zeros : ℕ → ℕ → ℕ
zeros k n = 0

abbrev request : SelectCtx
request = record {
  client_addr = none;
  dst_host = "example.org";
  dst_port = 443;
  hash_key = destination_host;
}

-- Hashes that differ: the sum of the bytes, where "c" has the highest byte.
abbrev toy_bytes : String → List ℕ
toy_bytes s = if str_eq s "a" then 1 ∷ [] else if str_eq s "c" then 9 ∷ [] else 4 ∷ []

abbrev total : List ℕ → ℕ
total [] = 0
total (b ∷ bs) = b + total bs

highest_is_c : ConsistentHash.pick total toy_bytes (λ h p. h) request pool 3 ≡ "c"
unfolding ConsistentHash.pick hash_input
highest_is_c = refl

pick_highest_example :
    let id = ConsistentHash.pick total toy_bytes (λ h p. h) request pool 3 in
    ((id ≡ "") × NoneTakes 3 pool)
    ⊎ ((id ≢ "")
        × Any (λ v. CanTake 3 v × (v.id ≡ id)) pool
        × All
            (λ v.
              CanTake 3 v
              → hash_of total toy_bytes (hash_input (λ h p. h) request) v.id
                ≤ hash_of total toy_bytes (hash_input (λ h p. h) request) id)
            pool)
pick_highest_example = pick_highest total toy_bytes (λ h p. h) request pool 3 pool-Named

-- The counter starts at 5, and another pick moves it on before the first Add.
abbrev one_between : ℕ → ℕ
one_between zero = 1
one_between (suc k) = 0

pick-Rotation_example :
    let r = RoundRobin.pick one_between 5 pool 3 in
    ((((j : ℕ) → j < length pool → SlotRefuses pool 3 (seen one_between 5 j))
        × (r.1 ≡ some "")
        × (((i : ℕ) → one_between i ≡ 0) → NoneTakes 3 pool))
      ⊎ Rotation one_between pool 3 4 5 r)
    × (((i : ℕ) → one_between i ≡ 0) → (k : ℕ) → seen one_between 5 k ≡ 5 + k)
pick-Rotation_example =
    pick-Rotation one_between pool 3 5 (omega arith) (unfold seen in omega arith)

-- Without the other pick: slots 1 (full) and 2.
runs : RoundRobin.pick (λ k. 0) 5 pool 3 ≡ (7, some "b")
unfolding RoundRobin.pick
runs = refl

-- Another pick takes the slot of "a" between the two Adds: both find the sick one.
abbrev after_first : ℕ → ℕ
after_first zero = 0
after_first (suc k) = 1

misses : RoundRobin.pick after_first 0 (sick ∷ member "a" 3 ∷ []) 9 ≡ (3, some "")
unfolding RoundRobin.pick
misses = refl
