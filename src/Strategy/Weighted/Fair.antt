-- ===== src/Strategy/Weighted/Fair.antt =====
-- The share of each upstream under the weighted round robin over the integers, while all can take
-- sessions.
use s5lb.Base.{
  ℕ, suc, ◌+◌, ◌*◌, ◌≤◌, ◌<◌, ◌≡◌, refl, sym, ap, ◌∙◌, subst, ◌⊎◌, ltb, negsuc, inl, inr, false,
  Bool-cases, String, str_eq, eq_iff, List, [], ◌∷◌, lookup, length, All, All-imp, All-zip, arith,
  ℤ, pos, pos_part, neg_part, ◌-ℤ◌, ◌≤ℤ◌,
}
use native.Mathlib.Nat.{suc-mul, mul-suc, lt_of_mul-lt-mul_left}
use s5lb.Upstream.{Snapshot}
use s5lb.Strategy.{Named, CanTake}
use s5lb.Strategy.Weighted.{Credits, credit, weight_of, pick}
use s5lb.Strategy.Weighted.Laws.{Apart, add_parts, sub_parts}
use s5lb.Strategy.Weighted.Highest.{raised}
use s5lb.Strategy.Weighted.Credits.{total_of, settled, pick-Turn}
use s5lb.Strategy.Weighted.Counts.{
  shape, weights, times, all_times, shape-total, All-shape, shape-All, behind-sum, times_present,
  times-exact,
}

-- A pick for each of the pools, the last one first.
unfoldable pub turns : ℕ → List (List Snapshot) → Credits → List String → Credits × List String
turns max_per [] current h = (current, h)
turns max_per (pool ∷ pools) current h =
    let r = pick current pool max_per in turns max_per pools r.0 (r.1 ∷ h)

-- The credit of an upstream is its weight for each pick less the total for each pick of it, and its debt
-- is less than the total.
abbrev Kept : ℕ → Credits → List String → String × ℕ → Type 0
Kept total current h (id, w) =
    (pos_part (credit id current) + total * times id h
      ≡ length h * w + neg_part (credit id current))
    × (neg_part (credit id current) < total)

abbrev Inv : List (String × ℕ) → Credits → List String → Type 0
Inv ws current h = All (Kept (weights ws) current h) ws × (all_times ws h ≡ length h)

parts : (a : ℤ) → (pos_part a ≡ 0) ⊎ (neg_part a ≡ 0)
parts (pos n) = inr refl
parts (negsuc n) = inl refl

-- The highest raised credit is above zero.
top_positive :
    (current : Credits) (h : List String) (pool : List Snapshot) (top : ℤ)
    → Inv (shape pool) current h
    → 0 < weights (shape pool)
    → All (λ v. raised current v ≤ℤ top) pool
    → neg_part top < pos_part top
top_positive current h pool top (kept, count) some below =
    elim (Bool-cases (ltb (neg_part top) (pos_part top))) [
      | inl e ↦ ground (arith, e)
      | inr e ↦
          let behind = behind-sum (weights (shape pool)) (suc (length h)) h (shape pool) (
            shape-All _ pool (
              All-imp pool
                (λ v (k, b).
                  omega (arith, k.0, b, add_parts (credit v.id current) (pos (weight_of v)), low e))
                (All-zip _ _ pool (All-shape _ pool kept) below))) in
          absurd (
            omega (
              arith,
              behind,
              ap (λ n. weights (shape pool) * n) count,
              suc-mul (length h) (weights (shape pool)),
              some,
            ))
    ]
  where
    low : ltb (neg_part top) (pos_part top) ≡ false → pos_part top ≤ neg_part top
    low e = ground (arith, e)

Kept-next :
    (current next : Credits) (h : List String) (pool : List Snapshot) (id : String) (top : ℤ)
    (v : Snapshot)
    → neg_part top < pos_part top
    → (v.id ≡ id → raised current v ≡ top)
    → Kept (total_of pool) current h (v.id, weight_of v)
    → credit v.id next ≡ settled current pool id v
    → Kept (total_of pool) next (id ∷ h) (v.id, weight_of v)
unfolding times
Kept-next current next h pool id top v high same (sum, debt) now =
    let added = add_parts (credit v.id current) (pos (weight_of v)) in
    elim (Bool-cases (str_eq v.id id)) [
      | inl e ↦
          let is_top = same (ground (arith, e, eq_iff v.id id)) in
          let paid : credit v.id next ≡ raised current v -ℤ pos (total_of pool) = now ∙ rw e refl in
          let taken = sub_parts (raised current v) (pos (total_of pool)) in
          rw (paid, e)
            (
              omega (arith, sum, added, taken),
              ground (
                arith,
                parts (raised current v -ℤ pos (total_of pool)),
                taken,
                high,
                debt,
                ap pos_part is_top,
                ap neg_part is_top,
              ),
            )
      | inr e ↦
          let rest : credit v.id next ≡ raised current v = now ∙ rw e refl in
          rw (rest, e)
            (omega (arith, sum, added), ground (arith, parts (raised current v), added, debt))
    ]

-- A pool of these IDs and weights in which every upstream can take a session.
abbrev pub Offers : ℕ → List (String × ℕ) → List Snapshot → Type 0
Offers max_per ws pool =
    (shape pool ≡ ws) × All Named pool × Apart pool × All (CanTake max_per) pool

pick-Inv :
    (max_per : ℕ) (current : Credits) (h : List String) (pool : List Snapshot)
    → All Named pool
    → Apart pool
    → All (CanTake max_per) pool
    → 0 < weights (shape pool)
    → Inv (shape pool) current h
    → let r = pick current pool max_per in Inv (shape pool) r.0 (r.1 ∷ h)
pick-Inv max_per current h pool named apart can some (kept, count) =
    let r = pick current pool max_per in
    let sum = shape-total pool in
    let (_, present, (top, below, same), now) =
      pick-Turn current pool max_per named apart can (omega (arith, some, sum)) in
    let high = top_positive current h pool top (kept, count) some below in
    (
      shape-All _ pool (
          All-imp pool
            (λ v (k, (s, c)).
              subst (λ t. Kept t r.0 (r.1 ∷ h) (v.id, weight_of v)) (sym sum)
                (Kept-next current r.0 h pool r.1 top v high s
                  (subst (λ t. Kept t current h (v.id, weight_of v)) sum k) c))
            (All-zip _ _ pool (All-shape _ pool kept) (All-zip _ _ pool same now))),
      omega (arith, times_present r.1 h pool apart present, count),
    )

turns-Inv :
    (max_per : ℕ) (ws : List (String × ℕ)) (pools : List (List Snapshot)) (current : Credits)
    (h : List String)
    → All (Offers max_per ws) pools
    → 0 < weights ws
    → Inv ws current h
    → Inv ws (turns max_per pools current h).0 (turns max_per pools current h).1
      × (length (turns max_per pools current h).1 ≡ length pools + length h)
unfolding turns
turns-Inv max_per ws [] current h offers some inv = (inv, omega arith)
turns-Inv max_per ws (pool ∷ pools) current h ((same, named, apart, can), offers) some inv =
    let r = pick current pool max_per in
    let next : Inv ws r.0 (r.1 ∷ h) =
      subst (λ z. Inv z r.0 (r.1 ∷ h)) same
        (pick-Inv max_per current h pool named apart can
          (subst (λ z. 0 < weights z) (sym same) some)
          (subst (λ z. Inv z current h) (sym same) inv)) in
    let (held, count) = turns-Inv max_per ws pools r.0 (r.1 ∷ h) offers some next in
    (held, omega (arith, count))

start-Kept : (total : ℕ) (ws : List (String × ℕ)) → 0 < total → All (Kept total [] []) ws
unfolding times lookup
start-Kept total [] some = tt
start-Kept total ((id, w) ∷ ws) some =
    ((omega arith, omega (arith, some)), start-Kept total ws some)

start-count : (ws : List (String × ℕ)) → all_times ws [] ≡ 0
unfolding times
start-count [] = refl
start-count ((id, w) ∷ ws) = omega (arith, start-count ws)

-- However many sessions are opened, no upstream has been picked a whole time more than its weight's
-- share of them. This starts without credits and holds while all upstreams of the pool, which keeps
-- its IDs and weights, can take sessions.
pub turns_ahead :
    (max_per : ℕ) (ws : List (String × ℕ)) (pools : List (List Snapshot))
    → All (Offers max_per ws) pools
    → 0 < weights ws
    → All
        (λ (p : String × ℕ).
          weights ws * times p.0 (turns max_per pools [] []).1 < length pools * p.1 + weights ws)
        ws
turns_ahead max_per ws pools offers some =
    let (held, count) =
      turns-Inv max_per ws pools [] [] offers some
        (start-Kept (weights ws) ws some, start-count ws) in
    All-imp ws (λ p k. omega (arith, k.0, k.1, ap (λ n. n * p.1) count)) held.0

-- In as many sessions as the sum of the weights, each upstream is picked exactly as often as its weight
-- says, and the credits are back at zero.
pub turns_cycle :
    (max_per : ℕ) (ws : List (String × ℕ)) (pools : List (List Snapshot))
    → All (Offers max_per ws) pools
    → 0 < weights ws
    → length pools ≡ weights ws
    → let r = turns max_per pools [] [] in
      All (λ (p : String × ℕ). (times p.0 r.1 ≡ p.1) × (credit p.0 r.0 ≡ pos 0)) ws
turns_cycle max_per ws pools offers some whole =
    let r = turns max_per pools [] [] in
    let (held, count) =
      turns-Inv max_per ws pools [] [] offers some
        (start-Kept (weights ws) ws some, start-count ws) in
    let cycle : length r.1 ≡ weights ws = omega (arith, count, whole) in
    let exact =
      times-exact r.1 ws
        (All-imp ws
          (λ p k.
            let under : weights ws * times p.0 r.1 < weights ws * suc p.1 =
              omega (arith, k.0, k.1, ap (λ n. n * p.1) cycle, mul-suc (weights ws) p.1) in
            omega (arith, lt_of_mul-lt-mul_left (weights ws) under))
          held.0)
        (held.1 ∙ cycle) in
    All-imp ws
      (λ p (e, k). (
        e,
        zero_of (credit p.0 r.0)
            (omega (arith, k.0, ap (λ n. n * p.1) cycle, ap (λ n. weights ws * n) e)),
      ))
      (All-zip _ _ ws exact held.0)
  where
    zero_of : (c : ℤ) → pos_part c ≡ neg_part c → c ≡ pos 0
    zero_of (pos n) e = ap pos e
    zero_of (negsuc n) e = absurd (omega (arith, e))
