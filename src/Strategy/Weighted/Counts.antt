-- ===== src/Strategy/Weighted/Counts.antt =====
-- How often each upstream of a pool was picked, counted over its IDs and weights.
use s5lb.Base.{
  ℕ, ◌+◌, ◌*◌, ◌≤◌, ◌≡◌, refl, subst, ◌≢◌, inl, inr, if◌then◌else◌, String, true, str_eq, eq_iff,
  List, [], ◌∷◌, map, All, Any, arith, str_eq-ne,
}
use s5lb.Upstream.{Snapshot}
use s5lb.Strategy.Weighted.{weight_of}
use s5lb.Strategy.Weighted.Laws.{Apart}
use s5lb.Strategy.Weighted.Credits.{total_of}

-- The IDs of a pool with their weights.
abbrev pub shape : List Snapshot → List (String × ℕ)
shape = map (λ (u : Snapshot). (u.id, weight_of u))

abbrev pub weights : List (String × ℕ) → ℕ
weights [] = 0
weights ((id, w) ∷ ws) = w + weights ws

-- How often an ID was picked.
unfoldable pub times : String → List String → ℕ
times id [] = 0
times id (x ∷ h) = let n = times id h in if str_eq id x then n + 1 else n

abbrev pub all_times : List (String × ℕ) → List String → ℕ
all_times [] h = 0
all_times ((id, w) ∷ ws) h = times id h + all_times ws h

pub shape-total : (pool : List Snapshot) → weights (shape pool) ≡ total_of pool
shape-total [] = refl
shape-total (u ∷ pool) = omega (arith, shape-total pool)

pub All-shape :
    (P : String × ℕ → Type 0) (pool : List Snapshot)
    → All P (shape pool)
    → All (λ (u : Snapshot). P (u.id, weight_of u)) pool
All-shape P [] h = tt
All-shape P (u ∷ pool) h = (h.0, All-shape P pool h.1)

pub shape-All :
    (P : String × ℕ → Type 0) (pool : List Snapshot)
    → All (λ (u : Snapshot). P (u.id, weight_of u)) pool
    → All P (shape pool)
shape-All P [] h = tt
shape-All P (u ∷ pool) h = (h.0, shape-All P pool h.1)

-- If every credit were without a surplus after the raise, the picks would outnumber themselves.
pub behind-sum :
    (total k : ℕ) (h : List String) (ws : List (String × ℕ))
    → All (λ (p : String × ℕ). k * p.1 ≤ total * times p.0 h) ws
    → k * weights ws ≤ total * all_times ws h
behind-sum total k h [] b = omega arith
behind-sum total k h ((id, w) ∷ ws) (b, bs) = omega (arith, b, behind-sum total k h ws bs)

-- No two of the pool have the same ID, so a pick counts once.
pub times_absent :
    (id : String) (h : List String) (pool : List Snapshot)
    → All (λ (v : Snapshot). v.id ≢ id) pool
    → all_times (shape pool) (id ∷ h) ≡ all_times (shape pool) h
unfolding times
times_absent id h [] a = refl
times_absent id h (v ∷ pool) (ne, a) =
    rw (str_eq-ne v.id id ne) (omega (arith, times_absent id h pool a))

none_of :
    (id : String) (pool : List Snapshot)
    → All (λ (v : Snapshot). v.id ≢ id) pool
    → ¬ Any (λ (v : Snapshot). v.id ≡ id) pool
none_of id [] a e = e
none_of id (v ∷ pool) (ne, a) (inl e) = ne e
none_of id (v ∷ pool) (ne, a) (inr e) = none_of id pool a e

pub times_present :
    (id : String) (h : List String) (pool : List Snapshot)
    → Apart pool
    → Any (λ (u : Snapshot). u.id ≡ id) pool
    → all_times (shape pool) (id ∷ h) ≡ all_times (shape pool) h + 1
unfolding times
times_present id h [] a e = absurd e
times_present id h (u ∷ pool) (first, apart) (inl e) =
    let absent =
      times_absent id h pool (subst (λ i. All (λ (v : Snapshot). v.id ≢ i) pool) e first) in
    let same : str_eq u.id id ≡ true = ground (arith, e, eq_iff u.id id) in
    rw same (omega (arith, absent))
times_present id h (u ∷ pool) (first, apart) (inr e) =
    let other : u.id ≢ id =
      λ k. none_of id pool (subst (λ i. All (λ (v : Snapshot). v.id ≢ i) pool) k first) e in
    rw (str_eq-ne u.id id other) (omega (arith, times_present id h pool apart e))

times-le :
    (h : List String) (ws : List (String × ℕ))
    → All (λ (p : String × ℕ). times p.0 h ≤ p.1) ws
    → all_times ws h ≤ weights ws
times-le h [] b = omega arith
times-le h ((id, w) ∷ ws) (b, bs) = omega (arith, b, times-le h ws bs)

-- Numbers below their bounds with the same sum are their bounds.
pub times-exact :
    (h : List String) (ws : List (String × ℕ))
    → All (λ (p : String × ℕ). times p.0 h ≤ p.1) ws
    → all_times ws h ≡ weights ws
    → All (λ (p : String × ℕ). times p.0 h ≡ p.1) ws
times-exact h [] b e = tt
times-exact h ((id, w) ∷ ws) (b, bs) e =
    let rest = times-le h ws bs in
    (omega (arith, b, e, rest), times-exact h ws bs (omega (arith, b, e, rest)))
