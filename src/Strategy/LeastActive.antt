-- ===== src/Strategy/LeastActive.antt =====
-- internal/strategy/least_active.go: the fewest active sessions, ties broken by reservoir sampling.
use s5lb.Base.{
  ℕ, ◌+◌, ◌≤◌, ◌≡◌, refl, sym, subst, ◌≢◌, ◌⊎◌, inl, inr, true, ◌&&◌, ◌||◌, ◌==◌, if◌then◌else◌,
  String, str_eq, eq_iff, List, [], ◌∷◌, arith, All, Any, ℤ, pos, negsuc, ltb_ℤ, leb_ℤ, pos_part,
}
use s5lb.Upstream.{Snapshot}
use s5lb.Strategy.{CanTake, NoneTakes, Named, skips}

-- The variables of the loop; `best_active` starts at -1.
pub record Best : Type 0 where
  pub best_id : String
  pub best_active : ℤ
  pub tie_count : ℕ

abbrev start : Best
start = record { best_id = ""; best_active = negsuc 0; tie_count = 0 }

-- `draw k n` is the result of rand.IntN(n) in the round `k` of the loop.
consider : (ℕ → ℕ → ℕ) → ℕ → ℕ → Snapshot → Best → Best
consider draw max_per k u b =
    if skips max_per u
    then b
    else if str_eq b.best_id "" || ltb_ℤ (pos u.active) b.best_active
    then record { best_id = u.id; best_active = pos u.active; tie_count = 1 }
    else if leb_ℤ (pos u.active) b.best_active && leb_ℤ b.best_active (pos u.active)
    then record {
      best_id = if draw k (b.tie_count + 1) == 0 then u.id else b.best_id;
      best_active = b.best_active;
      tie_count = b.tie_count + 1;
    }
    else b

scan : (ℕ → ℕ → ℕ) → ℕ → ℕ → Best → List Snapshot → Best
scan draw max_per k b [] = b
scan draw max_per k b (u ∷ pool) = scan draw max_per (k + 1) (consider draw max_per k u b) pool

unfoldable pub pick : (ℕ → ℕ → ℕ) → List Snapshot → ℕ → String
unfolding scan consider
pick draw pool max_per = (scan draw max_per 0 start pool).best_id

-- The count of the best so far, which is not the initial -1.
abbrev IsCount : Best → Type 0
IsCount b = (b.best_active ≡ pos (pos_part b.best_active)) × (b.best_id ≢ "")

abbrev count : Best → ℕ
count b = pos_part b.best_active

module _ (draw : ℕ → ℕ → ℕ) (max_per : ℕ) where
  -- `v` can take a session, is named by the best so far and has its count.
  abbrev IsBest : Best → Snapshot → Type 0
  IsBest r v = CanTake max_per v × (v.id ≡ r.best_id) × (v.active ≡ count r)

  record Improves (b : Best) (u : Snapshot) (r : Best) : Type 0 where
    is_count : IsCount r
    falls : count r ≤ count b
    least : CanTake max_per u → count r ≤ u.active
    origin : ((r.best_id ≡ b.best_id) × (count r ≡ count b)) ⊎ IsBest r u

  consider-Improves :
      (k : ℕ) (u : Snapshot) (b : Best)
      → Named u
      → IsCount b
      → Improves b u (consider draw max_per k u b)
  unfolding consider
  consider-Improves k u b named c = record {
    is_count = ground (arith, eq_iff b.best_id "");
    falls = ground (arith, eq_iff b.best_id "");
    least = ground (arith, eq_iff b.best_id "");
    origin = ground (arith, eq_iff b.best_id "");
  }

  record Beats (b : Best) (pool : List Snapshot) (r : Best) : Type 0 where
    is_count : IsCount r
    falls : count r ≤ count b
    least : All (λ v. CanTake max_per v → count r ≤ v.active) pool
    origin : ((r.best_id ≡ b.best_id) × (count r ≡ count b)) ⊎ Any (IsBest r) pool

  scan-Beats :
      (k : ℕ) (b : Best) (pool : List Snapshot)
      → All Named pool
      → IsCount b
      → Beats b pool (scan draw max_per k b pool)
  unfolding scan
  scan-Beats k b [] named c = record {
    is_count = c;
    falls = omega arith;
    least = tt;
    origin = inl (refl, refl);
  }
  scan-Beats k b (u ∷ pool) named c =
      let one = consider-Improves k u b named.0 c in
      let b' = consider draw max_per k u b in
      let rest = scan-Beats (k + 1) b' pool named.1 one.is_count in
      record {
        is_count = rest.is_count;
        falls = omega (arith, one.falls, rest.falls);
        least = (λ t. omega (arith, one.least t, rest.falls), rest.least);
        origin = ground (arith, one.origin, rest.origin);
      }

  consider_first :
      (k : ℕ) (u : Snapshot)
      → Named u
      → ((skips max_per u ≡ true) × (consider draw max_per k u start ≡ start))
        ⊎ (CanTake max_per u
            × IsCount (consider draw max_per k u start)
            × IsBest (consider draw max_per k u start) u)
  unfolding consider
  consider_first k u named = ground (arith, eq_iff "" "")

  abbrev Outcome : List Snapshot → Best → Type 0
  Outcome pool r =
      ((r.best_id ≡ "") × NoneTakes max_per pool)
      ⊎ ((r.best_id ≢ "")
          × Any (IsBest r) pool
          × All (λ v. CanTake max_per v → count r ≤ v.active) pool)

  scan-Outcome :
      (k : ℕ) (pool : List Snapshot)
      → All Named pool
      → Outcome pool (scan draw max_per k start pool)
  unfolding scan
  scan-Outcome k [] named = inl (refl, tt)
  scan-Outcome k (u ∷ pool) named = elim (consider_first k u named.0) [
    | inl skipped ↦
        subst (λ b. Outcome (u ∷ pool) (scan draw max_per (k + 1) b pool)) (sym skipped.1)
          (elim (scan-Outcome (k + 1) pool named.1) [
            | inl h ↦ inl (h.0, (ground arith, h.1))
            | inr h ↦ inr (h.0, inr h.1, (ground arith, h.2))
          ])
    | inr found ↦
        let rest = scan-Beats (k + 1) (consider draw max_per k u start) pool named.1 found.1 in
        inr (
          rest.is_count.1,
          ground (arith, rest.origin),
          (λ t. omega (arith, rest.falls), rest.least),
        )
  ]

  -- An upstream of the pool that can take a session, with no more active sessions than any other
  -- that can; or "" if none can.
  pub pick_least :
      (pool : List Snapshot)
      → All Named pool
      → let id = pick draw pool max_per in
        ((id ≡ "") × NoneTakes max_per pool)
        ⊎ ((id ≢ "")
            × ((m : ℕ) × Any (λ v. CanTake max_per v × (v.id ≡ id) × (v.active ≡ m)) pool
                × All (λ v. CanTake max_per v → m ≤ v.active) pool))
  unfolding pick
  pick_least pool named = elim (scan-Outcome 0 pool named) [
    | inl h ↦ inl h
    | inr h ↦ inr (h.0, (count (scan draw max_per 0 start pool), h.1, h.2))
  ]
