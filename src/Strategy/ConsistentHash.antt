-- ===== src/Strategy/ConsistentHash.antt =====
-- internal/strategy/consistent_hash.go: rendezvous hashing, the highest hash among the upstreams
-- that can take a session.
use s5lb.Base.{
  ℕ, ◌≤◌, ◌≡◌, refl, sym, ap, subst, ◌∙◌, ◌≢◌, ◌⊎◌, inl, inr, true, ◌||◌, ltb, if◌then◌else◌,
  String, str_eq, eq_iff, List, [], ◌∷◌, ◌++◌, arith, All, Any, All-imp, Any-imp,
}
use s5lb.Upstream.{Snapshot}
use s5lb.Strategy.{CanTake, NoneTakes, Named, skips, SelectCtx, hash_input}

pub record Best : Type 0 where
  pub best_id : String
  pub best_h : ℕ

abbrev start : Best
start = record { best_id = ""; best_h = 0 }

-- `sum64` is the sum of hash/fnv's New64a after the writes of some bytes, `bytes` the bytes of a text.
unfoldable pub hash_of : (List ℕ → ℕ) → (String → List ℕ) → String → String → ℕ
hash_of sum64 bytes key target = sum64 (bytes key ++ 0 ∷ bytes target)

consider : (String → String → ℕ) → String → ℕ → Snapshot → Best → Best
consider hrw key max_per u b =
    if skips max_per u
    then b
    else let h = hrw key u.id in
      if str_eq b.best_id "" || ltb b.best_h h then record { best_id = u.id; best_h = h } else b

scan : (String → String → ℕ) → String → ℕ → Best → List Snapshot → Best
scan hrw key max_per b [] = b
scan hrw key max_per b (u ∷ pool) = scan hrw key max_per (consider hrw key max_per u b) pool

unfoldable pub pick :
    (List ℕ → ℕ)
    → (String → List ℕ)
    → (String → ℕ → String)
    → SelectCtx
    → List Snapshot
    → ℕ
    → String
unfolding scan consider hash_of
pick sum64 bytes join sc [] max_per = ""
pick sum64 bytes join sc (u ∷ pool) max_per =
    (scan (hash_of sum64 bytes) (hash_input join sc) max_per start (u ∷ pool)).best_id

module _ (hrw : String → String → ℕ) (key : String) (max_per : ℕ) where
  abbrev IsBest : Best → Snapshot → Type 0
  IsBest r v = CanTake max_per v × (v.id ≡ r.best_id) × (hrw key v.id ≡ r.best_h)

  record Beats (b : Best) (pool : List Snapshot) (r : Best) : Type 0 where
    named : r.best_id ≢ ""
    grows : b.best_h ≤ r.best_h
    greatest : All (λ v. CanTake max_per v → hrw key v.id ≤ r.best_h) pool
    origin : (r ≡ b) ⊎ Any (IsBest r) pool

  consider-Beats :
      (u : Snapshot) (b : Best)
      → Named u
      → b.best_id ≢ ""
      → Beats b (u ∷ []) (consider hrw key max_per u b)
  unfolding consider
  consider-Beats u b n c = record {
    named = ground (arith, eq_iff b.best_id "");
    grows = ground (arith, eq_iff b.best_id "");
    greatest = ground (arith, eq_iff b.best_id "");
    origin = ground (arith, eq_iff b.best_id "");
  }

  scan-Beats :
      (b : Best) (pool : List Snapshot)
      → All Named pool
      → b.best_id ≢ ""
      → Beats b pool (scan hrw key max_per b pool)
  unfolding scan
  scan-Beats b [] n c = record { named = c; grows = omega arith; greatest = tt; origin = inl refl }
  scan-Beats b (u ∷ pool) n c =
      let one = consider-Beats u b n.0 c in
      let rest = scan-Beats (consider hrw key max_per u b) pool n.1 one.named in
      record {
        named = rest.named;
        grows = omega (arith, one.grows, rest.grows);
        greatest = (λ t. omega (arith, one.greatest.0 t, rest.grows), rest.greatest);
        origin = ground (arith, one.origin, rest.origin);
      }

  consider_first :
      (u : Snapshot)
      → Named u
      → ((skips max_per u ≡ true) × (consider hrw key max_per u start ≡ start))
        ⊎ (CanTake max_per u × IsBest (consider hrw key max_per u start) u)
  unfolding consider
  consider_first u n = ground (arith, eq_iff "" "")

  abbrev Outcome : List Snapshot → Best → Type 0
  Outcome pool r =
      ((r.best_id ≡ "") × NoneTakes max_per pool)
      ⊎ ((r.best_id ≢ "")
          × Any (IsBest r) pool
          × All (λ v. CanTake max_per v → hrw key v.id ≤ r.best_h) pool)

  scan-Outcome :
      (pool : List Snapshot) → All Named pool → Outcome pool (scan hrw key max_per start pool)
  unfolding scan
  scan-Outcome [] n = inl (refl, tt)
  scan-Outcome (u ∷ pool) n = elim (consider_first u n.0) [
    | inl skipped ↦
        subst (λ b. Outcome (u ∷ pool) (scan hrw key max_per b pool)) (sym skipped.1)
          (elim (scan-Outcome pool n.1) [
            | inl h ↦ inl (h.0, (ground arith, h.1))
            | inr h ↦ inr (h.0, inr h.1, (ground arith, h.2))
          ])
    | inr found ↦
        let b = consider hrw key max_per u start in
        let rest = scan-Beats b pool n.1 (ground (arith, n.0)) in
        inr (
          rest.named,
          ground (arith, rest.origin),
          (λ t. omega (arith, rest.grows, found.1.2), rest.greatest),
        )
  ]

  best_h_of_Any :
      (pool : List Snapshot) (r : Best) → Any (IsBest r) pool → r.best_h ≡ hrw key r.best_id
  best_h_of_Any [] r h = absurd h
  best_h_of_Any (u ∷ pool) r (inl h) = sym h.2 ∙ ap (hrw key) h.1
  best_h_of_Any (u ∷ pool) r (inr h) = best_h_of_Any pool r h

-- The pick is an upstream that can take a session, and no other such one has a higher hash with the
-- request's key; it is "" exactly when none can. Here the upstreams have IDs that are not empty.
pub pick_highest :
    (sum64 : List ℕ → ℕ) (bytes : String → List ℕ) (join : String → ℕ → String) (sc : SelectCtx)
    (pool : List Snapshot) (max_per : ℕ)
    → All Named pool
    → let id = pick sum64 bytes join sc pool max_per in
      ((id ≡ "") × NoneTakes max_per pool)
      ⊎ ((id ≢ "")
          × Any (λ v. CanTake max_per v × (v.id ≡ id)) pool
          × All
              (λ v.
                CanTake max_per v
                → hash_of sum64 bytes (hash_input join sc) v.id
                  ≤ hash_of sum64 bytes (hash_input join sc) id)
              pool)
unfolding pick
pick_highest sum64 bytes join sc [] max_per named = inl (refl, tt)
pick_highest sum64 bytes join sc (u ∷ pool) max_per named =
    let key = hash_input join sc in
    let hrw : String → String → ℕ = hash_of sum64 bytes in
    let r = scan hrw key max_per start (u ∷ pool) in
    elim (scan-Outcome hrw key max_per (u ∷ pool) named) [
      | inl h ↦ inl h
      | inr h ↦
          let same = best_h_of_Any hrw key max_per (u ∷ pool) r h.1 in
          inr (
            h.0,
            Any-imp (u ∷ pool) (λ v b. (b.0, b.1)) h.1,
            All-imp (u ∷ pool) (λ v g t. omega (arith, g t, same)) h.2,
          )
    ]
