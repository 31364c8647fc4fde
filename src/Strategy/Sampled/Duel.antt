-- ===== src/Strategy/Sampled/Duel.antt =====
-- p2c: the winner of two candidates.
use s5lb.Base.{
  ℕ, ◌+◌, ◌-◌, ◌≤◌, ◌<◌, ◌≡◌, refl, sym, ap, ◌∙◌, ◌≢◌, inl, inr, leb, if◌then◌else◌, String, List,
  [], ◌∷◌, Option, some, arith, length, get_elem?, Bool-cases, get_elem?_total,
}
use s5lb.Upstream.{Snapshot}
use s5lb.Strategy.{eligible, eligible-nil}
use s5lb.Strategy.Sampled.{less_loaded, two_of, pick_p2c}
use s5lb.Strategy.Sampled.Laws.{InRange, Sound, Picked-at}

-- Two candidates at different places, of which the less loaded is returned.
pub record Duel (xs : List Snapshot) (r : Option String) : Type 0 where
  pub winner : Snapshot
  pub loser : Snapshot
  pub i : ℕ
  pub j : ℕ
  pub apart : i ≢ j
  pub winner_at : get_elem? xs i ≡ some winner
  pub loser_at : get_elem? xs j ≡ some loser
  pub lighter : winner.active ≤ loser.active
  pub returned : r ≡ some winner.id

less_loaded-Duel :
    (xs : List Snapshot) (i j : ℕ)
    → i ≢ j
    → i < length xs
    → j < length xs
    → Duel xs (less_loaded (get_elem? xs i) (get_elem? xs j))
unfolding less_loaded
less_loaded-Duel xs i j ne hi hj =
    let (a, ea) = get_elem?_total xs i hi in
    let (b, eb) = get_elem?_total xs j hj in
    elim (Bool-cases (leb a.active b.active)) [
      | inl le ↦ record {
        winner = a;
        loser = b;
        i = i;
        j = j;
        apart = ne;
        winner_at = ea;
        loser_at = eb;
        lighter = ground arith;
        returned = rw (ea, eb, less_loaded, le);
      }
      | inr gt ↦ record {
        winner = b;
        loser = a;
        i = j;
        j = i;
        apart = λ e. ne (sym e);
        winner_at = eb;
        loser_at = ea;
        lighter = ground arith;
        returned = rw (ea, eb, less_loaded, gt);
      }
    ]

two_of-Duel :
    (draw : ℕ → ℕ → ℕ) (xs : List Snapshot)
    → InRange draw
    → 1 < length xs
    → Duel xs (two_of draw xs)
unfolding two_of
two_of-Duel draw [] ok h = elim h [ ]
two_of-Duel draw (c ∷ []) ok h = absurd (omega arith)
two_of-Duel draw (c ∷ d ∷ xs) ok h =
    let n = length (c ∷ d ∷ xs) in
    less_loaded-Duel (c ∷ d ∷ xs) (draw 0 n) (other (draw 0 n) (draw 1 (n - 1))) (ground arith)
      (ok 0 n (omega arith)) (ground (arith, ok 0 n, ok 1 (n - 1)))
  where
    other : ℕ → ℕ → ℕ
    other i j = if leb i j then j + 1 else j

two_of-Sound :
    (draw : ℕ → ℕ → ℕ) (pool : List Snapshot) (max_per : ℕ) (xs : List Snapshot)
    → eligible pool max_per ≡ xs
    → InRange draw
    → Sound max_per pool (two_of draw xs)
unfolding two_of
two_of-Sound draw pool max_per [] e ok = inl (refl, eligible-nil pool max_per e)
two_of-Sound draw pool max_per (c ∷ []) e ok =
    inr (c.id, refl, Picked-at pool max_per 0 c (ap (λ l. get_elem? l 0) e))
two_of-Sound draw pool max_per (c ∷ d ∷ xs) e ok =
    let duel = two_of-Duel draw (c ∷ d ∷ xs) ok (omega arith) in
    inr (
      duel.winner.id,
      duel.returned,
      Picked-at pool max_per duel.i duel.winner (ap (λ l. get_elem? l duel.i) e ∙ duel.winner_at),
    )

-- p2c: an eligible upstream; of two or more, one that beats another at a different place of the
-- eligible list, having no more active sessions than it. No index is out of range.
pub pick_p2c_lem :
    (draw : ℕ → ℕ → ℕ) (pool : List Snapshot) (max_per : ℕ)
    → InRange draw
    → Sound max_per pool (pick_p2c draw pool max_per)
      × (1 < length (eligible pool max_per)
          → Duel (eligible pool max_per) (pick_p2c draw pool max_per))
unfolding pick_p2c
pick_p2c_lem draw pool max_per ok =
    (two_of-Sound draw pool max_per _ refl ok, two_of-Duel draw (eligible pool max_per) ok)
