-- ===== src/Strategy/Sampled/Laws.antt =====
-- What random returns for every result of the draws, and what the sampling selectors share.
use s5lb.Base.{
  ℕ, ◌<◌, ◌≡◌, refl, ◌≢◌, ◌⊎◌, inl, inr, String, List, [], ◌∷◌, Option, some, arith, length,
  get_elem?, get_elem?_total, All-get_elem?, Any-of_index,
}
use s5lb.Upstream.{Snapshot}
use s5lb.Strategy.{
  CanTake, NoneTakes, Picked, eligible, eligible-CanTake, eligible-Any, eligible-nil,
}
use s5lb.Strategy.Sampled.{id_at, random_of, pick_random}

-- What math/rand/v2 documents: a draw lies below its bound.
abbrev pub InRange : (ℕ → ℕ → ℕ) → Type 0
InRange draw = (k n : ℕ) → 0 < n → draw k n < n

-- The result names an upstream of the pool that can take a session, or is "" when none can.
abbrev pub Sound : ℕ → List Snapshot → Option String → Type 0
Sound max_per pool r =
    ((r ≡ some "") × NoneTakes max_per pool)
    ⊎ ((id : String) × (r ≡ some id) × Picked max_per pool id)

pub Picked-at :
    (pool : List Snapshot) (max_per i : ℕ) (u : Snapshot)
    → get_elem? (eligible pool max_per) i ≡ some u
    → Picked max_per pool u.id
Picked-at pool max_per i u e = eligible-Any _ pool max_per (
    Any-of_index _ (eligible pool max_per) i u e (
      All-get_elem? (CanTake max_per) (eligible pool max_per) i u (eligible-CanTake pool max_per) e,
      refl,
    ))

pub id_at-Sound :
    (pool : List Snapshot) (max_per i : ℕ)
    → i < length (eligible pool max_per)
    → Sound max_per pool (id_at (eligible pool max_per) i)
id_at-Sound pool max_per i h =
    let (u, e) = get_elem?_total (eligible pool max_per) i h in
    inr (u.id, rw (e, id_at), Picked-at pool max_per i u e)

pub List-cases : (xs : List Snapshot) → (xs ≡ []) ⊎ ((0 < length xs) × (xs ≢ []))
List-cases [] = inl refl
List-cases (x ∷ xs) = inr (omega arith, λ e. cc)

random_of_lem :
    (draw : ℕ → ℕ → ℕ) (xs : List Snapshot)
    → 0 < length xs
    → random_of draw xs ≡ id_at xs (draw 0 (length xs))
unfolding random_of
random_of_lem draw [] h = elim h [ ]
random_of_lem draw (x ∷ xs) h = refl

-- random: the draw picks some eligible upstream, and the index is never out of range.
pub pick_random_lem :
    (draw : ℕ → ℕ → ℕ) (pool : List Snapshot) (max_per : ℕ)
    → InRange draw
    → Sound max_per pool (pick_random draw pool max_per)
unfolding pick_random
pick_random_lem draw pool max_per ok = elim (List-cases (eligible pool max_per)) [
  | inl e ↦ inl (rw (e, random_of), eligible-nil pool max_per e)
  | inr h ↦
      rw (random_of_lem draw (eligible pool max_per) h.0)
        (id_at-Sound pool max_per (draw 0 (length (eligible pool max_per))) (ok 0 _ h.0))
]
