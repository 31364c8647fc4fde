-- ===== src/Strategy/Priority.antt =====
-- internal/strategy/priority.go: the first upstream of the pool that can take a session.
use s5lb.Base.{
  ℕ, ◌≡◌, refl, ◌⊎◌, inl, inr, ◌&&◌, ltb, if◌then◌else◌, String, List, [], ◌∷◌, ◌++◌, arith,
  Bool-cases, ap,
}
use s5lb.Upstream.{Snapshot}
use s5lb.Strategy.{CanTake, NoneTakes}

unfoldable pub pick : List Snapshot → ℕ → String
pick [] max_per = ""
pick (u ∷ pool) max_per = if u.healthy && ltb u.active max_per then u.id else pick pool max_per

-- `u` stands in the pool behind upstreams that cannot take a session.
pub record FirstOf (max_per : ℕ) (pool : List Snapshot) (id : String) : Type 0 where
  pub before : List Snapshot
  pub chosen : Snapshot
  pub behind : List Snapshot
  pub splits : pool ≡ before ++ chosen ∷ behind
  pub refused : NoneTakes max_per before
  pub takes : CanTake max_per chosen
  pub named : id ≡ chosen.id

FirstOf-cons :
    (max_per : ℕ) (u : Snapshot) (pool : List Snapshot) (id : String)
    → ¬ CanTake max_per u
    → FirstOf max_per pool id
    → FirstOf max_per (u ∷ pool) id
FirstOf-cons max_per u pool id h f = record {
  before = u ∷ f.before;
  chosen = f.chosen;
  behind = f.behind;
  splits = ap (◌∷◌ u) f.splits;
  refused = (h, f.refused);
  takes = f.takes;
  named = f.named;
}

-- The pick is the first upstream in pool order that is healthy and below its cap, or "" if none is.
pub pick-FirstOf :
    (pool : List Snapshot) (max_per : ℕ)
    → ((pick pool max_per ≡ "") × NoneTakes max_per pool) ⊎ FirstOf max_per pool (pick pool max_per)
unfolding pick
pick-FirstOf [] max_per = inl (refl, tt)
pick-FirstOf (u ∷ pool) max_per = elim (Bool-cases (u.healthy && ltb u.active max_per)) [
  | inl takes ↦ rw takes (
      inr (record {
        before = [];
        chosen = u;
        behind = pool;
        splits = refl;
        refused = tt;
        takes = ground arith;
        named = refl;
      }))
  | inr not_takes ↦ rw not_takes (elim (pick-FirstOf pool max_per) [
    | inl h ↦ inl (h.0, (ground arith, h.1))
    | inr f ↦ inr (FirstOf-cons max_per u pool _ (ground arith) f)
  ])
]
