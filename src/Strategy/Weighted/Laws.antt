-- ===== src/Strategy/Weighted/Laws.antt =====
-- What a pick of the weighted round robin (wrr.go) does to the credits, and whom it picks.
use s5lb.Base.{
  ℕ, ◌+◌, ◌≡◌, refl, sym, ap, ◌∙◌, ◌≢◌, inl, inr, ◌||◌, if-elim, Bool-cases, String, str_eq, eq_iff,
  List, [], ◌∷◌, lookup, put, lookup-put, lookup-put_other, All, arith, ℤ, pos, ltb_ℤ, pos_part,
  neg_part, ◌+ℤ◌, ◌-ℤ◌,
}
use s5lb.Upstream.{Snapshot}
use s5lb.Strategy.{skips, Named}
use s5lb.Strategy.Weighted.{
  Credits, credit, or_zero, ids, prune, weight_of, Scan, add_credit, scan, settle, start, pick,
}

pub add_parts :
    (a b : ℤ)
    → pos_part (a +ℤ b) + neg_part a + neg_part b ≡ pos_part a + pos_part b + neg_part (a +ℤ b)
unfolding ◌+ℤ◌
add_parts a b = ground arith

pub sub_parts :
    (a b : ℤ)
    → pos_part (a -ℤ b) + neg_part a + pos_part b ≡ pos_part a + neg_part b + neg_part (a -ℤ b)
unfolding ◌-ℤ◌
sub_parts a b = ground arith

-- The positive and the negative part of the sum of all credits.
abbrev pub owed : Credits → ℕ
owed [] = 0
owed ((id, c) ∷ rest) = pos_part c + owed rest

abbrev pub owing : Credits → ℕ
owing [] = 0
owing ((id, c) ∷ rest) = neg_part c + owing rest

owed-put :
    (id : String) (c : ℤ) (m : Credits)
    → owed (put id c m) + pos_part (credit id m) ≡ owed m + pos_part c
unfolding put lookup
owed-put id c [] = omega arith
owed-put id c ((n, x) ∷ m) = elim (Bool-cases (str_eq n id)) [
  | inl h ↦ rw h (omega arith)
  | inr h ↦ rw h (omega (arith, owed-put id c m))
]

owing-put :
    (id : String) (c : ℤ) (m : Credits)
    → owing (put id c m) + neg_part (credit id m) ≡ owing m + neg_part c
unfolding put lookup
owing-put id c [] = omega arith
owing-put id c ((n, x) ∷ m) = elim (Bool-cases (str_eq n id)) [
  | inl h ↦ rw h (omega arith)
  | inr h ↦ rw h (omega (arith, owing-put id c m))
]

-- No two upstreams of the pool have the same ID.
abbrev pub Apart : List Snapshot → Type 0
Apart [] = Unit
Apart (u ∷ pool) = All (λ (v : Snapshot). v.id ≢ u.id) pool × Apart pool

-- In the middle of the loop: the sum has grown by the total, the best upstream's credit is the one
-- remembered, it does not come again, and there is one if any upstream got a credit.
abbrev pub Midway : Credits → List Snapshot → Scan → Type 0
Midway m0 pool b =
    (owed b.current + owing m0 ≡ owed m0 + owing b.current + b.total)
    × (b.best_id ≢ "" → credit b.best_id b.current ≡ b.best_cur)
    × All (λ (v : Snapshot). v.id ≢ b.best_id) pool
    × (b.best_id ≡ "" → b.total ≡ 0)

add_credit-Midway :
    (m0 : Credits) (u : Snapshot) (pool : List Snapshot) (b : Scan)
    → u.id ≢ ""
    → All (λ (v : Snapshot). v.id ≢ u.id) pool
    → Midway m0 (u ∷ pool) b
    → Midway m0 pool (add_credit u b)
unfolding add_credit
add_credit-Midway m0 u pool b named apart (sum, best, (other, others), none_yet) =
    let cur = credit u.id b.current +ℤ pos (weight_of u) in
    let grown : owed (put u.id cur b.current) + owing m0
        ≡ owed m0 + owing (put u.id cur b.current) + (b.total + weight_of u) =
      omega (
        arith,
        sum,
        owed-put u.id cur b.current,
        owing-put u.id cur b.current,
        add_parts (credit u.id b.current) (pos (weight_of u)),
      ) in
    if-elim (Midway m0 pool) (str_eq b.best_id "" || ltb_ℤ b.best_cur cur) _ _
      (λ h. (grown, λ n. ap or_zero (lookup-put u.id cur b.current), apart, λ e. absurd (named e)))
      (λ h. (
        grown,
        λ n.
            ap or_zero (lookup-put_other u.id b.best_id cur b.current (λ k. other (sym k)))
            ∙ best n,
        others,
        λ e. absurd (ground (arith, h, e, eq_iff b.best_id "")),
      ))

pub scan-Midway :
    (m0 : Credits) (max_per : ℕ) (pool : List Snapshot) (b : Scan)
    → All Named pool
    → Apart pool
    → Midway m0 pool b
    → Midway m0 [] (scan max_per pool b)
unfolding scan
scan-Midway m0 max_per [] b named apart held = held
scan-Midway m0 max_per (u ∷ pool) b (name, named) (first, apart) held =
    if-elim (λ (c : Scan). Midway m0 [] (scan max_per pool c)) (skips max_per u) _ _
      (λ h. scan-Midway m0 max_per pool b named apart (held.0, held.1, held.2.1, held.3))
      (λ h.
        scan-Midway m0 max_per pool (add_credit u b) named apart
          (add_credit-Midway m0 u pool b name first held))

settle-sum :
    (m0 : Credits) (b : Scan)
    → Midway m0 [] b
    → b.best_id ≢ ""
    → owed (put b.best_id (b.best_cur -ℤ pos b.total) b.current) + owing m0
      ≡ owed m0 + owing (put b.best_id (b.best_cur -ℤ pos b.total) b.current)
settle-sum m0 b (sum, best, _, _) n =
    let rest = b.best_cur -ℤ pos b.total in
    omega (
      arith,
      sum,
      ap pos_part (best n),
      ap neg_part (best n),
      owed-put b.best_id rest b.current,
      owing-put b.best_id rest b.current,
      sub_parts b.best_cur (pos b.total),
    )

-- A pick conserves the sum of all credits: what is added to the eligible upstreams is taken from the
-- one that is picked. Only the credits of upstreams that left the pool are dropped first. This takes
-- a pool whose IDs are not empty and not repeated.
pub pick-sum :
    (current : Credits) (pool : List Snapshot) (max_per : ℕ)
    → All Named pool
    → Apart pool
    → owed (pick current pool max_per).0 + owing (prune (ids pool) current)
      ≡ owed (prune (ids pool) current) + owing (pick current pool max_per).0
unfolding pick settle
pick-sum current pool max_per named apart =
    let m0 = prune (ids pool) current in
    let held =
      scan-Midway m0 max_per pool (start pool current) named apart
        (omega arith, λ n. absurd (n refl), named, λ e. refl) in
    let f = scan max_per pool (start pool current) in
    if-elim (λ (r : Credits × String). owed r.0 + owing m0 ≡ owed m0 + owing r.0)
      (str_eq f.best_id "") _ _
      (λ h. omega (arith, held.0, held.3 (ground (arith, h, eq_iff f.best_id ""))))
      (λ h. settle-sum m0 f held (λ e. ground (arith, h, e, eq_iff f.best_id "")))
