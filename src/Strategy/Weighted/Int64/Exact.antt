-- ===== src/Strategy/Weighted/Int64/Exact.antt =====
-- While the credits are small, no sum of a pick wraps around: it is the pick over the integers.
use s5lb.Base.{
  Option, ℕ, ◌+◌, ◌*◌, ◌^◌, ◌≤◌, ◌<◌, ◌≡◌, refl, ap, ◌∙◌, inl, inr, ◌||◌, if-elim, Bool-cases,
  String, str_eq, List, [], ◌∷◌, lookup, put, All, All-imp, arith, ℤ, pos, negsuc, ltb_ℤ, pos_part,
  neg_part, ◌+ℤ◌, ◌-ℤ◌,
}
use s5lb.Config.Names.{one_of}
use s5lb.Upstream.{Snapshot}
use s5lb.Strategy.{skips}
use s5lb.Strategy.Weighted.{Credits, credit, ids, prune, weight_of}
use s5lb.Strategy.Weighted
use s5lb.Strategy.Weighted.Credits.{total_of}
use s5lb.Strategy.Weighted.Int64.{int64, Scan, add_credit, scan, settle, pick}

abbrev pub Within : ℕ → ℤ → Type 0
Within n c = (pos_part c ≤ n) × (neg_part c ≤ n)

abbrev pub Small : ℕ → Credits → Type 0
Small n m = All (λ (p : String × ℤ). Within n p.1) m

int64-Within : (n : ℕ) (c : ℤ) → Within n c → n < 2 ^ 63 → int64 c ≡ c
unfolding int64 ◌-ℤ◌
int64-Within n (pos k) w h = ground arith
int64-Within n (negsuc k) w h = ground arith

credit-Within : (n : ℕ) (id : String) (m : Credits) → Small n m → Within n (credit id m)
unfolding lookup
credit-Within n id [] small = (omega arith, omega arith)
credit-Within n id ((k, c) ∷ m) (w, small) =
    if-elim (λ (o : Option ℤ). Within n (Weighted.or_zero o)) (str_eq k id) _ _ (λ h. w)
      (λ h. credit-Within n id m small)

put-Small :
    (n : ℕ) (id : String) (c : ℤ) (m : Credits) → Within n c → Small n m → Small n (put id c m)
unfolding put
put-Small n id c [] w small = (w, tt)
put-Small n id c ((k, x) ∷ m) w (wx, small) =
    if-elim (Small n) (str_eq k id) _ _ (λ h. (w, small)) (λ h. (wx, put-Small n id c m w small))

prune-Small : (n : ℕ) (active : List String) (m : Credits) → Small n m → Small n (prune active m)
unfolding prune
prune-Small n active [] small = tt
prune-Small n active ((k, x) ∷ m) (w, small) =
    if-elim (Small n) (one_of k active) _ _ (λ h. (w, prune-Small n active m small))
      (λ h. prune-Small n active m small)

Small-more : (n k : ℕ) (m : Credits) → n ≤ k → Small n m → Small k m
Small-more n k m h = All-imp m (λ p (a, b). (omega arith, omega arith))

-- The same variables, with the total as an int64.
abbrev pub as_int : Weighted.Scan → Scan
as_int b = record {
  current = b.current;
  total = pos b.total;
  best_id = b.best_id;
  best_cur = b.best_cur;
}

-- Every credit has grown by the total at most.
abbrev Grown : ℕ → Weighted.Scan → Type 0
Grown n b = Small (n + b.total) b.current × Within (n + b.total) b.best_cur

plus-Within : (n m w : ℕ) (c : ℤ) → Within n c → n + w ≤ m → Within m (c +ℤ pos w)
unfolding ◌+ℤ◌
plus-Within n m w (pos k) h le = (ground arith, ground arith)
plus-Within n m w (negsuc k) h le = (ground arith, ground arith)

minus-Within : (n m w : ℕ) (c : ℤ) → Within n c → n + w ≤ m → Within m (c -ℤ pos w)
unfolding ◌-ℤ◌
minus-Within n m w (pos k) h le = (ground arith, ground arith)
minus-Within n m w (negsuc k) h le = (ground arith, ground arith)

plus_pos : (a b : ℕ) → pos a +ℤ pos b ≡ pos (a + b)
unfolding ◌+ℤ◌
plus_pos a b = ground arith

int64_total : (a b : ℕ) → a + b < 2 ^ 63 → int64 (pos a +ℤ pos b) ≡ pos (a + b)
int64_total a b h =
    ap int64 (plus_pos a b) ∙ int64-Within (a + b) (pos (a + b)) (omega arith, omega arith) h

add_credit-as_int :
    (n : ℕ) (u : Snapshot) (b : Weighted.Scan)
    → Grown n b
    → n + b.total + weight_of u < 2 ^ 63
    → (add_credit u (as_int b) ≡ as_int (Weighted.add_credit u b))
      × Grown n (Weighted.add_credit u b)
      × ((Weighted.add_credit u b).total ≡ b.total + weight_of u)
unfolding add_credit Weighted.add_credit
add_credit-as_int n u b (small, best) h =
    let cur = credit u.id b.current +ℤ pos (weight_of u) in
    let w : Within (n + (b.total + weight_of u)) cur =
      plus-Within (n + b.total) (n + (b.total + weight_of u)) (weight_of u) (credit u.id b.current)
        (credit-Within (n + b.total) u.id b.current small) (omega arith) in
    let same : int64 cur ≡ cur = int64-Within (n + (b.total + weight_of u)) cur w (omega arith) in
    let total = int64_total b.total (weight_of u) (omega arith) in
    let paid =
      put-Small (n + (b.total + weight_of u)) u.id cur b.current w
        (Small-more (n + b.total) (n + (b.total + weight_of u)) b.current (omega arith) small) in
    elim (Bool-cases (str_eq b.best_id "" || ltb_ℤ b.best_cur cur)) [
      | inl g ↦ rw (same, total, g) (refl, (paid, w), refl)
      | inr g ↦ rw (same, total, g) (refl, (paid, (omega arith, omega arith)), refl)
    ]

scan-as_int :
    (n max_per : ℕ) (pool : List Snapshot) (b : Weighted.Scan)
    → Grown n b
    → n + b.total + total_of pool < 2 ^ 63
    → let r = Weighted.scan max_per pool b in
      (scan max_per pool (as_int b) ≡ as_int r) × Grown n r × (r.total ≤ b.total + total_of pool)
unfolding scan Weighted.scan
scan-as_int n max_per [] b grown h = (refl, grown, omega arith)
scan-as_int n max_per (u ∷ pool) b grown h = elim (Bool-cases (skips max_per u)) [
  | inl g ↦
      let (same, held, total) = scan-as_int n max_per pool b grown (omega arith) in
      rw (g, Weighted.scan) (same, held, omega (arith, total))
  | inr g ↦
      let (one, next, more) = add_credit-as_int n u b grown (omega arith) in
      let (same, held, total) =
        scan-as_int n max_per pool (Weighted.add_credit u b) next (omega arith) in
      rw (g, Weighted.scan) (ap (scan max_per pool) one ∙ same, held, omega (arith, total, more))
]

-- A pick from credits of at most `n`, where `n` and twice the weights of the pool lie below 2 ^ 63, is
-- the pick over the integers, and its credits have grown by twice the weights at most.
pub pick-Small :
    (n max_per : ℕ) (current : Credits) (pool : List Snapshot)
    → Small n current
    → n + 2 * total_of pool < 2 ^ 63
    → (pick current pool max_per ≡ Weighted.pick current pool max_per)
      × Small (n + 2 * total_of pool) (Weighted.pick current pool max_per).0
unfolding pick Weighted.pick settle Weighted.settle
pick-Small n max_per current pool small h =
    let b = Weighted.start pool current in
    let (same, (held, best), total) =
      scan-as_int n max_per pool b
        (
          Small-more n (n + 0) _ (omega arith) (prune-Small n (ids pool) current small),
          (omega arith, omega arith),
        )
        (omega arith) in
    let r = Weighted.scan max_per pool b in
    let w : Within (n + 2 * total_of pool) (r.best_cur -ℤ pos r.total) =
      minus-Within (n + r.total) (n + 2 * total_of pool) r.total r.best_cur best (omega arith) in
    let paid : int64 (r.best_cur -ℤ pos r.total) ≡ r.best_cur -ℤ pos r.total =
      int64-Within (n + 2 * total_of pool) (r.best_cur -ℤ pos r.total) w h in
    let kept : Small (n + 2 * total_of pool) r.current =
      Small-more (n + r.total) (n + 2 * total_of pool) r.current (omega arith) held in
    elim (Bool-cases (str_eq r.best_id "")) [
      | inl g ↦ (ap settle same ∙ rw g refl, rw g kept)
      | inr g ↦ (
        ap settle same ∙ rw (g, paid) refl,
        rw g (
            put-Small (n + 2 * total_of pool) r.best_id (r.best_cur -ℤ pos r.total) r.current w
              kept),
      )
    ]
