-- ===== src/Strategy/Weighted/Credits.antt =====
-- What a pick of the weighted round robin (wrr.go) does to each upstream's credit, when every upstream
-- of the pool can take a session.
use s5lb.Base.{
  ℕ, ◌+◌, ◌≡◌, refl, sym, ap, ◌∙◌, subst, ◌≢◌, inl, inr, ◌<◌, ◌≤ℤ◌, Any, Any-imp, str_eq-ne, true,
  ◌||◌, if◌then◌else◌, if-elim, Bool-cases, String, str_eq, eq_iff, List, [], ◌∷◌, lookup, put,
  lookup-put, lookup-put_other, All, All-imp, All-zip, arith, ℤ, pos, ltb_ℤ, ◌+ℤ◌, ◌-ℤ◌,
}
use s5lb.Upstream.{Snapshot}
use s5lb.Config.Names.{one_of}
use s5lb.Strategy.{skips, Named, CanTake}
use s5lb.Strategy.Weighted.{
  Credits, credit, or_zero, ids, prune, weight_of, Scan, add_credit, scan, settle, start, pick,
}
use s5lb.Strategy.Weighted.Laws.{Apart, scan-Midway}
use s5lb.Strategy.Weighted.Highest.{raised, scan-Leads, settle_id}

lookup-prune :
    (id : String) (active : List String) (m : Credits)
    → one_of id active ≡ true
    → lookup id (prune active m) ≡ lookup id m
unfolding lookup prune
lookup-prune id active [] h = refl
lookup-prune id active ((n, x) ∷ m) h = elim (Bool-cases (str_eq n id)) [
  | inl e ↦
      let same : n ≡ id = ground (arith, e, eq_iff n id) in
      rw (ap (λ k. one_of k active) same ∙ h, e) refl
  | inr e ↦ elim (Bool-cases (one_of n active)) [
    | inl k ↦ rw (k, e) (lookup-prune id active m h)
    | inr k ↦ rw (k, e) (lookup-prune id active m h)
  ]
]

ids_self : (pool : List Snapshot) → All (λ v. one_of v.id (ids pool) ≡ true) pool
unfolding one_of
ids_self [] = tt
ids_self (u ∷ pool) =
    (ground (arith, eq_iff u.id u.id), All-imp pool (λ v h. ground (arith, h)) (ids_self pool))

abbrev pub total_of : List Snapshot → ℕ
total_of [] = 0
total_of (u ∷ pool) = weight_of u + total_of pool

-- Every upstream of the pool has got its weight.
abbrev AllRaised : List Snapshot → Scan → Scan → Type 0
AllRaised pool b f =
    (f.total ≡ b.total + total_of pool)
    × All (λ v. credit v.id f.current ≡ raised b.current v) pool
    × ((id : String)
        → All (λ (v : Snapshot). v.id ≢ id) pool
        → lookup id f.current ≡ lookup id b.current)

add_credit-put :
    (u : Snapshot) (b : Scan)
    → ((add_credit u b).current ≡ put u.id (raised b.current u) b.current)
      × ((add_credit u b).total ≡ b.total + weight_of u)
unfolding add_credit
add_credit-put u b =
    if-elim
      (λ (c : Scan).
        (c.current ≡ put u.id (raised b.current u) b.current) × (c.total ≡ b.total + weight_of u))
      (str_eq b.best_id "" || ltb_ℤ b.best_cur (raised b.current u)) _ _ (λ h. (refl, refl))
      (λ h. (refl, refl))

scan-AllRaised :
    (max_per : ℕ) (pool : List Snapshot) (b : Scan)
    → All (CanTake max_per) pool
    → Apart pool
    → AllRaised pool b (scan max_per pool b)
unfolding scan
scan-AllRaised max_per [] b can apart = (omega arith, tt, λ id h. refl)
scan-AllRaised max_per (u ∷ pool) b (take, can) (first, apart) =
    let (written, sum) = add_credit-put u b in
    let (total, raises, others) = scan-AllRaised max_per pool (add_credit u b) can apart in
    let on : (id : String) → id ≢ u.id → lookup id (add_credit u b).current ≡ lookup id b.current =
      λ id ne.
        ap (lookup id) written ∙ lookup-put_other u.id id (raised b.current u) b.current ne in
    if-elim (λ (c : Scan). AllRaised (u ∷ pool) b (scan max_per pool c)) (skips max_per u) _ _
      (λ h. absurd (ground (arith, h, take)))
      (λ h. (
        omega (arith, total, sum),
        (
          ap or_zero (
              others u.id first
              ∙ ap (lookup u.id) written
              ∙ lookup-put u.id (raised b.current u) b.current),
          All-imp pool (λ v (ne, h). h ∙ ap (λ o. or_zero o +ℤ pos (weight_of v)) (on v.id ne))
              (All-zip _ _ pool first raises),
        ),
        λ id (ne, h). others id h ∙ on id (λ e. ne (sym e)),
      ))

-- `u` is picked with the highest credit and pays the total; every other upstream keeps its raise.
abbrev pub settled : Credits → List Snapshot → String → Snapshot → ℤ
settled current pool id v =
    if str_eq v.id id then raised current v -ℤ pos (total_of pool) else raised current v

abbrev pub Turn : Credits → List Snapshot → Credits × String → Type 0
Turn current pool r =
    (r.1 ≢ "")
    × Any (λ u. u.id ≡ r.1) pool
    × ((top : ℤ) × All (λ v. raised current v ≤ℤ top) pool
        × All (λ v. v.id ≡ r.1 → raised current v ≡ top) pool)
    × All (λ v. credit v.id r.0 ≡ settled current pool r.1 v) pool

settle-credit :
    (current : Credits) (pool : List Snapshot) (f : Scan) (v : Snapshot)
    → f.best_id ≢ ""
    → f.total ≡ total_of pool
    → credit f.best_id f.current ≡ f.best_cur
    → credit v.id f.current ≡ raised current v
    → credit v.id (settle f).0 ≡ settled current pool (settle f).1 v
unfolding settle
settle-credit current pool f v some_best total best own =
    rw (str_eq-ne f.best_id "" some_best) (elim (Bool-cases (str_eq v.id f.best_id)) [
      | inl h ↦
          let same : v.id ≡ f.best_id = ground (arith, h, eq_iff v.id f.best_id) in
          let cur : f.best_cur ≡ raised current v =
            sym best ∙ ap (λ id. credit id f.current) (sym same) ∙ own in
          rw h (
            ap (λ id. credit id (put f.best_id (f.best_cur -ℤ pos f.total) f.current)) same
            ∙ ap or_zero (lookup-put f.best_id (f.best_cur -ℤ pos f.total) f.current)
            ∙ ap (λ c. c -ℤ pos f.total) cur
            ∙ ap (λ n. raised current v -ℤ pos n) total)
      | inr h ↦ rw h (
          ap or_zero (
            lookup-put_other f.best_id v.id (f.best_cur -ℤ pos f.total) f.current
              (λ e. ground (arith, h, e, eq_iff v.id f.best_id)))
          ∙ own)
    ])

pub pick-Turn :
    (current : Credits) (pool : List Snapshot) (max_per : ℕ)
    → All Named pool
    → Apart pool
    → All (CanTake max_per) pool
    → 0 < total_of pool
    → Turn current pool (pick current pool max_per)
unfolding pick
pick-Turn current pool max_per named apart can some =
    let m0 = prune (ids pool) current in
    let b = start pool current in
    let f = scan max_per pool b in
    let same =
      All-imp pool
        (λ v h. ap (λ o. or_zero o +ℤ pos (weight_of v)) (lookup-prune v.id (ids pool) current h))
        (ids_self pool) in
    let (total, raises, _) = scan-AllRaised max_per pool b can apart in
    let (_, best, _, none_yet) =
      scan-Midway m0 max_per pool b named apart
        (omega arith, λ n. absurd (n refl), named, λ e. refl) in
    let sum : f.total ≡ total_of pool = omega (arith, total) in
    let some_best : f.best_id ≢ "" = λ e. omega (arith, none_yet e, sum, some) in
    let (below, _, from) = scan-Leads max_per pool b named apart in
    let picked = settle_id f in
    (
      λ e. some_best (sym picked ∙ e),
      elim from [
        | inl (none_best, _) ↦ absurd (some_best none_best)
        | inr found ↦ Any-imp pool (λ u (take, id', cur'). id' ∙ sym picked) found
      ],
      (
        f.best_cur,
        All-imp pool (λ v ((same_v, h), t). subst (λ z. z ≤ℤ f.best_cur) same_v (h t).1)
            (All-zip _ _ pool (All-zip _ _ pool same below) can),
        All-imp pool
            (λ v (same_v, h) e.
              sym (h ∙ same_v) ∙ ap (λ id. credit id f.current) (e ∙ picked) ∙ best some_best)
            (All-zip _ _ pool same raises),
      ),
      All-imp pool
          (λ v (same_v, h).
            settle-credit current pool f v some_best sum (best some_best) (h ∙ same_v))
          (All-zip _ _ pool same raises),
    )
