-- ===== src/Strategy/Weighted/Highest.antt =====
-- Whom the weighted round robin (wrr.go) picks.
use s5lb.Base.{
  ℕ, ◌≡◌, refl, sym, ap, ◌∙◌, ◌≢◌, ◌⊎◌, inl, inr, ◌||◌, if-elim, String, str_eq, eq_iff, List, [],
  ◌∷◌, put, lookup, lookup-put_other, All, All-imp, All-zip, Any, Any-imp, Any-zip, arith, subst, ℤ,
  pos, ltb_ℤ, ◌≤ℤ◌, ◌+ℤ◌,
}
use s5lb.Upstream.{Snapshot}
use s5lb.Strategy.{skips, CanTake, NoneTakes, Named}
use s5lb.Strategy.Weighted.{
  Credits, credit, or_zero, ids, prune, weight_of, Scan, add_credit, scan, settle, start, pick,
}
use s5lb.Strategy.Weighted.Laws.{Apart}

-- The credit of an upstream after this round's addition.
abbrev pub raised : Credits → Snapshot → ℤ
raised current u = credit u.id current +ℤ pos (weight_of u)

-- `f` is the end of the loop from `b` over `pool`: its best upstream is `b`'s or one of the pool that
-- can take a session, and no such one has a higher credit.
abbrev pub Leads : ℕ → List Snapshot → Scan → Scan → Type 0
Leads max_per pool b f =
    All (λ u. CanTake max_per u → (f.best_id ≢ "") × (raised b.current u ≤ℤ f.best_cur)) pool
    × (b.best_id ≢ "" → (f.best_id ≢ "") × (b.best_cur ≤ℤ f.best_cur))
    × (((f.best_id ≡ b.best_id) × (f.best_cur ≡ b.best_cur))
        ⊎ Any (λ u. CanTake max_per u × (u.id ≡ f.best_id) × (raised b.current u ≡ f.best_cur))
            pool)

-- One addition.
abbrev Raised : Snapshot → Scan → Scan → Type 0
Raised u b c =
    (c.current ≡ put u.id (raised b.current u) b.current)
    × (c.best_id ≢ "")
    × (raised b.current u ≤ℤ c.best_cur)
    × (b.best_id ≢ "" → b.best_cur ≤ℤ c.best_cur)
    × (((c.best_id ≡ b.best_id) × (c.best_cur ≡ b.best_cur))
        ⊎ ((c.best_id ≡ u.id) × (c.best_cur ≡ raised b.current u)))

add_credit-Raised : (u : Snapshot) (b : Scan) → u.id ≢ "" → Raised u b (add_credit u b)
unfolding add_credit
add_credit-Raised u b named =
    if-elim (Raised u b) (str_eq b.best_id "" || ltb_ℤ b.best_cur (raised b.current u)) _ _
      (λ h. (
        refl,
        named,
        omega arith,
        λ n. ground (arith, h, eq_iff b.best_id "", n),
        inr (refl, refl),
      ))
      (λ h. (
        refl,
        λ e. ground (arith, h, e, eq_iff b.best_id ""),
        ground (arith, h),
        λ n. omega arith,
        inl (refl, refl),
      ))

raised_other :
    (u v : Snapshot) (b c : Scan)
    → v.id ≢ u.id
    → Raised u b c
    → raised c.current v ≡ raised b.current v
raised_other u v b c ne (e, _, _, _, _) =
    ap (λ o. or_zero o +ℤ pos (weight_of v))
      (ap (lookup v.id) e ∙ lookup-put_other u.id v.id (raised b.current u) b.current ne)

lead_on :
    (max_per : ℕ) (u : Snapshot) (pool : List Snapshot) (b c f : Scan)
    → CanTake max_per u
    → All (λ (v : Snapshot). v.id ≢ u.id) pool
    → Raised u b c
    → Leads max_per pool c f
    → Leads max_per (u ∷ pool) b f
lead_on max_per u pool b c f can apart r (below, kept, from) =
    let (some_best, up) = kept r.1 in
    (
      (
        λ _. (some_best, omega (arith, r.2)),
        All-imp pool
            (λ v (ne, h) take.
              ((h take).0, subst (λ z. z ≤ℤ f.best_cur) (raised_other u v b c ne r) (h take).1))
            (All-zip _ _ pool apart below),
      ),
      λ n. (some_best, omega (arith, r.3 n)),
      elim from [
        | inl (same_id, same_cur) ↦ elim r.4 [
          | inl (id', cur') ↦ inl (same_id ∙ id', same_cur ∙ cur')
          | inr (id', cur') ↦ inr (inl (can, sym (same_id ∙ id'), sym (same_cur ∙ cur')))
        ]
        | inr later ↦ inr (
            inr (
              Any-imp pool
                (λ v (ne, (take, id', cur')). (take, id', sym (raised_other u v b c ne r) ∙ cur'))
                (Any-zip _ _ pool apart later)))
      ],
    )

skip_on :
    (max_per : ℕ) (u : Snapshot) (pool : List Snapshot) (b f : Scan)
    → ¬ CanTake max_per u
    → Leads max_per pool b f
    → Leads max_per (u ∷ pool) b f
skip_on max_per u pool b f cannot (below, kept, from) = (
  ((λ take. absurd (cannot take)), below),
  kept,
  elim from [ inl same ↦ inl same | inr later ↦ inr (inr later) ],
)

pub scan-Leads :
    (max_per : ℕ) (pool : List Snapshot) (b : Scan)
    → All Named pool
    → Apart pool
    → Leads max_per pool b (scan max_per pool b)
unfolding scan
scan-Leads max_per [] b named apart = (tt, λ n. (n, omega arith), inl (refl, refl))
scan-Leads max_per (u ∷ pool) b (name, named) (first, apart) =
    if-elim (λ (c : Scan). Leads max_per (u ∷ pool) b (scan max_per pool c)) (skips max_per u) _ _
      (λ h.
        skip_on max_per u pool b (scan max_per pool b)
          (λ (healthy, room). ground (arith, h, healthy, room))
          (scan-Leads max_per pool b named apart))
      (λ h.
        lead_on max_per u pool b (add_credit u b) (scan max_per pool (add_credit u b))
          (ground (arith, h)) first (add_credit-Raised u b name)
          (scan-Leads max_per pool (add_credit u b) named apart))

-- `id` is that of an upstream that can take a session, and no other such one has a higher credit.
abbrev pub Highest : ℕ → Credits → List Snapshot → String → Type 0
Highest max_per current pool id =
    Any
      (λ u.
        CanTake max_per u
        × (u.id ≡ id)
        × All (λ v. CanTake max_per v → raised current v ≤ℤ raised current u) pool)
      pool

pub settle_id : (b : Scan) → (settle b).1 ≡ b.best_id
unfolding settle
settle_id b =
    if-elim (λ (r : Credits × String). r.1 ≡ b.best_id) (str_eq b.best_id "") _ _
      (λ h. sym (ground (arith, h, eq_iff b.best_id ""))) (λ h. refl)

-- In a pool whose IDs are not empty and not repeated, either no upstream can take a session and a pick
-- returns "", or it returns one that can and whose credit, with its weight added, is the highest.
pub pick-Highest :
    (current : Credits) (pool : List Snapshot) (max_per : ℕ)
    → All Named pool
    → Apart pool
    → (NoneTakes max_per pool × ((pick current pool max_per).1 ≡ ""))
      ⊎ Highest max_per (prune (ids pool) current) pool (pick current pool max_per).1
unfolding pick
pick-Highest current pool max_per named apart =
    let (below, _, from) = scan-Leads max_per pool (start pool current) named apart in
    let picked = settle_id (scan max_per pool (start pool current)) in
    elim from [
      | inl (none_best, _) ↦
          inl (All-imp pool (λ u h take. (h take).0 none_best) below, picked ∙ none_best)
      | inr some_best ↦ inr (
          Any-imp pool
            (λ u (take, id', cur'). (
              take,
              id' ∙ sym picked,
              All-imp pool
                  (λ v h t.
                    subst (λ z. raised (prune (ids pool) current) v ≤ℤ z) (sym cur') (h t).1)
                  below,
            ))
            some_best)
    ]
