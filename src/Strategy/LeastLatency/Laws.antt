-- ===== src/Strategy/LeastLatency/Laws.antt =====
-- The order of the scores, which are no NaN, and the choice that LeastLatency makes with it.
use s5lb.Base.{
  ℕ, ◌+◌, ◌≡◌, refl, sym, ◌≢◌, ◌⊎◌, inl, inr, true, false, ◌||◌, ◌==◌, if-elim, Bool-cases, ◌∙◌,
  String, str_eq, eq_iff, List, [], ◌∷◌, arith, All, Any,
}
use s5lb.Upstream.{Snapshot}
use s5lb.Strategy.{CanTake, NoneTakes, Named, skips}
use s5lb.Strategy.LeastLatency.{Float, score, Best, start, consider, scan, pick}

pub record IsOrdered {W : Type 0} (f : Float W) : Type 0 where
  pub less_irrefl : (a : W) → f.less a a ≡ false
  pub less_trans : (a b c : W) → f.less b a ≡ false → f.less c b ≡ false → f.less c a ≡ false
  pub less_asym : (a b : W) → f.less a b ≡ true → f.less b a ≡ false
  pub same_less : (a b : W) → f.same a b ≡ true → f.less a b ≡ false
  pub same_sym : (a b : W) → f.same a b ≡ true → f.same b a ≡ true

module _ {W : Type 0} (f : Float W) (max_per : ℕ) where
  -- No upstream of the pool that can take a session has a lower score than `w`.
  abbrev pub Lowest : W → List Snapshot → Type 0
  Lowest w pool = All (λ v. CanTake max_per v → f.less (score f v) w ≡ false) pool

  -- `v` can take a session, is named by the best so far and has a score no higher.
  abbrev pub IsBest : String → W → Snapshot → Type 0
  IsBest id w v = CanTake max_per v × (v.id ≡ id) × (f.less w (score f v) ≡ false)

module _ {W : Type 0} (f : Float W) (laws : IsOrdered f) (draw : ℕ → ℕ → ℕ) (max_per : ℕ) where
  -- `r` is the end of the loop from `b` over `pool`.
  record Leads (b : Best f) (pool : List Snapshot) (r : Best f) : Type 0 where
    kept : b.best_id ≢ "" → (r.best_id ≢ "") × (f.less b.best_score r.best_score ≡ false)
    least : Lowest f max_per r.best_score pool
    origin :
        ((r.best_id ≡ b.best_id) × (f.less r.best_score b.best_score ≡ false))
        ⊎ Any (IsBest f max_per r.best_id r.best_score) pool
    named : r.best_id ≡ "" → (b.best_id ≡ "") × NoneTakes max_per pool

  consider-Leads :
      (k : ℕ) (u : Snapshot) (b : Best f)
      → Named u
      → Leads b (u ∷ []) (consider f draw max_per k u b)
  unfolding consider
  consider-Leads k u b named =
      if-elim (Leads b (u ∷ [])) (skips max_per u) _ _
        (λ h. record {
          kept = λ n. (n, laws.less_irrefl b.best_score);
          least = ((λ take. absurd (ground (arith, h, take))), tt);
          origin = inl (refl, laws.less_irrefl b.best_score);
          named = λ e. (e, ((λ take. ground (arith, h, take)), tt));
        })
        (λ h.
          if-elim (Leads b (u ∷ [])) (str_eq b.best_id "" || f.less (score f u) b.best_score) _ _
            (λ g. record {
              kept = λ n. (
                named,
                laws.less_asym (score f u) b.best_score (ground (arith, g, eq_iff b.best_id "", n)),
              );
              least = ((λ take. laws.less_irrefl (score f u)), tt);
              origin = inr (inl (ground (arith, h), refl, laws.less_irrefl (score f u)));
              named = λ e. absurd (named e);
            })
            (λ g.
              if-elim (Leads b (u ∷ [])) (f.same (score f u) b.best_score) _ _
                (λ s.
                  if-elim
                    (λ (id : String). Leads b (u ∷ []) (record {
                      best_id = id;
                      best_score = b.best_score;
                      tie_count = b.tie_count + 1;
                    }))
                    (draw k (b.tie_count + 1) == 0) _ _
                    (λ d. record {
                      kept = λ n. (named, laws.less_irrefl b.best_score);
                      least = ((λ take. ground (arith, g)), tt);
                      origin = inr (
                          inl (
                            ground (arith, h),
                            refl,
                            laws.same_less b.best_score (score f u)
                                (laws.same_sym (score f u) b.best_score s),
                          ));
                      named = λ e. absurd (named e);
                    })
                    (λ d. record {
                      kept = λ n. (n, laws.less_irrefl b.best_score);
                      least = ((λ take. ground (arith, g)), tt);
                      origin = inl (refl, laws.less_irrefl b.best_score);
                      named = λ e. absurd (ground (arith, g, e, eq_iff b.best_id ""));
                    }))
                (λ s. record {
                  kept = λ n. (n, laws.less_irrefl b.best_score);
                  least = ((λ take. ground (arith, g)), tt);
                  origin = inl (refl, laws.less_irrefl b.best_score);
                  named = λ e. absurd (ground (arith, g, e, eq_iff b.best_id ""));
                })))

  Leads-cons :
      (b c r : Best f) (u : Snapshot) (pool : List Snapshot)
      → Leads b (u ∷ []) c
      → Leads c pool r
      → Leads b (u ∷ pool) r
  Leads-cons b c r u pool one rest = record {
    kept = λ n.
        let (some_best, lower) = one.kept n in
        let (still, lowest) = rest.kept some_best in
        (still, laws.less_trans r.best_score c.best_score b.best_score lowest lower);
    least = (
      λ take.
          laws.less_trans r.best_score c.best_score (score f u)
            (rest.kept (λ e. (one.named e).1.0 take)).1 (one.least.0 take),
      rest.least,
    );
    origin = elim rest.origin [
      | inl (same_id, no_more) ↦ elim one.origin [
        | inl (id', below) ↦
            inl
              (same_id ∙ id', laws.less_trans b.best_score c.best_score r.best_score below no_more)
        | inr (inl (take, id', below)) ↦ inr (
            inl (
              take,
              id' ∙ sym same_id,
              laws.less_trans (score f u) c.best_score r.best_score below no_more,
            ))
        | inr (inr none_more) ↦ absurd none_more
      ]
      | inr later ↦ inr (inr later)
    ];
    named = λ e.
        let (none_c, nobody) = rest.named e in
        let (none_b, not_u) = one.named none_c in (none_b, (not_u.0, nobody));
  }

  scan-Leads :
      (k : ℕ) (b : Best f) (pool : List Snapshot)
      → All Named pool
      → Leads b pool (scan f draw max_per k b pool)
  unfolding scan
  scan-Leads k b [] named = record {
    kept = λ n. (n, laws.less_irrefl b.best_score);
    least = tt;
    origin = inl (refl, laws.less_irrefl b.best_score);
    named = λ e. (e, tt);
  }
  scan-Leads k b (u ∷ pool) (name, named) =
      Leads-cons b (consider f draw max_per k u b) _ u pool (consider-Leads k u b name)
        (scan-Leads (k + 1) (consider f draw max_per k u b) pool named)

  -- An upstream of the pool that can take a session and whose score no other such one undercuts; or ""
  -- if none can.
  pub pick-Lowest :
      (pool : List Snapshot)
      → All Named pool
      → let id = pick f draw pool max_per in
        ((id ≡ "") × NoneTakes max_per pool)
        ⊎ ((id ≢ "") × ((w : W) × Any (IsBest f max_per id w) pool × Lowest f max_per w pool))
  unfolding pick
  pick-Lowest pool named =
      let r = scan f draw max_per 0 (start f) pool in
      let l = scan-Leads 0 (start f) pool named in
      elim (Bool-cases (str_eq r.best_id "")) [
        | inl h ↦
            let none_best : r.best_id ≡ "" = ground (arith, h, eq_iff r.best_id "") in
            inl (none_best, (l.named none_best).1)
        | inr h ↦
            let some_best : r.best_id ≢ "" = λ e. ground (arith, h, e, eq_iff r.best_id "") in
            inr (
              some_best,
              (
                r.best_score,
                elim l.origin [ inl (same, _) ↦ absurd (some_best same) | inr found ↦ found ],
                l.least,
              ),
            )
      ]
