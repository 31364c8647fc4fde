-- ===== src/Upstream/Latency/Order.antt =====
-- The samples of the calls that have returned are merged one after the other, each once.
use s5lb.Base.{
  ℕ, zero, suc, ◌≡◌, refl, sym, ap, ◌∙◌, ◌⊎◌, inl, inr, ◌==◌, if-elim, List, [], ◌∷◌, map, ℤ, arith,
}
use mathlib.Core.List.{Permᴰ}
use mathlib.Core.List.Permᴰ
use s5lb.Upstream.Latency.{
  Float64, Call, waiting, loaded, returned, next_bits, advance, advance_at, observe,
}

-- The samples of the calls that have returned.
unfoldable pub merged_samples : List Call → List ℤ
merged_samples [] = []
merged_samples (returned d ∷ cs) = d ∷ merged_samples cs
merged_samples (waiting d ∷ cs) = merged_samples cs
merged_samples (loaded d prev ∷ cs) = merged_samples cs

abbrev pub sample_of : Call → ℤ
sample_of (waiting d) = d
sample_of (loaded d prev) = d
sample_of (returned d) = d

module _ {W : Type 0} (f : Float64 W) where
  -- The average of calls that run alone, one after the other; the newest sample is first.
  unfoldable pub one_by_one : List ℤ → ℕ → ℕ
  one_by_one [] bits = bits
  one_by_one (d ∷ ds) bits = next_bits f d (one_by_one ds bits)

  -- What a step does: nothing to the average, or one sample goes in and its call returns.
  abbrev Merges : ℕ → List Call → ℕ × List Call → Type 0
  Merges bits cs r =
      ((r.0 ≡ bits) × (merged_samples r.1 ≡ merged_samples cs))
      ⊎ ((d : ℤ) × (r.0 ≡ next_bits f d bits) × Permᴰ (d ∷ merged_samples cs) (merged_samples r.1))

  advance-Merges :
      (bits : ℕ) (c : Call) (cs : List Call)
      → let (b, c') = advance f bits c in Merges bits (c ∷ cs) (b, c' ∷ cs)
  unfolding advance merged_samples
  advance-Merges bits (waiting d) cs = inl (refl, refl)
  advance-Merges bits (loaded d prev) cs =
      if-elim (λ (r : ℕ × Call). Merges bits (loaded d prev ∷ cs) (r.0, r.1 ∷ cs)) (bits == prev) _
        _ (λ h. inr (d, ap (next_bits f d) (sym (ground (arith, h))), Permᴰ.refl _))
        (λ h. inl (refl, refl))
  advance-Merges bits (returned d) cs = inl (refl, refl)

  -- Another call in front changes nothing.
  Merges-cons :
      (bits : ℕ) (c : Call) (cs : List Call) (r : ℕ × List Call)
      → Merges bits cs r
      → Merges bits (c ∷ cs) (r.0, c ∷ r.1)
  unfolding merged_samples
  Merges-cons bits (waiting e) cs r m = m
  Merges-cons bits (loaded e prev) cs r m = m
  Merges-cons bits (returned e) cs r (inl (same, kept)) = inl (same, ap (λ l. e ∷ l) kept)
  Merges-cons bits (returned e) cs r (inr (d, next, p)) =
      inr (d, next, Permᴰ.trans (Permᴰ.swap refl refl) (Permᴰ.cons refl p))

  advance_at-Merges : (i bits : ℕ) (cs : List Call) → Merges bits cs (advance_at f i bits cs)
  unfolding advance_at
  advance_at-Merges i bits [] = inl (refl, refl)
  advance_at-Merges zero bits (c ∷ cs) = advance-Merges bits c cs
  advance_at-Merges (suc i) bits (c ∷ cs) =
      Merges-cons bits c cs (advance_at f i bits cs) (advance_at-Merges i bits cs)

  abbrev pub Sequential : ℕ → ℕ × List Call → Type 0
  Sequential start r =
      (order : List ℤ) × Permᴰ order (merged_samples r.1) × (r.0 ≡ one_by_one order start)

  Merges-Sequential :
      (start bits : ℕ) (cs : List Call) (r : ℕ × List Call)
      → Sequential start (bits, cs)
      → Merges bits cs r
      → Sequential start r
  unfolding one_by_one
  Merges-Sequential start bits cs r (order, p, e) (inl (same, kept)) = (order, rw kept p, same ∙ e)
  Merges-Sequential start bits cs r (order, p, e) (inr (d, next, q)) =
      (d ∷ order, Permᴰ.trans (Permᴰ.cons refl p) q, next ∙ ap (next_bits f d) e)

  observe-Sequential_from :
      (start : ℕ) (is : List ℕ) (bits : ℕ) (cs : List Call)
      → Sequential start (bits, cs)
      → Sequential start (observe f is bits cs)
  unfolding observe
  observe-Sequential_from start [] bits cs s = s
  observe-Sequential_from start (i ∷ is) bits cs s =
      let r = advance_at f i bits cs in
      observe-Sequential_from start is r.0 r.1
        (Merges-Sequential start bits cs r s (advance_at-Merges i bits cs))

  merged_samples-waiting : (ds : List ℤ) → merged_samples (map waiting ds) ≡ []
  unfolding merged_samples
  merged_samples-waiting [] = refl
  merged_samples-waiting (d ∷ ds) = merged_samples-waiting ds

  sample_of-advance : (bits : ℕ) (c : Call) → sample_of (advance f bits c).1 ≡ sample_of c
  unfolding advance
  sample_of-advance bits (waiting d) = refl
  sample_of-advance bits (loaded d prev) =
      if-elim (λ (r : ℕ × Call). sample_of r.1 ≡ d) (bits == prev) _ _ (λ h. refl) (λ h. refl)
  sample_of-advance bits (returned d) = refl

  sample_of-advance_at :
      (i bits : ℕ) (cs : List Call) → map sample_of (advance_at f i bits cs).1 ≡ map sample_of cs
  unfolding advance_at
  sample_of-advance_at i bits [] = refl
  sample_of-advance_at zero bits (c ∷ cs) =
      ap (λ d. d ∷ map sample_of cs) (sample_of-advance bits c)
  sample_of-advance_at (suc i) bits (c ∷ cs) =
      ap (λ l. sample_of c ∷ l) (sample_of-advance_at i bits cs)

  sample_of-observe :
      (is : List ℕ) (bits : ℕ) (cs : List Call)
      → map sample_of (observe f is bits cs).1 ≡ map sample_of cs
  unfolding observe
  sample_of-observe [] bits cs = refl
  sample_of-observe (i ∷ is) bits cs =
      let r = advance_at f i bits cs in
      sample_of-observe is r.0 r.1 ∙ sample_of-advance_at i bits cs

  sample_of-waiting : (ds : List ℤ) → map sample_of (map waiting ds) ≡ ds
  sample_of-waiting [] = refl
  sample_of-waiting (d ∷ ds) = ap (λ l. d ∷ l) (sample_of-waiting ds)

  -- Any number of calls, in any interleaving of their loads and swaps: each keeps its sample, and at every
  -- moment the average is the one that the samples of the calls that have returned make one after the
  -- other, in some order.
  pub observe-Sequential :
      (start : ℕ) (ds : List ℤ) (is : List ℕ)
      → let r = observe f is start (map waiting ds) in (map sample_of r.1 ≡ ds) × Sequential start r
  unfolding one_by_one
  observe-Sequential start ds is = (
    sample_of-observe is start (map waiting ds) ∙ sample_of-waiting ds,
    observe-Sequential_from start is start (map waiting ds)
        ([], rw (merged_samples-waiting ds) Permᴰ.nil, refl),
  )
