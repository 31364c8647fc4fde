-- ===== src/Upstream/Latency/Ends.antt =====
-- No call of ObserveLatency starts again for ever.
use s5lb.Base.{
  ap, sym, Bool-cases, ℕ, zero, suc, ◌+◌, ◌*◌, ◌≤◌, ◌≡◌, refl, inl, inr, ◌⊎◌, Bool, true, false,
  ◌==◌, if◌then◌else◌, if-elim, List, [], ◌∷◌, map, length, ℤ, arith,
}
use s5lb.Upstream.Latency.{Float64, Call, waiting, loaded, returned, next_bits, advance, advance_at}

-- Whether the call at a place has a step to make.
unfoldable pub is_running : ℕ → List Call → Bool
is_running i [] = false
is_running zero (returned d ∷ cs) = false
is_running zero (waiting d ∷ cs) = true
is_running zero (loaded d prev ∷ cs) = true
is_running (suc i) (c ∷ cs) = is_running i cs

-- What a call may still cost: a load and a swap, and one more round when the average is no longer the
-- loaded one; `k` pays for the rounds that its return costs the others.
abbrev cost : ℕ → ℕ → Call → ℕ
cost k bits (waiting d) = k + 2
cost k bits (loaded d prev) = k + (if bits == prev then 1 else 3)
cost k bits (returned d) = 0

unfoldable costs : ℕ → ℕ → List Call → ℕ
costs k bits [] = 0
costs k bits (c ∷ cs) = cost k bits c + costs k bits cs

-- Another value of the average costs every call at most one more round.
cost-other : (k b b' : ℕ) (c : Call) → cost k b' c ≤ cost k b c + 2
cost-other k b b' (waiting d) = ground arith
cost-other k b b' (loaded d prev) = ground arith
cost-other k b b' (returned d) = ground arith

costs-other : (k b b' : ℕ) (cs : List Call) → costs k b' cs ≤ costs k b cs + 2 * length cs
unfolding costs
costs-other k b b' [] = omega arith
costs-other k b b' (c ∷ cs) =
    let one = cost-other k b b' c in let rest = costs-other k b b' cs in omega arith

module _ {W : Type 0} (f : Float64 W) where
  -- A step costs something: one, or the return of its call, which costs the others a round each.
  abbrev Pays : ℕ → ℕ → List Call → ℕ × List Call → Type 0
  Pays k bits cs (b, cs') =
      ((b ≡ bits) × (costs k b cs' + 1 ≤ costs k bits cs))
      ⊎ (costs k b cs' + k + 1 ≤ costs k bits cs + 2 * length cs)

  advance-Pays :
      (k bits : ℕ) (c : Call) (cs : List Call)
      → is_running zero (c ∷ cs) ≡ true
      → Pays k bits (c ∷ cs) ((advance f bits c).0, (advance f bits c).1 ∷ cs)
  unfolding advance costs is_running
  advance-Pays k bits (waiting d) cs h = inl (refl, ground arith)
  advance-Pays k bits (loaded d prev) cs h =
      if-elim (λ (r : ℕ × Call). Pays k bits (loaded d prev ∷ cs) (r.0, r.1 ∷ cs)) (bits == prev) _
        _
        (λ g.
          let rest = costs-other k bits (next_bits f d prev) cs in inr (ground (arith, g, rest)))
        (λ g. inl (refl, ground (arith, g)))
  advance-Pays k bits (returned d) cs h = absurd (ground (arith, h))

  advance_at-Pays :
      (k i bits : ℕ) (cs : List Call)
      → is_running i cs ≡ true
      → Pays k bits cs (advance_at f i bits cs)
  unfolding advance_at costs is_running
  advance_at-Pays k i bits [] h = absurd (ground (arith, h))
  advance_at-Pays k zero bits (c ∷ cs) h = advance-Pays k bits c cs h
  advance_at-Pays k (suc i) bits (c ∷ cs) h =
      let r = advance_at f i bits cs in
      let one = cost-other k bits r.0 c in
      elim (advance_at-Pays k i bits cs h) [
        | inl (same, paid) ↦ inl (same, rw same (omega arith))
        | inr paid ↦ inr (omega arith)
      ]

  advance_at-stopped :
      (i bits : ℕ) (cs : List Call) → is_running i cs ≡ false → advance_at f i bits cs ≡ (bits, cs)
  unfolding advance_at advance is_running
  advance_at-stopped i bits [] h = refl
  advance_at-stopped zero bits (returned d ∷ cs) h = refl
  advance_at-stopped zero bits (waiting d ∷ cs) h = absurd (ground (arith, h))
  advance_at-stopped zero bits (loaded d prev ∷ cs) h = absurd (ground (arith, h))
  advance_at-stopped (suc i) bits (c ∷ cs) h =
      ap (λ (r : ℕ × List Call). (r.0, c ∷ r.1)) (advance_at-stopped i bits cs h)

  length-advance_at : (i bits : ℕ) (cs : List Call) → length (advance_at f i bits cs).1 ≡ length cs
  unfolding advance_at
  length-advance_at i bits [] = refl
  length-advance_at zero bits (c ∷ cs) = refl
  length-advance_at (suc i) bits (c ∷ cs) = ap suc (length-advance_at i bits cs)

  -- The steps of an interleaving that a running call makes.
  unfoldable pub steps : List ℕ → ℕ → List Call → ℕ
  unfolding advance_at is_running
  steps [] bits cs = 0
  steps (i ∷ is) bits cs =
      let (b, cs') = advance_at f i bits cs in (if is_running i cs then 1 else 0) + steps is b cs'

  steps-costs :
      (k : ℕ) (is : List ℕ) (bits : ℕ) (cs : List Call)
      → 2 * length cs ≤ k
      → steps is bits cs ≤ costs k bits cs
  unfolding steps
  steps-costs k [] bits cs few = omega arith
  steps-costs k (i ∷ is) bits cs few =
      let (b, cs') = advance_at f i bits cs in
      let ih = steps-costs k is b cs' (rw (length-advance_at i bits cs) few) in
      elim (Bool-cases (is_running i cs)) [
        | inr h ↦
            let quiet = advance_at-stopped i bits cs h in
            let same_costs : costs k b cs' ≡ costs k bits cs =
              ap (λ (r : ℕ × List Call). costs k r.0 r.1) quiet in
            ground (arith, h, ih, same_costs)
        | inl h ↦ elim (advance_at-Pays k i bits cs h) [
          | inl (same, paid) ↦ ground (arith, h, ih, paid, sym same)
          | inr paid ↦ ground (arith, h, ih, paid, few)
        ]
      ]

  length-waiting : (ds : List ℤ) → length (map waiting ds) ≡ length ds
  length-waiting [] = refl
  length-waiting (d ∷ ds) = ap suc (length-waiting ds)

  costs-waiting : (k bits : ℕ) (ds : List ℤ) → costs k bits (map waiting ds) ≡ length ds * (k + 2)
  unfolding costs
  costs-waiting k bits [] = ground arith
  costs-waiting k bits (d ∷ ds) = let ih = costs-waiting k bits ds in ground (arith, ih)

  -- However `n` calls interleave, they make at most n * (2 * n + 2) steps until all have returned.
  pub steps_bounded :
      (start : ℕ) (ds : List ℤ) (is : List ℕ)
      → steps is start (map waiting ds) ≤ length ds * (2 * length ds + 2)
  steps_bounded start ds is =
      let bound =
        steps-costs (2 * length ds) is start (map waiting ds)
          (rw (length-waiting ds) (omega arith)) in
      rw (sym (costs-waiting (2 * length ds) start ds)) bound
