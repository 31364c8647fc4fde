-- ===== src/Upstream/Latency/Tests.antt =====
-- Two calls at once; the swap of the second fails, and it starts again. Floats are whole numbers.
use s5lb.Base.{ℕ, ◌+◌, ◌*◌, ◌/◌, ◌≤◌, ◌≡◌, refl, ◌==◌, List, [], ◌∷◌, map, length, ℤ, pos, negsuc}
use s5lb.Upstream.Latency.{Float64, waiting, returned, observe}
use s5lb.Upstream.Latency.Order.{sample_of, Sequential, observe-Sequential}
use s5lb.Upstream.Latency.Ends.{steps, steps_bounded}

abbrev whole : Float64 ℕ
whole = record {
  seconds = λ d. elim d [ pos n ↦ n | negsuc n ↦ 0 ];
  from_bits = λ n. n;
  to_bits = λ n. n;
  is_zero = λ n. n == 0;
  times_alpha = λ n. n / 5;
  times_rest = λ n. 4 * n / 5;
  plus = ◌+◌;
}

abbrev samples : List ℤ
samples = pos 10 ∷ pos 20 ∷ []

abbrev contended : List ℕ
contended = 0 ∷ 1 ∷ 0 ∷ 1 ∷ 1 ∷ 1 ∷ []

both_merged :
    observe whole contended 0 (map waiting samples)
    ≡ (12, returned (pos 10) ∷ returned (pos 20) ∷ [])
unfolding observe
both_merged = refl

six_steps : steps whole contended 0 (map waiting samples) ≡ 6
unfolding steps
six_steps = refl

observe-Sequential_example :
    let r = observe whole contended 0 (map waiting samples) in
    (map sample_of r.1 ≡ samples) × Sequential whole 0 r
observe-Sequential_example = observe-Sequential whole 0 samples contended

steps_bounded_example :
    steps whole contended 0 (map waiting samples) ≤ length samples * (2 * length samples + 2)
steps_bounded_example = steps_bounded whole 0 samples contended
