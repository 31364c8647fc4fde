-- ===== src/Strategy/LeastLatency/Tests.antt =====
-- Latencies as whole numbers, with the score as their product with the sessions.
use s5lb.Base.{
  ℕ, ◌*◌, ◌≡◌, refl, ◌≢◌, ◌⊎◌, true, false, ltb, ◌==◌, String, eq_iff, List, [], ◌∷◌, arith, All,
  Any, pos,
}
use s5lb.Upstream.{Snapshot}
use s5lb.Strategy.{NoneTakes, Named}
use s5lb.Strategy.LeastLatency.{Float, pick}
use s5lb.Strategy.LeastLatency.Laws.{IsOrdered, IsBest, Lowest, pick-Lowest}

abbrev whole : Float ℕ
whole = record {
  latency = λ n. n;
  not_positive = λ n. n == 0;
  tiny = 1;
  times = λ l n. l * n;
  top = 1000000;
  less = ltb;
  same = ◌==◌;
}

whole-IsOrdered : IsOrdered whole
whole-IsOrdered = record {
  less_irrefl = λ a. ground arith;
  less_trans = λ a b c h k. ground arith;
  less_asym = λ a b h. ground arith;
  same_less = λ a b h. ground arith;
  same_sym = λ a b h. ground arith;
}

abbrev member : String → ℕ → ℕ → Snapshot
member id latency active = record {
  id = id;
  addr = id;
  weight = pos 1;
  priority = pos 0;
  active = active;
  healthy = true;
  draining = false;
  consecutive_failures = 0;
  ewma_latency = latency;
  total_sessions = 0;
  total_failures = 0;
}

abbrev three : List Snapshot
three = member "a" 20 1 ∷ member "b" 30 0 ∷ member "full" 1 2 ∷ []

abbrev never : ℕ → ℕ → ℕ
never k n = 1

lowest_is_b : pick whole never three 2 ≡ "b"
unfolding pick
lowest_is_b = refl

three-Named : All Named three
three-Named = (
  (λ e. ground (arith, eq_iff "a" "", e)),
  ((λ e. ground (arith, eq_iff "b" "", e)), ((λ e. ground (arith, eq_iff "full" "", e)), tt)),
)

pick-Lowest_example :
    ((pick whole never three 2 ≡ "") × NoneTakes 2 three)
    ⊎ ((pick whole never three 2 ≢ "")
        × ((w : ℕ) × Any (IsBest whole 2 (pick whole never three 2) w) three
            × Lowest whole 2 w three))
pick-Lowest_example = pick-Lowest whole whole-IsOrdered never 2 three three-Named
