-- ===== src/Upstream/Latency.antt =====
-- ObserveLatency in internal/upstream/state.go, which takes no lock: it loads the average, and stores the
-- next one if the average is still the same, else it starts again. Any number of calls run at once;
-- each step of one is atomic. `Float64` is what the code does with float64.
pub mod Order
pub mod Ends
mod Tests
use s5lb.Base.{ℕ, zero, suc, Bool, ◌==◌, if◌then◌else◌, List, [], ◌∷◌, ℤ}

-- `seconds` is Duration.Seconds, `times` are the products with ewmaAlpha and with 1-ewmaAlpha.
pub record Float64 (W : Type 0) : Type 0 where
  pub seconds : ℤ → W
  pub from_bits : ℕ → W
  pub to_bits : W → ℕ
  pub is_zero : W → Bool
  pub times_alpha : W → W
  pub times_rest : W → W
  pub plus : W → W → W

-- A call with its sample: before its Load, between Load and CompareAndSwap, and over.
pub data Call : Type 0 where
  waiting : ℤ → Call
  loaded : ℤ → ℕ → Call
  returned : ℤ → Call

module _ {W : Type 0} (f : Float64 W) where
  -- The bits that a sample makes of `prev`.
  unfoldable pub next_bits : ℤ → ℕ → ℕ
  next_bits d prev =
      let sample = f.seconds d in
      let cur = f.from_bits prev in
      f.to_bits (if f.is_zero cur then sample else f.plus (f.times_alpha sample) (f.times_rest cur))

  -- The next atomic step of a call, on the bits of the average.
  unfoldable pub advance : ℕ → Call → ℕ × Call
  unfolding next_bits
  advance bits (waiting d) = (bits, loaded d bits)
  advance bits (loaded d prev) =
      if bits == prev then (next_bits d prev, returned d) else (bits, waiting d)
  advance bits (returned d) = (bits, returned d)

  -- The call at a place of the list makes its step.
  unfoldable pub advance_at : ℕ → ℕ → List Call → ℕ × List Call
  unfolding advance
  advance_at i bits [] = (bits, [])
  advance_at zero bits (c ∷ cs) = let (b, c') = advance bits c in (b, c' ∷ cs)
  advance_at (suc i) bits (c ∷ cs) = let (b, cs') = advance_at i bits cs in (b, c ∷ cs')

  -- Any interleaving: the places of the calls that make the steps, in order.
  unfoldable pub observe : List ℕ → ℕ → List Call → ℕ × List Call
  unfolding advance_at
  observe [] bits cs = (bits, cs)
  observe (i ∷ is) bits cs = let (b, cs') = advance_at i bits cs in observe is b cs'
