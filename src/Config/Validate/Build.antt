-- ===== src/Config/Validate/Build.antt =====
-- BuildUpstreams on a configuration that Validate has accepted.
use s5lb.Base.{
  ℕ, ◌+◌, ◌≡◌, refl, ◌≢◌, if◌then◌else◌, String, eq_iff, List, [], ◌∷◌, ℤ, pos, negsuc, pos_part,
  leb_ℤ, ◌≤ℤ◌, arith, All,
}
use s5lb.Upstream.{Upstream, State, new_state}
use s5lb.Config.Types.{UpstreamSpec, Config}
use s5lb.Config.Validate.{ok, Env, validate, new_upstream, build_upstreams}
use s5lb.Config.Validate.Laws.{Usable, validate-Bounded}

-- Each upstream of the file with the Upstream built from it.
abbrev pub Built : List UpstreamSpec → List (Upstream × State) → Type 0
Built [] [] = Unit
Built [] (x ∷ xs) = ⊥
Built (s ∷ ss) [] = ⊥
Built (s ∷ ss) ((u, st) ∷ xs) =
    ((u.host ≡ s.host)
      × (pos u.port ≡ s.port)
      × (pos 1 ≤ℤ u.weight)
      × (u.priority ≡ s.priority)
      × (s.id ≢ "" → u.id ≡ s.id)
      × (st ≡ new_state))
    × Built ss xs

pos_pos_part : (z : ℤ) → pos 1 ≤ℤ z → pos (pos_part z) ≡ z
pos_pos_part (pos n) h = refl
pos_pos_part (negsuc n) h = absurd (omega arith)

build_upstreams-Built :
    (addr : String → ℕ → String) (digest : String → String) (i : ℕ) (ss : List UpstreamSpec)
    → All Usable ss
    → (xs : List (Upstream × State)) × (build_upstreams addr digest i ss ≡ ok xs) × Built ss xs
unfolding build_upstreams new_upstream
build_upstreams-Built addr digest i [] h = ([], refl, tt)
build_upstreams-Built addr digest i (s ∷ ss) (usable, h) =
    let (xs, e, built) = build_upstreams-Built addr digest (i + 1) ss h in
    (
      new_upstream addr digest s (if leb_ℤ s.weight (pos 0) then pos 1 else s.weight) ∷ xs,
      ground (arith, e, usable, eq_iff s.host ""),
      (
        (
          refl,
          pos_pos_part s.port usable.1,
          ground (arith, usable),
          refl,
          λ named. ground (arith, eq_iff s.id ""),
          refl,
        ),
        built,
      ),
    )

-- BuildUpstreams cannot fail after Validate: every upstream of the file is built, in order, with its
-- host, port, priority and given ID, a weight of at least 1 and a fresh state.
pub build_upstreams-validate :
    (env : Env) (addr : String → ℕ → String) (digest : String → String) (c c' : Config)
    → validate env c ≡ ok c'
    → (xs : List (Upstream × State)) × (build_upstreams addr digest 0 c.upstreams ≡ ok xs)
      × Built c.upstreams xs
build_upstreams-validate env addr digest c c' e =
    build_upstreams-Built addr digest 0 c.upstreams (validate-Bounded env c c' e).2
