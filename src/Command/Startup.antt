-- ===== src/Command/Startup.antt =====
-- What cmd/s5lb/main.go hands to the manager: the file, the flags over it, and the -upstream arguments.
use s5lb.Base.{
  ℕ, suc, ◌≤◌, ◌≡◌, refl, sym, ap, ◌∙◌, subst, false, if-elim, String, List, [], ◌∷◌, ◌++◌, Option,
  none, some, pos, leb_ℤ, append_nil, append_assoc, length, OnSome, All, arith,
}
use s5lb.Upstream.{Upstream}
use s5lb.Config.Types.{Config, UpstreamSpec}
use s5lb.Config.Validate.{Checked, ok, is_empty}
use s5lb.Config.Validate.Laws.{then_with-ok, ok-injective}
use s5lb.Config.Groups.{MultiConfig, effective_groups, validate_multi}
use s5lb.Config.Parse.{Text, parse_upstream}
use s5lb.Config.Parse.Laws.{Usable, parse_upstream-Usable}
use s5lb.Command.{
  World, Flags, load, apply_flag_overrides, spec_of, given_upstream, add_upstreams, lacks_upstream,
  checked, with_flags, prepare,
}

-- A -upstream argument that was accepted, as an entry of the configuration.
unfoldable pub Sound : UpstreamSpec → Type 0
Sound u = (n : ℕ) × (u.port ≡ pos n) × (1 ≤ n) × (n ≤ 65535) × (leb_ℤ u.weight (pos 0) ≡ false)

given_upstream-Sound :
    (o : Option Upstream) (u : UpstreamSpec) → OnSome Usable o → given_upstream o ≡ ok u → Sound u
unfolding OnSome Usable Sound spec_of
given_upstream-Sound none u h e = absurd (cc)
given_upstream-Sound (some x) u h e =
    subst Sound (ok-injective (spec_of x) u e) (x.port, refl, h.0.0, h.0.1, h.1)

unfoldable pub Added : List String → List UpstreamSpec → List UpstreamSpec → Type 0
Added specs us vs =
    (added : List UpstreamSpec) × (vs ≡ us ++ added)
    × All Sound added
    × (length added ≡ length specs)

add_upstreams-Added :
    (t : Text) (specs : List String) (us vs : List UpstreamSpec)
    → add_upstreams t specs us ≡ ok vs
    → Added specs us vs
unfolding add_upstreams Added
add_upstreams-Added t [] us vs e = ([], sym (ok-injective us vs e) ∙ sym (append_nil us), tt, refl)
add_upstreams-Added t (spec ∷ specs) us vs e =
    let (u, first, rest) = then_with-ok (given_upstream (parse_upstream t spec)) _ vs e in
    let (added, same, sound, count) = add_upstreams-Added t specs (us ++ u ∷ []) vs rest in
    (
      u ∷ added,
      same ∙ append_assoc us (u ∷ []) added,
      (given_upstream-Sound (parse_upstream t spec) u (parse_upstream-Usable t spec) first, sound),
      ap (λ n. suc n) count,
    )

abbrev HasUpstream : Config → Type 0
HasUpstream c = is_empty c.upstreams ≡ false

lacks_upstream-none : (cs : List Config) → lacks_upstream cs ≡ false → All HasUpstream cs
unfolding lacks_upstream
lacks_upstream-none [] e = tt
lacks_upstream-none (c ∷ cs) e = ground (arith, e, lacks_upstream-none cs)

checked-ok :
    (w : World) (mc r : MultiConfig)
    → checked w mc ≡ ok r
    → (validate_multi w.env mc ≡ ok r) × All HasUpstream (effective_groups mc)
unfolding checked
checked-ok w mc r =
    if-elim
      (λ (c : Checked MultiConfig).
        c ≡ ok r → (validate_multi w.env mc ≡ ok r) × All HasUpstream (effective_groups mc))
      (lacks_upstream (effective_groups mc)) _ _ (λ h e. absurd (cc))
      (λ h e. (e, lacks_upstream-none (effective_groups mc) h))

-- The configuration of the file with the flags over it and the -upstream arguments behind its upstreams.
unfoldable pub Made : World → Flags → MultiConfig → Type 0
Made w f mc =
    (base : MultiConfig) × (us : List UpstreamSpec) × (load w f.config ≡ ok base)
    × Added f.upstreams (apply_flag_overrides w.lower f base.config).upstreams us
    × (mc ≡ record base {
      config = record (apply_flag_overrides w.lower f base.config) { upstreams = us };
    })

-- If the program starts, the manager gets what Validate leaves of the configuration of the file (or the
-- defaults) with the flags over it and one upstream for each -upstream argument behind those of the
-- file, each with a port from 1 to 65535 and a weight above zero; that configuration passes Validate, and
-- every group of it has an upstream.
pub prepare_lem :
    (w : World) (f : Flags) (mc : MultiConfig)
    → prepare w f ≡ ok mc
    → (full : MultiConfig) × Made w f full
      × (validate_multi w.env full ≡ ok mc)
      × All HasUpstream (effective_groups full)
unfolding prepare with_flags Made
prepare_lem w f mc e =
    let (base, read, more) = then_with-ok (load w f.config) _ mc e in
    let c = apply_flag_overrides w.lower f base.config in
    let (us, parsed, last) =
      then_with-ok (add_upstreams w.text f.upstreams c.upstreams) _ mc more in
    let full = record base { config = record c { upstreams = us } } in
    let (valid, some_upstream) = checked-ok w full mc last in
    (
      full,
      (base, us, read, add_upstreams-Added w.text f.upstreams c.upstreams us parsed, refl),
      valid,
      some_upstream,
    )
