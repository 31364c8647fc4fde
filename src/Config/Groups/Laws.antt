-- ===== src/Config/Groups/Laws.antt =====
-- What Validate guarantees for the groups that EffectiveGroups returns.
use s5lb.Base.{
  ◌∙◌, ℕ, ◌+◌, ◌≡◌, refl, sym, ◌≢◌, ap, Bool, true, false, if◌then◌else◌, String, eq_iff, List, [],
  ◌∷◌, Option, none, some, map, arith, All, All-imp, Option-cases, inl, inr, Bool-cases,
}
use s5lb.Config.Names.{one_of}
use s5lb.Config.Types.{Config}
use s5lb.Config.Validate.{Error, Checked, failed, ok, is_empty, Env, validate}
use s5lb.Config.Validate.Laws.{then_check-ok, then_with-ok, ok-injective, validate-Bounded}
use s5lb.Config.Groups.{
  GroupConfig, MultiConfig, effective, effective_groups, group_names, check_names, unless_failed,
  check_effective, check_groups, validate_multi,
}

abbrev pub Accepted : Env → Config → Type 0
Accepted env c = (c' : Config) × (validate env c ≡ ok c')

-- No string twice.
abbrev pub Distinct : List String → Type 0
Distinct [] = Unit
Distinct (x ∷ xs) = All (λ y. y ≢ x) xs × Distinct xs

abbrev Unseen : List String → String → Type 0
Unseen seen x = one_of x seen ≡ false

abbrev pub addresses : List Config → List String
addresses = map (λ (c : Config). c.listen_addr)

abbrev names : List GroupConfig → List String
names = map (λ (g : GroupConfig). g.name)

Unseen-cons :
    (x : String) (seen xs : List String)
    → All (Unseen (x ∷ seen)) xs
    → All (Unseen seen) xs × All (λ y. y ≢ x) xs
unfolding one_of
Unseen-cons x seen xs h = (
  All-imp xs (λ y u. ground (arith, u)) h,
  All-imp xs (λ y u same. ground (arith, u, same, eq_iff y x)) h,
)

unless_failed-none :
    (name : String) (c : Checked Config) (later : Option Error)
    → unless_failed name c later ≡ none
    → ((c' : Config) × (c ≡ ok c')) × (later ≡ none)
unless_failed-none name (failed e) later h = absurd (cc)
unless_failed-none name (ok c) later h = ((c, refl), h)

if-none :
    (b : Bool) (e : Error) (later : Option Error)
    → (if b then some e else later) ≡ none
    → (b ≡ false) × (later ≡ none)
if-none true e later h = absurd (cc)
if-none false e later h = (refl, h)

check_names-none :
    (i : ℕ) (seen : List String) (gs : List GroupConfig)
    → check_names i seen gs ≡ none
    → All (Unseen seen) (names gs) × Distinct (names gs) × All (λ n. n ≢ "") (names gs)
unfolding check_names
check_names-none i seen [] e = (tt, tt, tt)
check_names-none i seen (g ∷ gs) e =
    let (later, apart, named) = check_names-none (i + 1) (g.name ∷ seen) gs (ground arith) in
    let (unseen, others) = Unseen-cons g.name seen (names gs) later in
    ((ground arith, unseen), (others, apart), (ground (arith, eq_iff g.name ""), named))

check_effective-none :
    (env : Env) (seen : List String) (cs : List Config)
    → check_effective env seen cs ≡ none
    → All (Unseen seen) (addresses cs) × Distinct (addresses cs) × All (Accepted env) cs
unfolding check_effective
check_effective-none env seen [] e = (tt, tt, tt)
check_effective-none env seen (c ∷ cs) e =
    let (accepted, rest) = unless_failed-none c.group_name (validate env c) _ e in
    let (fresh, later_ok) = if-none (one_of c.listen_addr seen) _ _ rest in
    let (later, apart, all_ok) = check_effective-none env (c.listen_addr ∷ seen) cs later_ok in
    let (unseen, others) = Unseen-cons c.listen_addr seen (addresses cs) later in
    ((fresh, unseen), (others, apart), (accepted, all_ok))

validate_multi-several :
    (env : Env) (mc r : MultiConfig)
    → is_empty mc.groups ≡ false
    → validate_multi env mc ≡ ok r
    → (r ≡ mc)
      × (check_names 0 [] mc.groups ≡ none)
      × (check_effective env [] (effective_groups mc) ≡ none)
unfolding validate_multi check_groups
validate_multi-several env mc r several e =
    let (good, same) = then_check-ok (check_groups env mc) (ok mc) r (rw several at e) in
    elim (Option-cases (check_names 0 [] mc.groups)) [
      | inr (x, bad) ↦ absurd (ground (arith, rw (bad, check_groups) at good))
      | inl named ↦ (sym (ok-injective mc r same), named, rw (named, check_groups) at good)
    ]

-- When a file with groups passes Validate, it is left as it was, every configuration of
-- EffectiveGroups passes Validate by itself, no
-- two listen on the same address, no two groups have the same name, and no name is empty.
pub validate_multi-groups :
    (env : Env) (mc r : MultiConfig)
    → is_empty mc.groups ≡ false
    → validate_multi env mc ≡ ok r
    → (r ≡ mc)
      × All (Accepted env) (effective_groups mc)
      × Distinct (addresses (effective_groups mc))
      × Distinct (group_names mc)
      × All (λ n. n ≢ "") (group_names mc)
unfolding group_names
validate_multi-groups env mc r several e =
    let (same, good, effective_ok) = validate_multi-several env mc r several e in
    let (_, named, nonempty) = check_names-none 0 [] mc.groups good in
    let (_, apart, accepted) = check_effective-none env [] (effective_groups mc) effective_ok in
    (same, accepted, apart, rw several named, rw several nonempty)

name_of_effective :
    (c : Config) (gs : List GroupConfig)
    → map (λ (x : Config). x.group_name) (map (effective c) gs) ≡ names gs
unfolding effective
name_of_effective c [] = refl
name_of_effective c (g ∷ gs) = ap (◌∷◌ g.name) (name_of_effective c gs)

-- EffectiveGroups returns one configuration for each name of GroupNames, in that order.
pub effective_groups-names :
    (mc : MultiConfig) → map (λ (c : Config). c.group_name) (effective_groups mc) ≡ group_names mc
unfolding effective_groups group_names
effective_groups-names mc = elim (Bool-cases (is_empty mc.groups)) [
  | inl single ↦ rw single refl
  | inr several ↦ rw several (name_of_effective mc.config mc.groups)
]

-- Validate leaves the names of the groups as they are.
pub group_names-validate_multi :
    (env : Env) (mc r : MultiConfig) → validate_multi env mc ≡ ok r → group_names r ≡ group_names mc
unfolding validate_multi group_names
group_names-validate_multi env mc r e = elim (Bool-cases (is_empty mc.groups)) [
  | inr several ↦ ap group_names (validate_multi-several env mc r several e).0
  | inl single ↦
      let (c, valid, made) =
        then_with-ok (validate env mc.config) (λ c. ok (record mc { config = c })) r
          (rw single at e) in
      let same = (validate-Bounded env mc.config c valid).5 in
      ap group_names (sym (ok-injective (record mc { config = c }) r made))
      ∙ ap (λ (x : Config). group_names (record mc { config = x })) same
]
