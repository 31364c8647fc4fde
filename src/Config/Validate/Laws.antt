-- ===== src/Config/Validate/Laws.antt =====
-- What a configuration that Validate accepts satisfies.
use s5lb.Base.{
  ℕ, ◌+◌, ◌≡◌, refl, sym, ◌≢◌, inl, inr, Bool, true, false, ◌||◌, if◌then◌else◌, String, str_eq,
  eq_iff, List, [], ◌∷◌, Option, none, some, pos, ◌≤ℤ◌, arith, All, All-imp, Bool-cases, subst,
}
use s5lb.Config.Names.{one_of, valid_strategy_name}
use s5lb.Config.Types.{Kubernetes, Transport, UpstreamSpec, Config}
use s5lb.Config.Validate.{
  Error, Checked, failed, ok, first_error, then_check, then_with, limits, some_upstream,
  from_upstreams, from_choices, from_transport, from_tracing, check_upstreams, is_empty,
  check_kubernetes, with_mode, check_transport, choices, tracing, Env, validate,
}

abbrev pub Quiet : Bool × String → Type 0
Quiet guard = guard.0 ≡ false

first_error-none : (gs : List (Bool × String)) → first_error gs ≡ none → All Quiet gs
unfolding first_error
first_error-none [] e = tt
first_error-none ((true, m) ∷ gs) e = absurd (cc)
first_error-none ((false, m) ∷ gs) e = (refl, first_error-none gs e)

pub then_check-ok :
    {A : Type 0} (o : Option Error) (rest : Checked A) (a : A)
    → then_check o rest ≡ ok a
    → (o ≡ none) × (rest ≡ ok a)
then_check-ok none rest a e = (refl, e)
then_check-ok (some x) rest a e = absurd (cc)

pub then_with-ok :
    {A B : Type 0} (x : Checked A) (f : A → Checked B) (b : B)
    → then_with x f ≡ ok b
    → (a : A) × (x ≡ ok a) × (f a ≡ ok b)
then_with-ok (failed e) f b h = absurd (cc)
then_with-ok (ok a) f b h = (a, refl, h)

pub ok-injective : {A : Type 0} (a b : A) → ok a ≡ ok b → a ≡ b
ok-injective a b e = cc

-- An upstream of the file that can be built.
abbrev pub Usable : UpstreamSpec → Type 0
Usable u = (u.host ≢ "") × (pos 1 ≤ℤ u.port) × (u.port ≤ℤ pos 65535) × (pos 0 ≤ℤ u.weight)

-- No two upstreams have the same ID, if it is given.
abbrev pub IdsApart : List UpstreamSpec → Type 0
IdsApart [] = Unit
IdsApart (u ∷ us) = (u.id ≢ "" → All (λ v. v.id ≢ u.id) us) × IdsApart us

abbrev Unseen : List String → UpstreamSpec → Type 0
Unseen seen u = u.id ≢ "" → one_of u.id seen ≡ false

check_upstreams-cons :
    (i : ℕ) (seen : List String) (u : UpstreamSpec) (us : List UpstreamSpec)
    → check_upstreams i seen (u ∷ us) ≡ none
    → Usable u
      × Unseen seen u
      × (check_upstreams (i + 1) (if str_eq u.id "" then seen else u.id ∷ seen) us ≡ none)
unfolding check_upstreams
check_upstreams-cons i seen u us e = (
  (
    ground (arith, eq_iff u.host ""),
    ground (arith, eq_iff u.host ""),
    ground (arith, eq_iff u.host ""),
    ground (arith, eq_iff u.host ""),
  ),
  (λ named. ground (arith, eq_iff u.id "")),
  ground arith,
)

check_upstreams-apart :
    (i : ℕ) (seen : List String) (us : List UpstreamSpec)
    → check_upstreams i seen us ≡ none
    → All Usable us × All (Unseen seen) us × IdsApart us
unfolding one_of
check_upstreams-apart i seen [] e = (tt, tt, tt)
check_upstreams-apart i seen (u ∷ us) e =
    let (usable, unseen, rest) = check_upstreams-cons i seen u us e in
    let (all_usable, later, apart) =
      check_upstreams-apart (i + 1) (if str_eq u.id "" then seen else u.id ∷ seen) us rest in
    (
      (usable, all_usable),
      (unseen, All-imp us (λ v h named. ground (arith, h named)) later),
      (
        (λ named.
            All-imp us (λ v h same. ground (arith, eq_iff u.id "", eq_iff v.id u.id, h)) later),
        apart,
      ),
    )

-- The bounds that the rest of the program relies on.
pub record Bounded (c : Config) : Type 0 where
  pub max_per_proxy : pos 1 ≤ℤ c.max_per_proxy
  pub max_clients : pos 1 ≤ℤ c.max_clients
  pub health_interval : pos 1 ≤ℤ c.health_interval
  pub connect_timeout : pos 1 ≤ℤ c.connect_timeout
  pub handshake_timeout : pos 1 ≤ℤ c.handshake_timeout
  pub admission_wait_timeout : pos 0 ≤ℤ c.admission_wait_timeout
  pub failure_threshold : pos 1 ≤ℤ c.failure_threshold
  pub failure_window : pos 1 ≤ℤ c.failure_window
  pub udp_idle_timeout : c.udp_enabled ≡ true → pos 1 ≤ℤ c.udp_idle_timeout

limits-Bounded : (is_ip : String → Bool) (c : Config) → All Quiet (limits is_ip c) → Bounded c
limits-Bounded is_ip c
      (
        _,
        (
          per,
          (clients, (health, (_, (shake, (_, (wait, (threshold, (window, (_, (_, (udp, _))))))))))),
        ),
      ) =
    record {
      max_per_proxy = ground arith;
      max_clients = ground arith;
      health_interval = ground arith;
      connect_timeout = ground arith;
      handshake_timeout = ground arith;
      admission_wait_timeout = ground arith;
      failure_threshold = ground arith;
      failure_window = ground arith;
      udp_idle_timeout = λ on. ground arith;
    }

-- The steps of Validate, each of which passed.
pub record Passed (env : Env) (c c' : Config) : Type 0 where
  pub quiet : All Quiet (limits env.is_ip c)
  pub some_upstream : is_empty c.upstreams ≡ false
  pub upstreams : check_upstreams 0 [] c.upstreams ≡ none
  pub chosen : All Quiet (choices env.splits env.normal c)
  pub t : Transport
  pub transport : check_transport c.transport ≡ ok t
  pub traced : All Quiet (tracing env.in_unit c)
  pub result : c' ≡ record c { transport = t }

validate-Passed : (env : Env) (c c' : Config) → validate env c ≡ ok c' → Passed env c c'
unfolding validate
validate-Passed env c c' e =
    let (a, e1) =
      then_check-ok (first_error (limits env.is_ip c))
        (then_check (some_upstream c) (from_upstreams env c)) c' e in
    let (b, e2) = then_check-ok (some_upstream c) (from_upstreams env c) c' e1 in
    let (d, e3) = then_check-ok (check_upstreams 0 [] c.upstreams) (from_choices env c) c' e2 in
    let (f, e4) =
      then_check-ok (first_error (choices env.splits env.normal c)) (from_transport env c) c' e3 in
    let (t, g, e5) = then_with-ok (check_transport c.transport) (from_tracing env c) c' e4 in
    let (h, e6) =
      then_check-ok (first_error (tracing env.in_unit c)) (ok (record c { transport = t })) c' e5 in
    record {
      quiet = first_error-none (limits env.is_ip c) a;
      some_upstream = ground (arith, b);
      upstreams = d;
      chosen = first_error-none (choices env.splits env.normal c) f;
      t = t;
      transport = g;
      traced = first_error-none (tracing env.in_unit c) h;
      result = sym (ok-injective (record c { transport = t }) c' e6);
    }

-- What Validate accepts: positive limits and intervals, an admission wait of at least 0, a positive
-- UDP timeout where UDP is enabled, at least one upstream, every upstream with a
-- host, a port in [1,65535] and a weight of at least 0, no ID given twice, and a known strategy. Only
-- the transport may be changed, to its defaults.
pub validate-Bounded :
    (env : Env) (c c' : Config)
    → validate env c ≡ ok c'
    → Bounded c
      × (is_empty c.upstreams ≡ false)
      × All Usable c.upstreams
      × IdsApart c.upstreams
      × (valid_strategy_name env.normal c.strategy ≡ true)
      × (c' ≡ record c { transport = c'.transport })
validate-Bounded env c c' e =
    let passed = validate-Passed env c c' e in
    let (usable, _, apart) = check_upstreams-apart 0 [] c.upstreams passed.upstreams in
    (
      limits-Bounded env.is_ip c passed.quiet,
      passed.some_upstream,
      usable,
      apart,
      ground (arith, passed.chosen),
      subst (λ x. x ≡ record c { transport = x.transport }) (sym passed.result) refl,
    )

first_error-Quiet : (gs : List (Bool × String)) → All Quiet gs → first_error gs ≡ none
unfolding first_error
first_error-Quiet [] q = refl
first_error-Quiet ((true, m) ∷ gs) (q, qs) = absurd (cc)
first_error-Quiet ((false, m) ∷ gs) (q, qs) = first_error-Quiet gs qs

with_mode-again : (k : Kubernetes) → with_mode (with_mode k) ≡ with_mode k
unfolding with_mode
with_mode-again k = elim (Bool-cases (str_eq k.mode "")) [
  | inl e ↦ rw e refl
  | inr e ↦ rw e (rw e refl)
]

check_transport-again : (t t' : Transport) → check_transport t ≡ ok t' → check_transport t' ≡ ok t'
unfolding check_transport
check_transport-again t t' e = elim (Bool-cases (str_eq t.kind "" || str_eq t.kind "direct")) [
  | inl direct ↦
      subst (λ x. check_transport x ≡ ok x)
        (ok-injective (record t { kind = "direct" }) t' (rw direct at e)) refl
  | inr other ↦ elim (Bool-cases (str_eq t.kind "kubernetes-exec")) [
    | inr unknown ↦ absurd (ground (arith, other, unknown))
    | inl exec ↦
        let passed =
          then_check-ok (check_kubernetes (with_mode t.kubernetes))
            (ok (record t { kubernetes = with_mode t.kubernetes })) t' (rw (other, exec) at e) in
        subst (λ x. check_transport x ≡ ok x)
          (ok-injective (record t { kubernetes = with_mode t.kubernetes }) t' passed.1)
          (rw (other, exec, with_mode-again t.kubernetes, passed.0) refl)
  ]
]

-- Validating a configuration that Validate has normalised changes nothing.
pub validate-again : (env : Env) (c c' : Config) → validate env c ≡ ok c' → validate env c' ≡ ok c'
unfolding validate
validate-again env c c' e =
    let passed = validate-Passed env c c' e in
    let same = check_transport-again c.transport passed.t passed.transport in
    subst (λ x. validate env x ≡ ok x) (sym passed.result)
      (rw (first_error-Quiet (limits env.is_ip c) passed.quiet) (
        rw passed.some_upstream (
          rw passed.upstreams (
            rw (first_error-Quiet (choices env.splits env.normal c) passed.chosen)
              (rw same (rw (first_error-Quiet (tracing env.in_unit c) passed.traced) refl))))))
