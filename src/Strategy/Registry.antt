-- ===== src/Strategy/Registry.antt =====
-- internal/strategy/registry.go: selectors by name.
use s5lb.Base.{
  Bool, true, false, ◌||◌, ◌≡◌, refl, sym, ap, ◌∙◌, String, List, [], ◌∷◌, Option, none, some,
  arith, if◌then◌else◌,
}
use s5lb.Config.Names.{one_of, one_of-append, valid_strategy_names, valid_strategy_name}

-- The type of the selector that New returns.
pub data Kind : Type 0 where
  least_active round_robin wrr random weighted_random p2c least_latency : Kind
  consistent_hash priority_failover : Kind

-- The names of each `case`.
abbrev aliases : Kind → List String
aliases least_active = "" ∷ "least-active" ∷ "leastconn" ∷ []
aliases round_robin = "round-robin" ∷ "rr" ∷ []
aliases wrr = "weighted-round-robin" ∷ "wrr" ∷ []
aliases random = "random" ∷ []
aliases weighted_random = "weighted-random" ∷ "wrandom" ∷ []
aliases p2c = "p2c" ∷ "power-of-two" ∷ []
aliases least_latency = "least-latency" ∷ "ll" ∷ []
aliases consistent_hash = "consistent-hash" ∷ "hash" ∷ []
aliases priority_failover = "priority-failover" ∷ "priority" ∷ "failover" ∷ []

-- The switch, top to bottom; `none` is the error.
switch : (Kind → Bool) → Option Kind
switch matches =
    if matches least_active
    then some least_active
    else if matches round_robin
    then some round_robin
    else if matches wrr
    then some wrr
    else if matches random
    then some random
    else if matches weighted_random
    then some weighted_random
    else if matches p2c
    then some p2c
    else if matches least_latency
    then some least_latency
    else if matches consistent_hash
    then some consistent_hash
    else if matches priority_failover
    then some priority_failover
    else none

-- `normal` is strings.ToLower(strings.TrimSpace(name)).
unfoldable pub new : (String → String) → String → Option Kind
unfolding switch
new normal name = switch (λ k. one_of (normal name) (aliases k))

-- The Name() of each selector.
abbrev pub name_of : Kind → String
name_of least_active = "least-active"
name_of round_robin = "round-robin"
name_of wrr = "weighted-round-robin"
name_of random = "random"
name_of weighted_random = "weighted-random"
name_of p2c = "p2c"
name_of least_latency = "least-latency"
name_of consistent_hash = "consistent-hash"
name_of priority_failover = "priority-failover"

abbrev pub names : List String
names =
    "least-active" ∷ "round-robin" ∷ "weighted-round-robin" ∷ "random" ∷ "weighted-random" ∷ "p2c"
    ∷ "least-latency" ∷ "consistent-hash" ∷ "priority-failover" ∷ []

abbrev is_some : Option Kind → Bool
is_some none = false
is_some (some k) = true

abbrev any_kind : (Kind → Bool) → Bool
any_kind m =
    m least_active
    || (m round_robin
        || (m wrr
            || (m random
                || (m weighted_random
                    || (m p2c
                        || (m least_latency || (m consistent_hash || m priority_failover)))))))

switch_lem : (m : Kind → Bool) → is_some (switch m) ≡ any_kind m
unfolding switch
switch_lem m = ground arith

split_names :
    (name : String) → one_of name valid_strategy_names ≡ any_kind (λ k. one_of name (aliases k))
split_names name = simp (← one_of-append)

-- Validation accepts a strategy name exactly if the registry has a selector for it.
pub new-valid :
    (normal : String → String) (name : String)
    → is_some (new normal name) ≡ valid_strategy_name normal name
unfolding new valid_strategy_name
new-valid normal name =
    switch_lem (λ k. one_of (normal name) (aliases k)) ∙ sym (split_names (normal name))

switch-name_of : (k : Kind) → switch (λ j. one_of (name_of k) (aliases j)) ≡ some k
unfolding switch one_of
switch-name_of least_active = refl
switch-name_of _ = refl

-- A selector's own name brings that selector back, if the name is in its normal form.
pub new-name_of :
    (normal : String → String) (k : Kind)
    → normal (name_of k) ≡ name_of k
    → new normal (name_of k) ≡ some k
unfolding new
new-name_of normal k e = ap (λ n. switch (λ j. one_of n (aliases j))) e ∙ switch-name_of k
