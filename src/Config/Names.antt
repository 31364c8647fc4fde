-- ===== src/Config/Names.antt =====
-- The strategy names that the configuration accepts (config.go, validStrategyNames).
use s5lb.Base.{Bool, false, ◌||◌, ◌≡◌, refl, String, str_eq, List, [], ◌∷◌, ◌++◌, arith}

-- A `case` of a switch on a string, or a look-up in a set of strings.
unfoldable pub one_of : String → List String → Bool
one_of name [] = false
one_of name (x ∷ xs) = str_eq name x || one_of name xs

pub one_of-append :
    (name : String) (xs ys : List String)
    → one_of name (xs ++ ys) ≡ (one_of name xs || one_of name ys)
unfolding one_of
one_of-append name [] ys = refl
one_of-append name (x ∷ xs) ys = ground (arith, one_of-append name xs ys)

abbrev pub valid_strategy_names : List String
valid_strategy_names =
    "" ∷ "least-active" ∷ "leastconn" ∷ "round-robin" ∷ "rr" ∷ "weighted-round-robin" ∷ "wrr"
    ∷ "random" ∷ "weighted-random" ∷ "wrandom" ∷ "p2c" ∷ "power-of-two" ∷ "least-latency" ∷ "ll"
    ∷ "consistent-hash" ∷ "hash" ∷ "priority-failover" ∷ "priority" ∷ "failover" ∷ []

-- `normal` is strings.ToLower(strings.TrimSpace(name)).
unfoldable pub valid_strategy_name : (String → String) → String → Bool
valid_strategy_name normal name = one_of (normal name) valid_strategy_names
