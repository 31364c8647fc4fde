-- ===== src/Strategy/Weighted.antt =====
-- Smooth weighted round robin over the integers, against which Int64 sets internal/strategy/wrr.go, and
-- what both have in common. The map of credits is an association list; a missing key is 0.
pub mod Laws
pub mod Highest
pub mod Credits
pub mod Counts
pub mod Fair
pub mod Int64
mod Tests
use s5lb.Base.{
  ℕ, ◌+◌, Bool, not, ◌||◌, if◌then◌else◌, String, str_eq, List, [], ◌∷◌, Option, none, some, map,
  lookup, put, ℤ, pos, ltb_ℤ, leb_ℤ, pos_part, ◌+ℤ◌, ◌-ℤ◌,
}
use s5lb.Config.Names.{one_of}
use s5lb.Upstream.{Snapshot}
use s5lb.Strategy.{skips}

abbrev pub Credits : Type 0
Credits = List (String × ℤ)

abbrev pub or_zero : Option ℤ → ℤ
or_zero none = pos 0
or_zero (some c) = c

abbrev pub credit : String → Credits → ℤ
credit id current = or_zero (lookup id current)

abbrev pub ids : List Snapshot → List String
ids = map (λ (u : Snapshot). u.id)

-- The keys that are not in the pool are deleted.
unfoldable pub prune : List String → Credits → Credits
prune active [] = []
prune active ((id, c) ∷ rest) =
    let kept = prune active rest in if one_of id active then (id, c) ∷ kept else kept

abbrev pub weight_of : Snapshot → ℕ
weight_of u = if leb_ℤ u.weight (pos 0) then 1 else pos_part u.weight

-- The variables of the loop.
pub record Scan : Type 0 where
  pub current : Credits
  pub total : ℕ
  pub best_id : String
  pub best_cur : ℤ

abbrev pub credited : Snapshot → ℤ → Scan → Scan
credited u cur b = record b { current = put u.id cur b.current; total = b.total + weight_of u }

unfoldable pub add_credit : Snapshot → Scan → Scan
add_credit u b =
    let cur = credit u.id b.current +ℤ pos (weight_of u) in
    if str_eq b.best_id "" || ltb_ℤ b.best_cur cur
    then record (credited u cur b) { best_id = u.id; best_cur = cur }
    else credited u cur b

unfoldable pub scan : ℕ → List Snapshot → Scan → Scan
unfolding add_credit
scan max_per [] b = b
scan max_per (u ∷ pool) b = scan max_per pool (if skips max_per u then b else add_credit u b)

unfoldable pub settle : Scan → Credits × String
settle b =
    if str_eq b.best_id ""
    then (b.current, "")
    else (put b.best_id (b.best_cur -ℤ pos b.total) b.current, b.best_id)

abbrev pub start : List Snapshot → Credits → Scan
start pool current = record {
  current = prune (ids pool) current;
  total = 0;
  best_id = "";
  best_cur = pos 0;
}

unfoldable pub pick : Credits → List Snapshot → ℕ → Credits × String
unfolding scan settle prune
pick current pool max_per = settle (scan max_per pool (start pool current))
