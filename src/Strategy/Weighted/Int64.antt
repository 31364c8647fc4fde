-- ===== src/Strategy/Weighted/Int64.antt =====
-- Pick in internal/strategy/wrr.go with the credits and the total as int64, whose sums and differences
-- wrap around.
pub mod Exact
pub mod Shares
use s5lb.Base.{
  ℕ, ◌+◌, ◌-◌, ◌%◌, ◌^◌, ltb, ◌||◌, if◌then◌else◌, String, str_eq, List, [], ◌∷◌, put, ℤ, pos,
  ltb_ℤ, pos_part, neg_part, ◌+ℤ◌, ◌-ℤ◌,
}
use s5lb.Upstream.{Snapshot}
use s5lb.Strategy.{skips}
use s5lb.Strategy.Weighted.{Credits, credit, ids, prune, weight_of}

-- The int64 of the same bits.
unfoldable pub int64 : ℤ → ℤ
unfolding ◌-ℤ◌
int64 a =
    let r = (pos_part a + (2 ^ 64 - neg_part a % 2 ^ 64)) % 2 ^ 64 in
    if ltb r (2 ^ 63) then pos r else pos r -ℤ pos (2 ^ 64)

-- The variables of the loop.
pub record Scan : Type 0 where
  pub current : Credits
  pub total : ℤ
  pub best_id : String
  pub best_cur : ℤ

abbrev pub credited : Snapshot → ℤ → Scan → Scan
credited u cur b = record b {
  current = put u.id cur b.current;
  total = int64 (b.total +ℤ pos (weight_of u));
}

unfoldable pub add_credit : Snapshot → Scan → Scan
unfolding int64
add_credit u b =
    let cur = int64 (credit u.id b.current +ℤ pos (weight_of u)) in
    if str_eq b.best_id "" || ltb_ℤ b.best_cur cur
    then record (credited u cur b) { best_id = u.id; best_cur = cur }
    else credited u cur b

unfoldable pub scan : ℕ → List Snapshot → Scan → Scan
unfolding add_credit
scan max_per [] b = b
scan max_per (u ∷ pool) b = scan max_per pool (if skips max_per u then b else add_credit u b)

unfoldable pub settle : Scan → Credits × String
unfolding int64
settle b =
    if str_eq b.best_id ""
    then (b.current, "")
    else (put b.best_id (int64 (b.best_cur -ℤ b.total)) b.current, b.best_id)

abbrev pub start : List Snapshot → Credits → Scan
start pool current = record {
  current = prune (ids pool) current;
  total = pos 0;
  best_id = "";
  best_cur = pos 0;
}

unfoldable pub pick : Credits → List Snapshot → ℕ → Credits × String
unfolding scan settle prune
pick current pool max_per = settle (scan max_per pool (start pool current))
