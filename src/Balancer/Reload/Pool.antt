-- ===== src/Balancer/Reload/Pool.antt =====
-- What setUpstreams makes of the pool.
use s5lb.Base.{
  ◌≡◌, refl, ◌∙◌, ap, inl, inr, true, false, if◌then◌else◌, String, str_eq, eq_iff, List, [], ◌∷◌,
  Option, none, some, map, arith, Option-cases,
}
use s5lb.Config.Names.{one_of}
use s5lb.Balancer.Pool.{Member, find}
use s5lb.Balancer.Reload.{repeated, insert, sort_by_priority, keep, set_upstreams}

abbrev pub kept : List Member → Option Member → Option Member
kept old none = none
kept old (some m) = some (keep old m)

keep-id : (old : List Member) (m : Member) → (keep old m).up ≡ m.up
unfolding keep
keep-id old m = elim (Option-cases (find m.up.id old)) [
  | inl e ↦ ground (arith, e)
  | inr (o, e) ↦ ground (arith, e)
]

find-map-keep :
    (id : String) (old ms : List Member) → find id (map (keep old) ms) ≡ kept old (find id ms)
unfolding find
find-map-keep id old [] = refl
find-map-keep id old (m ∷ ms) = ground (arith, keep-id old m, find-map-keep id old ms)

find-insert :
    (id : String) (m : Member) (ms : List Member)
    → find m.up.id ms ≡ none
    → find id (insert m ms) ≡ (if str_eq m.up.id id then some m else find id ms)
unfolding find insert
find-insert id m [] e = refl
find-insert id m (x ∷ xs) e =
    ground
      (arith, eq_iff m.up.id id, eq_iff x.up.id id, eq_iff x.up.id m.up.id, find-insert id m xs)

repeated-find :
    (id : String) (seen : List String) (ms : List Member)
    → repeated seen ms ≡ false
    → one_of id seen ≡ true
    → find id ms ≡ none
unfolding repeated find one_of
repeated-find id seen [] e h = refl
repeated-find id seen (m ∷ ms) e h =
    ground (arith, eq_iff m.up.id id, eq_iff id m.up.id, repeated-find id (m.up.id ∷ seen) ms)

find-sort :
    (id : String) (seen : List String) (ms : List Member)
    → repeated seen ms ≡ false
    → find id (sort_by_priority ms) ≡ find id ms
unfolding repeated sort_by_priority find one_of
find-sort id seen [] e = refl
find-sort id seen (m ∷ ms) e =
    let rest : repeated (m.up.id ∷ seen) ms ≡ false = ground arith in
    let absent =
      repeated-find m.up.id (m.up.id ∷ seen) ms rest (ground (arith, eq_iff m.up.id m.up.id)) in
    let missing = find-sort m.up.id (m.up.id ∷ seen) ms rest ∙ absent in
    ground
      (arith, find-insert id m (sort_by_priority ms) missing, find-sort id (m.up.id ∷ seen) ms rest)

-- Where no ID is given twice, the new pool holds exactly the new upstreams: each of them under its ID,
-- with the State of the old upstream with that ID if there is one, and with its own otherwise.
pub set_upstreams-find :
    (ups old : List Member) (id : String)
    → repeated [] ups ≡ false
    → find id (set_upstreams ups old).0 ≡ kept old (find id ups)
unfolding set_upstreams
set_upstreams-find ups old id e =
    rw e ((find-map-keep id old (sort_by_priority ups)) ∙ ap (kept old) (find-sort id [] ups e))
