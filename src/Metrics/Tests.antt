-- ===== src/Metrics/Tests.antt =====
-- A registry as the list of what it has; the second group of a name is refused.
use s5lb.Base.{
  if◌then◌else◌, Bool, true, false, not, ◌&&◌, ◌||◌, ◌≡◌, sym, ap, ◌∙◌, eq_iff, Bool-cases, inl,
  inr, if-elim, String, str_eq, List, [], ◌∷◌, Option, none, some, arith,
}
use mathlib.Core.Option.{some-injective}
use s5lb.Metrics.{Collector, Registerer, Laws, is_named, new}
use s5lb.Metrics.Atomic.{undone, undone-new}

unfoldable has_in : String → String → List Collector → Bool
has_in name group [] = false
has_in name group (c ∷ r) = is_named name group c || has_in name group r

unfoldable without : Collector → List Collector → List Collector
without c [] = []
without c (x ∷ r) = if is_named x.name x.group c then without c r else x ∷ without c r

abbrev lists : Registerer (List Collector)
unfolding has_in without
lists = record {
  register = λ c r. if has_in c.name c.group r then none else some (c ∷ r);
  unregister = without;
  has = has_in;
}

same_named :
    (x c : Collector) (name group : String)
    → is_named x.name x.group c ≡ true
    → is_named name group x ≡ is_named name group c
same_named x c name group h =
    let names : c.name ≡ x.name = ground (arith, h, eq_iff c.name x.name) in
    let groups : c.group ≡ x.group = ground (arith, h, eq_iff c.group x.group) in
    ap (λ n. str_eq n name && str_eq x.group group) (sym names)
    ∙ ap (λ g. str_eq c.name name && str_eq g group) (sym groups)

other_named :
    (x c : Collector) (name group : String)
    → is_named x.name x.group c ≡ false
    → is_named name group x ≡ true
    → is_named name group c ≡ false
other_named x c name group h k =
    let names : x.name ≡ name = ground (arith, k, eq_iff x.name name) in
    let groups : x.group ≡ group = ground (arith, k, eq_iff x.group group) in
    ap (λ n. str_eq c.name n && str_eq c.group group) (sym names)
    ∙ ap (λ g. str_eq c.name x.name && str_eq c.group g) (sym groups)
    ∙ h

has_in-without :
    (c : Collector) (r : List Collector) (name group : String)
    → has_in name group (without c r) ≡ (not (is_named name group c) && has_in name group r)
unfolding has_in without
has_in-without c [] name group = ground arith
has_in-without c (x ∷ r) name group = elim (Bool-cases (is_named x.name x.group c)) [
  | inl h ↦ rw h (ground (arith, has_in-without c r name group, same_named x c name group h))
  | inr h ↦ rw h (ground (arith, has_in-without c r name group, other_named x c name group h))
]

lists-Laws : Laws lists
unfolding has_in without
lists-Laws = record {
  fresh = λ c r s.
      if-elim (λ (o : Option (List Collector)). o ≡ some s → has_in c.name c.group r ≡ false)
        (has_in c.name c.group r) none (some (c ∷ r)) (λ h e. absurd (cc)) (λ h e. h);
  adds = λ c r s name group.
      if-elim
        (λ (o : Option (List Collector)).
          o ≡ some s → has_in name group s ≡ (is_named name group c || has_in name group r))
        (has_in c.name c.group r) none (some (c ∷ r)) (λ h e. absurd (cc))
        (λ h e. ap (has_in name group) (sym (some-injective (c ∷ r) s e)));
  removes = has_in-without;
}

undone-new_example :
    lists.has "s5lb_queue_depth" "default" (undone lists lists-Laws (new lists "default" []))
    ≡ lists.has "s5lb_queue_depth" "default" []
undone-new_example = undone-new lists lists-Laws "default" [] "s5lb_queue_depth" "default"
