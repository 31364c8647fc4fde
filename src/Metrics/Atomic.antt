-- ===== src/Metrics/Atomic.antt =====
-- metrics.go: the registration of a group's collectors is all or nothing, and can be undone.
use s5lb.Base.{
  Bool, true, false, not, ◌&&◌, ◌||◌, ◌≡◌, refl, sym, ap, ◌∙◌, if◌then◌else◌, Option-cases, inl,
  inr, String, eq_iff, List, [], ◌∷◌, ◌++◌, append_nil, append_assoc, Option, none, some, subst,
  arith,
}
use s5lb.Metrics.{
  Collector, collectors_of, Registerer, is_named, Laws, Metrics, unregister_all, unregister,
  registered, register_each, new,
}

abbrev any_named : String → String → List Collector → Bool
any_named name group [] = false
any_named name group (c ∷ cs) = is_named name group c || any_named name group cs

any_named-append :
    (name group : String) (xs : List Collector) (c : Collector)
    → any_named name group (xs ++ c ∷ []) ≡ (any_named name group xs || is_named name group c)
any_named-append name group [] c = ground arith
any_named-append name group (x ∷ xs) c = ground (arith, any_named-append name group xs c)

module _ {R : Type 0} (reg : Registerer R) (laws : Laws reg) where
  -- The same collectors are registered.
  abbrev pub Same : R → R → Type 0
  Same r s = (name group : String) → reg.has name group s ≡ reg.has name group r

  unregister_all-has :
      (cs : List Collector) (r : R) (name group : String)
      → reg.has name group (unregister_all reg cs r)
        ≡ (not (any_named name group cs) && reg.has name group r)
  unfolding unregister_all
  unregister_all-has [] r name group = refl
  unregister_all-has (c ∷ cs) r name group =
      ground
        (arith, unregister_all-has cs (reg.unregister c r) name group, laws.removes c r name group)

  -- `s` has the collectors of `r` and those of `done`, which `r` does not have.
  record Covers (r : R) (done : List Collector) (s : R) : Type 0 where
    has :
        (name group : String)
        → reg.has name group s ≡ (any_named name group done || reg.has name group r)
    fresh : (name group : String) → any_named name group done ≡ true → reg.has name group r ≡ false

  Covers-undone :
      (r s : R) (done : List Collector) → Covers r done s → Same r (unregister_all reg done s)
  Covers-undone r s done c name group =
      ground (arith, unregister_all-has done s name group, c.has name group, c.fresh name group)

  has_named :
      (c : Collector) (r : R) (name group : String)
      → is_named name group c ≡ true
      → reg.has name group r ≡ reg.has c.name c.group r
  has_named c r name group h =
      let same_name : c.name ≡ name = ground (arith, h, eq_iff c.name name) in
      let same_group : c.group ≡ group = ground (arith, h, eq_iff c.group group) in
      ap (λ n. reg.has n group r) (sym same_name) ∙ ap (λ g. reg.has c.name g r) (sym same_group)

  Covers-next :
      (r s t : R) (done : List Collector) (c : Collector)
      → Covers r done s
      → reg.register c s ≡ some t
      → Covers r (done ++ c ∷ []) t
  Covers-next r s t done c held e = record {
    has = λ name group. ground (
      arith,
      laws.adds c s t name group e,
      held.has name group,
      any_named-append name group done c,
    );
    fresh = λ name group h. ground (
      arith,
      h,
      any_named-append name group done c,
      held.fresh name group,
      held.has name group,
      has_named c s name group,
      laws.fresh c s t e,
    );
  }

  Registered : R → List Collector → R × Bool → Type 0
  Registered r cs (s, true) = Covers r cs s
  Registered r cs (s, false) = Same r s

  start-Covers : (r : R) → Covers r [] r
  start-Covers r = record { has = λ name group. refl; fresh = λ name group h. absurd (cc) }

  register_each-Registered :
      (todo done : List Collector) (r s : R)
      → Covers r done s
      → Registered r (done ++ todo) (register_each reg done todo s)
  unfolding Registered register_each registered
  register_each-Registered [] done r s held =
      subst (λ cs. Covers r cs s) (sym (append_nil done)) held
  register_each-Registered (c ∷ todo) done r s held =
      let next : R → R × Bool = λ t. register_each reg (done ++ c ∷ []) todo t in
      elim (Option-cases (reg.register c s)) [
        | inl e ↦
            subst (λ o. Registered r (done ++ c ∷ todo) (registered reg done next s o)) (sym e)
              (Covers-undone r s done held)
        | inr (t, e) ↦
            subst (λ o. Registered r (done ++ c ∷ todo) (registered reg done next s o)) (sym e)
              (subst (λ cs. Registered r cs (next t)) (append_assoc done (c ∷ []) todo)
                (register_each-Registered todo (done ++ c ∷ []) r t
                  (Covers-next r s t done c held e)))
      ]

  -- What is left of a New when its group goes away again.
  unfoldable pub undone : R × Option Metrics → R
  unfolding unregister
  undone (s, none) = s
  undone (s, some m) = unregister reg m s

  undone-Same :
      (group : String) (r : R) (result : R × Bool)
      → Registered r (collectors_of group) result
      → Same r (
          undone (
            result.0,
            (if result.1 then some (record { collectors = collectors_of group }) else none),
          ))
  unfolding Registered undone unregister
  undone-Same group r (s, true) h = Covers-undone r s (collectors_of group) h
  undone-Same group r (s, false) h = h

  -- A New that fails leaves the registry with the collectors that it had, whichever one was refused;
  -- and so does one that succeeds, once its Unregister has run.
  pub undone-new : (group : String) (r : R) → Same r (undone (new reg group r))
  unfolding new
  undone-new group r =
      undone-Same group r (register_each reg [] (collectors_of group) r)
        (register_each-Registered (collectors_of group) [] r r (start-Covers r))
