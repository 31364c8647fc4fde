-- ===== src/Balancer/Manager/Names.antt =====
-- The groups that a reload leaves behind (manager.go, Reload), by their names.
use s5lb.Base.{
  lookup, put, ◌≡◌, refl, sym, ap, ◌∙◌, inl, inr, ◌||◌, if-elim, Bool-cases, String, str_eq, eq_iff,
  List, [], ◌∷◌, map, Option, none, some, arith, All,
}
use mathlib.Core.Option.{some-injective}
use s5lb.Config.Types.{Config}
use s5lb.Config.Validate.{Checked, failed, ok, then_with, build_upstreams, is_empty}
use s5lb.Config.Groups.{text_or}
use s5lb.Strategy.Registry
use s5lb.Balancer.Reload.{new_from_config, members_of}
use s5lb.Balancer.Pool.{Member}
use s5lb.Balancer.Manager.{Entry, Tools, new_balancer, with_dialer, with_selector, build_group}
use s5lb.Balancer.Manager.Removal.{in_map}

-- What holds of a checked result, if there is one.
unfoldable pub OnOk : {A : Type 0} → (A → Type 0) → Checked A → Type 0
OnOk P (failed e) = Unit
OnOk P (ok a) = P a

OnOk-then_with :
    {A B : Type 0} (P : B → Type 0) (x : Checked A) (f : A → Checked B)
    → ((a : A) → OnOk P (f a))
    → OnOk P (then_with x f)
unfolding OnOk
OnOk-then_with P (failed e) f h = tt
OnOk-then_with P (ok a) f h = h a

module _ {D : Type 0} where
  -- Each entry stands under its own name.
  abbrev pub Keyed : List (String × Entry D) → Type 0
  Keyed = All (λ (p : String × Entry D). p.1.name ≡ p.0)

  abbrev pub names : List (Entry D) → List String
  names = map (λ (e : Entry D). e.name)

  pub lookup-Keyed :
      (name : String) (xs : List (String × Entry D)) (e : Entry D)
      → Keyed xs
      → lookup name xs ≡ some e
      → e.name ≡ name
  unfolding lookup
  lookup-Keyed name [] e k h = absurd (cc)
  lookup-Keyed name ((n, x) ∷ xs) e (own, k) h = elim (Bool-cases (str_eq n name)) [
    | inl same ↦ found (rw same at h) (ground (arith, same, eq_iff n name))
    | inr other ↦ lookup-Keyed name xs e k (rw other at h)
  ]
    where
      found : some x ≡ some e → n ≡ name → e.name ≡ name
      found same_entry same_name =
          ap (λ y. y.name) (sym (some-injective x e same_entry)) ∙ own ∙ same_name

  pub put-Keyed :
      (name : String) (e : Entry D) (xs : List (String × Entry D))
      → e.name ≡ name
      → Keyed xs
      → Keyed (put name e xs)
  unfolding put
  put-Keyed name e [] own k = (own, tt)
  put-Keyed name e ((n, x) ∷ xs) own (own', k) =
      if-elim Keyed (str_eq n name) _ _ (λ h. (own ∙ sym (ground (arith, h, eq_iff n name)), k))
        (λ h. (own', put-Keyed name e xs own k))

  pub in_map-put :
      (name key : String) (e : Entry D) (xs : List (String × Entry D))
      → in_map name (put key e xs) ≡ (str_eq key name || in_map name xs)
  unfolding put
  in_map-put name key e [] = refl
  in_map-put name key e ((n, x) ∷ xs) = elim (Bool-cases (str_eq n key)) [
    | inl h ↦ rw h (ground (arith, h, eq_iff n key, eq_iff key name, eq_iff n name))
    | inr h ↦ rw h (ground (arith, in_map-put name key e xs))
  ]

module _ {D : Type 0} (t : Tools D) where
  abbrev pub Named : Config → Entry D → Type 0
  Named c e = e.name ≡ text_or c.group_name "default"

  pub build_group-Named : (c : Config) → OnOk (Named c) (build_group t c)
  unfolding build_group with_selector with_dialer OnOk
  build_group-Named c =
      OnOk-then_with (Named c) (build_upstreams t.addr t.digest 0 c.upstreams) _ (λ us.
        if-elim (OnOk (Named c)) (is_empty us) _ _ (λ h. tt)
          (λ h. selected (members_of us) (Registry.new t.normal c.strategy)))
    where
      selected :
          (ups : List Member) (o : Option Registry.Kind)
          → OnOk (Named c) (with_selector t (text_or c.group_name "default") c ups o)
      selected ups none = tt
      selected ups (some sel) =
          if-elim (OnOk (Named c)) (t.registers (text_or c.group_name "default")) _ _
            (λ h.
              OnOk-then_with (Named c) (new_from_config t.factory c) _
                (λ d. OnOk-then_with (Named c) (new_balancer c ups d) _ (λ lb. refl)))
            (λ h. tt)
