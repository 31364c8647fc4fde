-- ===== src/Balancer/Manager/Kept.antt =====
-- Which groups a reload keeps (manager.go, Reload).
use s5lb.Base.{
  lookup, put, ◌≡◌, ◌≢◌, refl, sym, ap, ◌∙◌, inl, inr, true, String, str_eq, eq_iff, List, [], ◌∷◌,
  ◌++◌, map, Option, none, some, arith, All, append_assoc, append_nil, subst, Bool-cases,
}
use s5lb.Config.Names.{one_of}
use s5lb.Config.Types.{Config}
use s5lb.Config.Validate.{Error, Checked, failed, ok}
use s5lb.Config.Groups.{MultiConfig, effective_groups, group_names, validate_multi, text_or}
use s5lb.Config.Groups.Laws.{effective_groups-names, group_names-validate_multi}
use s5lb.Balancer.Reload.{Engine}
use s5lb.Balancer.Reload
use s5lb.Balancer.Manager.{
  Entry, Manager, Tools, Progress, build_group, update, add, one_group, each_group,
}
use s5lb.Balancer.Manager.Removal.{Action, in_map, reload, nothing, loaded, finish}
use s5lb.Balancer.Manager.Names.{
  OnOk, Keyed, names, Named, lookup-Keyed, put-Keyed, in_map-put, build_group-Named,
}

map-append : {A B : Type 0} (f : A → B) (xs ys : List A) → map f (xs ++ ys) ≡ map f xs ++ map f ys
map-append f [] ys = refl
map-append f (x ∷ xs) ys = ap (◌∷◌ (f x)) (map-append f xs ys)

module _ {D : Type 0} where
  -- What one round of the loop does: without an error the group is appended under its name; the names
  -- in the map stay.
  abbrev Kept : Config → Progress D → Progress D → Type 0
  Kept c p q =
      (q.last_err ≡ none
        → (p.last_err ≡ none) × (names q.groups ≡ names p.groups ++ c.group_name ∷ []))
      × (Keyed p.by_name → Keyed q.by_name)
      × ((n : String) → in_map n p.by_name ≡ true → in_map n q.by_name ≡ true)

  put-Kept :
      (c : Config) (p : Progress D) (e : Entry D) (pending : List (Entry D))
      → e.name ≡ c.group_name
      → Kept c p (record {
        by_name = put c.group_name e p.by_name;
        groups = p.groups ++ e ∷ [];
        pending = pending;
        last_err = p.last_err;
      })
  put-Kept c p e pending own = (
    λ h. (
      h,
      map-append (λ (x : Entry D). x.name) p.groups (e ∷ [])
          ∙ ap (λ n. names p.groups ++ n ∷ []) own,
    ),
    put-Keyed c.group_name e p.by_name own,
    λ n h. ground (arith, in_map-put n c.group_name e p.by_name, h),
  )

module _ {D : Type 0} (t : Tools D) where
  update-Kept :
      (c : Config) (p : Progress D) (old : Entry D) (r : Engine D × Option Error)
      → old.name ≡ c.group_name
      → Kept c p (update t c p old r) × (in_map c.group_name (update t c p old r).by_name ≡ true)
  unfolding update
  update-Kept c p old (lb, none) own = (
    put-Kept c p (record old { lb = lb }) p.pending own,
    ground (
      arith,
      in_map-put c.group_name c.group_name (record old { lb = lb }) p.by_name,
      eq_iff c.group_name c.group_name,
    ),
  )
  update-Kept c p old (lb, some e) own =
      let (_, keyed, stay) = put-Kept c p (record old { lb = lb }) p.pending own in
      (
        (λ h. absurd (cc), keyed, stay),
        ground (
          arith,
          in_map-put c.group_name c.group_name (record old { lb = lb }) p.by_name,
          eq_iff c.group_name c.group_name,
        ),
      )

  add-Kept :
      (c : Config) (p : Progress D) (r : Checked (Entry D))
      → c.group_name ≢ ""
      → OnOk (Named t c) r
      → Kept c p (add t c p r)
  unfolding add OnOk
  add-Kept c p (failed e) some_name named = (λ h. absurd (cc), λ k. k, λ n h. h)
  add-Kept c p (ok entry) some_name named =
      put-Kept c p entry (p.pending ++ entry ∷ []) (named ∙ own_name)
    where
      own_name : text_or c.group_name "default" ≡ c.group_name
      own_name = elim (Bool-cases (str_eq c.group_name "")) [
        | inl h ↦ absurd (some_name (ground (arith, h, eq_iff c.group_name "")))
        | inr h ↦ rw h refl
      ]

  one_group-Kept :
      (old : List (String × Entry D)) (c : Config) (p : Progress D) (o : Option (Entry D))
      → c.group_name ≢ ""
      → Keyed old
      → lookup c.group_name old ≡ o
      → Kept c p (one_group t c p o)
        × ((e : Entry D) → o ≡ some e → in_map c.group_name (one_group t c p o).by_name ≡ true)
  unfolding one_group
  one_group-Kept old c p none some_name keyed h =
      (add-Kept c p (build_group t c) some_name (build_group-Named t c), λ e k. absurd (cc))
  one_group-Kept old c p (some x) some_name keyed h =
      let (kept, there) =
        update-Kept c p x
          (Reload.reload t.env t.factory t.addr t.digest (t.busy c.group_name) c x.lb)
          (lookup-Keyed c.group_name old x keyed h) in
      (kept, λ e k. there)

  abbrev config_names : List Config → List String
  config_names = map (λ (c : Config). c.group_name)

  -- The whole loop.
  abbrev AllKept : List (String × Entry D) → List Config → Progress D → Progress D → Type 0
  AllKept old cs p q =
      (q.last_err ≡ none
        → (p.last_err ≡ none) × (names q.groups ≡ names p.groups ++ config_names cs))
      × (Keyed p.by_name → Keyed q.by_name)
      × ((n : String) → in_map n p.by_name ≡ true → in_map n q.by_name ≡ true)
      × ((n : String) (e : Entry D)
          → lookup n old ≡ some e
          → one_of n (config_names cs) ≡ true
          → in_map n q.by_name ≡ true)

  each_group-AllKept :
      (old : List (String × Entry D)) (cs : List Config) (p : Progress D)
      → Keyed old
      → All (λ n. n ≢ "") (config_names cs)
      → AllKept old cs p (each_group t old cs p)
  unfolding each_group one_of
  each_group-AllKept old [] p keyed named =
      (λ h. (h, sym (append_nil (names p.groups))), λ k. k, λ n h. h, λ n e h i. absurd (cc))
  each_group-AllKept old (c ∷ cs) p keyed (some_name, named) =
      let q = one_group t c p (lookup c.group_name old) in
      let ((order, key, stay), there) =
        one_group-Kept old c p (lookup c.group_name old) some_name keyed refl in
      let (order', key', stay', there') = each_group-AllKept old cs q keyed named in
      (
        λ h.
            let (ok_q, names_q) = order' h in
            let (ok_p, names_p) = order ok_q in
            (
              ok_p,
              names_q
                  ∙ ap (λ l. l ++ config_names cs) names_p
                  ∙ append_assoc (names p.groups) (c.group_name ∷ []) (config_names cs),
            ),
        λ k. key' (key k),
        λ n h. stay' n (stay n h),
        λ n e h i. elim (Bool-cases (str_eq n c.group_name)) [
          | inl same ↦
              let same_name : n ≡ c.group_name = ground (arith, same, eq_iff n c.group_name) in
              let found : lookup c.group_name old ≡ some e =
                ap (λ x. lookup x old) (sym same_name) ∙ h in
              stay' n (subst (λ x. in_map x q.by_name ≡ true) (sym same_name) (there e found))
          | inr other ↦ there' n e h (ground (arith, i, other))
        ],
      )

  -- What a reload leaves behind, for a manager `m` and the file's groups.
  unfoldable pub Reloaded :
      MultiConfig → Manager D → Manager D × List Action × Option Error → Type 0
  Reloaded mc m (m', acts, e) =
      (e ≡ none → names m'.groups ≡ group_names mc)
      × Keyed m'.by_name
      × ((n : String) (x : Entry D)
          → lookup n m.by_name ≡ some x
          → one_of n (group_names mc) ≡ true
          → in_map n m'.by_name ≡ true)

  -- A reload of a file that passes Validate and names every group, where each entry stands under its
  -- own name: each entry still does; no running group that the file names is dropped, not even if its
  -- own reload fails; and without an error the groups are those of the file, in the file's order.
  pub reload-Reloaded :
      (mc r : MultiConfig) (m : Manager D)
      → validate_multi t.env mc ≡ ok r
      → All (λ n. n ≢ "") (group_names mc)
      → Keyed m.by_name
      → Reloaded mc m (reload t (ok mc) m)
  unfolding reload loaded finish Reloaded
  reload-Reloaded mc r m valid named keyed =
      let same = effective_groups-names r ∙ group_names-validate_multi t.env mc r valid in
      let (order, key, _, there) =
        each_group-AllKept m.by_name (effective_groups r) (nothing t) keyed
          (subst (All (λ n. n ≢ "")) (sym same) named) in
      rw valid (λ h. (order h).1 ∙ same, key tt, λ n x h i. there n x h (ap (one_of n) same ∙ i))
