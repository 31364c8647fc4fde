-- ===== src/Balancer/Manager.antt =====
-- internal/balancer/manager.go: one LoadBalancer per group, its supervision, and the reload of all
-- groups. An entry is a value here: the maps and the slice of the source hold the same pointer, and a
-- reload writes both. The order in which Go walks a map is that of the list. Reading the file is the
-- result of LoadMultiFile; prometheus is whether the registration of a group's metrics succeeds. What
-- a reload does to the goroutines is the list of its actions.
pub mod Removal
pub mod Names
pub mod Kept
pub mod Ports
pub mod Public
pub mod Views
mod Tests
use s5lb.Base.{
  lookup, put, ℕ, Bool, true, false, not, ◌||◌, if◌then◌else◌, String, str_eq, List, [], ◌∷◌, ◌++◌,
  Option, none, some, pos_part, map,
}
use s5lb.Config.Names.{one_of}
use s5lb.Config.Types.{Config}
use s5lb.Config.Validate.{
  Error, invalid, Checked, failed, ok, Env, build_upstreams, is_empty, then_with,
}
use s5lb.Config.Groups.{MultiConfig, effective_groups, validate_multi, text_or}
use s5lb.Strategy.Registry
use s5lb.Strategy.Registry.{Kind}
use s5lb.Admission.Gate
use s5lb.Admission.Gate.{kind_of}
use s5lb.Balancer.Pool.{Member, any_healthy, drain_upstream}
use s5lb.Balancer.Reload.{Engine, Factory, set_upstreams, new_from_config, members_of}
use s5lb.Balancer.Reload

pub record Entry (D : Type 0) : Type 0 where
  pub name : String
  pub lb : Engine D
  pub selector : Kind
  pub retired : Bool

pub record Manager (D : Type 0) : Type 0 where
  pub groups : List (Entry D)
  pub by_name : List (String × Entry D)

-- The world of the manager. `busy` says that the group of this name has tracked sessions.
pub record Tools (D : Type 0) : Type 0 where
  pub env : Env
  pub factory : Factory D
  pub addr : String → ℕ → String
  pub digest : String → String
  pub normal : String → String
  pub registers : String → Bool
  pub busy : String → Bool

-- New (balancer.go) and SetDialer.
unfoldable pub new_balancer : {D : Type 0} → Config → List Member → D → Checked (Engine D)
new_balancer c ups d =
    let (ms, e) = set_upstreams ups [] in
    elim e [
      | some err ↦ failed err
      | none ↦ ok (record {
        cfg = c;
        dialer = d;
        members = ms;
        kind = kind_of c.backpressure;
        wait = c.admission_wait_timeout;
        gate = Gate.new (pos_part c.max_clients);
      })
    ]

-- The loop of Reload over the effective groups: newByName, newGroups, pendingStarts and lastErr.
pub record Progress (D : Type 0) : Type 0 where
  pub by_name : List (String × Entry D)
  pub groups : List (Entry D)
  pub pending : List (Entry D)
  pub last_err : Option Error

abbrev pub last_of : Option Error → Option Error → Option Error
last_of none e = e
last_of (some e) _ = some e

module _ {D : Type 0} (t : Tools D) where
  unfoldable pub with_dialer : String → Config → List Member → Kind → Checked (Entry D)
  unfolding new_balancer
  with_dialer name c ups sel = then_with (new_from_config t.factory c) (λ d.
      then_with (new_balancer c ups d)
        (λ lb. ok (record { name = name; lb = lb; selector = sel; retired = false })))

  unfoldable pub with_selector : String → Config → List Member → Option Kind → Checked (Entry D)
  unfolding with_dialer
  with_selector name c ups none = failed (invalid "strategy")
  with_selector name c ups (some sel) =
      if t.registers name then with_dialer name c ups sel else failed (invalid "metrics")

  unfoldable pub build_group : Config → Checked (Entry D)
  unfolding with_selector
  build_group c = then_with (build_upstreams t.addr t.digest 0 c.upstreams) (λ us.
      if is_empty us
      then failed (invalid "at least one upstream is required")
      else with_selector (text_or c.group_name "default") c (members_of us)
          (Registry.new t.normal c.strategy))

  unfoldable pub build_all : List Config → Manager D → Checked (Manager D)
  unfolding build_group put
  build_all [] m = ok m
  build_all (c ∷ cs) m = then_with (build_group c) (λ e.
      build_all cs (record { groups = m.groups ++ e ∷ []; by_name = put c.group_name e m.by_name }))

  unfoldable pub new_manager : MultiConfig → Checked (Manager D)
  unfolding build_all
  new_manager mc =
      then_with (validate_multi t.env mc)
        (λ valid. build_all (effective_groups valid) (record { groups = []; by_name = [] }))

  unfoldable pub update : Config → Progress D → Entry D → Engine D × Option Error → Progress D
  unfolding put
  update c p old (lb, e) =
      let kept = record old { lb = lb } in
      record p {
        by_name = put c.group_name kept p.by_name;
        groups = p.groups ++ kept ∷ [];
        last_err = last_of e p.last_err;
      }

  unfoldable pub add : Config → Progress D → Checked (Entry D) → Progress D
  unfolding put
  add c p (failed e) = record p { last_err = some e }
  add c p (ok entry) = record p {
    by_name = put c.group_name entry p.by_name;
    groups = p.groups ++ entry ∷ [];
    pending = p.pending ++ entry ∷ [];
  }

  unfoldable pub one_group : Config → Progress D → Option (Entry D) → Progress D
  unfolding update add
  one_group c p (some old) =
      update c p old (Reload.reload t.env t.factory t.addr t.digest (t.busy c.group_name) c old.lb)
  one_group c p none = add c p (build_group c)

  unfoldable pub each_group : List (String × Entry D) → List Config → Progress D → Progress D
  unfolding one_group lookup
  each_group old [] p = p
  each_group old (c ∷ cs) p = each_group old cs (one_group c p (lookup c.group_name old))
