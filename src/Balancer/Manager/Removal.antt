-- ===== src/Balancer/Manager/Removal.antt =====
-- The second half of Reload in manager.go, ReloadGroup, and the supervision in Start.
use s5lb.Base.{
  lookup, put, Bool, true, false, ◌||◌, if◌then◌else◌, String, str_eq, List, [], ◌∷◌, ◌++◌, Option,
  none, some, map,
}
use s5lb.Config.Types.{Config}
use s5lb.Config.Validate.{Error, invalid, Checked, failed, ok}
use s5lb.Config.Groups.{MultiConfig, effective_groups, validate_multi}
use s5lb.Balancer.Reload.{Engine}
use s5lb.Balancer.Reload
use s5lb.Balancer.Pool.{any_healthy, drain_upstream}
use s5lb.Balancer.Manager.{Entry, Manager, Tools, Progress, each_group}

-- Shutdown and Unregister before the reload goes on, or in a goroutine; a group's Serve goroutine.
-- Each carries the group's name and its listen address.
pub data Action : Type 0 where
  stops stops_later starts : String → String → Action

module _ {D : Type 0} where
  abbrev pub address : Entry D → String
  address e = e.lb.cfg.listen_addr

  abbrev pub in_map : String → List (String × Entry D) → Bool
  in_map name [] = false
  in_map name ((n, e) ∷ rest) = str_eq n name || in_map name rest

  -- The groups of the old map that the new one does not have, marked as retired.
  unfoldable pub removed : List (String × Entry D) → List (String × Entry D) → List (Entry D)
  removed new [] = []
  removed new ((n, e) ∷ old) =
      let rest = removed new old in
      if in_map n new then rest else record e { retired = true } ∷ rest

  -- removedByListen[listen], shut down at once; the others stay for later.
  unfoldable pub stop_at : String → List (Entry D) → List Action × List (Entry D)
  stop_at listen [] = ([], [])
  stop_at listen (e ∷ es) =
      let (acts, rest) = stop_at listen es in
      if str_eq (address e) listen
      then (stops e.name (address e) ∷ acts, rest)
      else (acts, e ∷ rest)

  unfoldable pub drain_first : List (Entry D) → List (Entry D) → List Action × List (Entry D)
  unfolding stop_at
  drain_first [] gone = ([], gone)
  drain_first (p ∷ pending) gone =
      let (acts, rest) = stop_at (address p) gone in
      let (more, left) = drain_first pending rest in (acts ++ more, left)

  abbrev pub later : Entry D → Action
  later e = stops_later e.name (address e)

  abbrev pub start : Entry D → Action
  start e = starts e.name (address e)

  -- Drains, the shutdowns in the background, then the starts.
  unfoldable pub plan : List (Entry D) → List (Entry D) → List Action
  unfolding drain_first
  plan pending gone =
      let (acts, left) = drain_first pending gone in acts ++ (map later left ++ map start pending)

  unfoldable pub finish : Manager D → Progress D → Manager D × List Action × Option Error
  unfolding plan removed
  finish m p = (
    record { groups = p.groups; by_name = p.by_name },
    plan p.pending (removed p.by_name m.by_name),
    p.last_err,
  )

module _ {D : Type 0} (t : Tools D) where
  abbrev pub nothing : Progress D
  nothing = record { by_name = []; groups = []; pending = []; last_err = none }

  unfoldable pub loaded : Manager D → Checked MultiConfig → Manager D × List Action × Option Error
  unfolding finish each_group
  loaded m (failed e) = (m, [], some e)
  loaded m (ok mc) = finish m (each_group t m.by_name (effective_groups mc) nothing)

  -- Reload after Start, for the file as LoadMultiFile read it.
  unfoldable pub reload : Checked MultiConfig → Manager D → Manager D × List Action × Option Error
  unfolding loaded
  reload (failed e) m = (m, [], some e)
  reload (ok mc) m = loaded m (validate_multi t.env mc)

  abbrev with_name : String → List Config → Option Config
  with_name name [] = none
  with_name name (c ∷ cs) = if str_eq c.group_name name then some c else with_name name cs

  -- The maps hold pointers: the slice shows the new state of the entry too.
  set_entry : String → Engine D → List (Entry D) → List (Entry D)
  set_entry name lb [] = []
  set_entry name lb (e ∷ es) =
      if str_eq e.name name then record e { lb = lb } ∷ es else e ∷ set_entry name lb es

  in_place : String → Config → Manager D → Option (Entry D) → Manager D × Option Error
  unfolding put set_entry
  in_place name c m none = (m, some (invalid "group not found"))
  in_place name c m (some e) =
      let (lb, failure) = Reload.reload t.env t.factory t.addr t.digest (t.busy name) c e.lb in
      (
        record {
          groups = set_entry name lb m.groups;
          by_name = put name (record e { lb = lb }) m.by_name;
        },
        failure,
      )

  selected : String → Manager D → Option Config → Manager D × Option Error
  unfolding in_place lookup
  selected name m none = (m, some (invalid "group not present in config"))
  selected name m (some c) = in_place name c m (lookup name m.by_name)

  unfoldable pub reload_group : String → Checked MultiConfig → Manager D → Manager D × Option Error
  unfolding selected
  reload_group name (failed e) m = (m, some e)
  reload_group name (ok mc) m = elim (validate_multi t.env mc) [
    | failed e ↦ (m, some e)
    | ok valid ↦ selected name m (with_name name (effective_groups valid))
  ]

module _ {D : Type 0} where
  -- Group.
  unfoldable pub group : String → Manager D → Option (Engine D)
  unfolding lookup
  group name m = elim (lookup name m.by_name) [ none ↦ none | some e ↦ some e.lb ]

  unfoldable pub any_of : List (Entry D) → Bool
  any_of [] = false
  any_of (e ∷ es) = if any_healthy e.lb.members then true else any_of es

  -- AnyHealthy.
  unfoldable pub any_group_healthy : Manager D → Bool
  unfolding any_of
  any_group_healthy m = any_of m.groups

  drain_in : String → Bool → List (Entry D) → List (Entry D) × Bool
  drain_in id drain [] = ([], false)
  drain_in id drain (e ∷ es) =
      let (ms, found) = drain_upstream id drain e.lb.members in
      let (rest, later) = drain_in id drain es in
      if found
      then (record e { lb = record e.lb { members = ms } } ∷ es, true)
      else (e ∷ rest, later)

  -- DrainUpstream over the groups of the manager.
  unfoldable pub drain_groups : String → Bool → List (Entry D) → List (Entry D) × Bool
  unfolding drain_in
  drain_groups id drain es = drain_in id drain es

-- What a Serve goroutine sends when it ends.
pub record Served : Type 0 where
  pub name : String
  pub err : Option Error
  pub retired : Bool

-- The loop of Start over the results, in the order of arrival: `none` goes on, `some e` has shut down
-- and returns `e`.
unfoldable pub supervise : List Served → Option (Option Error)
supervise [] = none
supervise (r ∷ rs) = if r.retired then supervise rs else some r.err
