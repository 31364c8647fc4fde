-- ===== src/Balancer/Manager/Views.antt =====
-- What manager.go shows of itself to the admin server: info, GroupInfos,
-- GroupInfoByName, Sessions, State and ActiveSessions. `World` has the texts of durations and times,
-- the arithmetic of float64 on bit patterns, and each group's tracker.
pub mod Secrets
use s5lb.Base.{
  ℕ, ◌+◌, ◌-◌, ◌/◌, Bool, true, false, not, ◌||◌, String, str_eq, List, [], ◌∷◌, ◌++◌, Option, none,
  some, map, lookup, ℤ,
}
use s5lb.Config.Types.{Config, UpstreamSpec, Kubernetes}
use s5lb.Config.Validate.{is_empty}
use s5lb.Upstream.{Upstream, Snapshot}
use s5lb.Admission.Tracker.Victims.{SessionSnapshot}
use s5lb.Balancer.Pool.{current_pool}
use s5lb.Balancer.Manager.{Entry, Manager}
use s5lb.Balancer.Manager.Public.{PublicConfig, public_config}

pub record World : Type 0 where
  pub duration : ℤ → String
  pub rfc3339 : ℕ → String
  pub rfc3339_nano : ℕ → String
  pub times_1000 : ℕ → ℕ
  pub float : ℕ → ℕ
  pub addr : String → ℕ → String
  pub tracked : String → List SessionSnapshot

pub record GroupInfo : Type 0 where
  pub name : String
  pub listen : String
  pub strategy : String
  pub config : PublicConfig
  pub upstream : List Snapshot

pub record UpstreamStateItem : Type 0 where
  pub id : String
  pub addr : String
  pub healthy : Bool
  pub draining : Bool
  pub priority : ℤ
  pub weight : ℤ
  pub active : ℕ
  pub ewma_latency_ms : ℕ
  pub total_sessions : ℕ
  pub total_failures : ℕ
  pub consecutive_failures : ℕ

pub record GroupStateItem : Type 0 where
  pub name : String
  pub strategy : String
  pub backpressure : String
  pub listen_addr : String
  pub udp_enabled : Bool
  pub max_clients : ℤ
  pub session_count : ℕ
  pub upstreams : List UpstreamStateItem

pub record StateResponse : Type 0 where
  pub version : String
  pub commit : String
  pub now : String
  pub session_count : ℕ
  pub groups : List GroupStateItem

pub record SessionItem : Type 0 where
  pub client_addr : String
  pub upstream_id : String
  pub upstream_priority : ℤ
  pub admitted_at : String
  pub age_ms : ℕ

-- The number of sessions that a tracker counts.
abbrev pub count : {A : Type 0} → List A → ℕ
count [] = 0
count (x ∷ xs) = count xs + 1

module _ (w : World) where
  unfoldable pub upstream_state : Snapshot → UpstreamStateItem
  upstream_state s = record {
    id = s.id;
    addr = s.addr;
    healthy = s.healthy;
    draining = s.draining;
    priority = s.priority;
    weight = s.weight;
    active = s.active;
    ewma_latency_ms = w.times_1000 s.ewma_latency;
    total_sessions = s.total_sessions;
    total_failures = s.total_failures;
    consecutive_failures = s.consecutive_failures;
  }

  -- A time is in nanoseconds; the age in milliseconds is rounded down. A clock that went back would
  -- give a negative age, which is 0 here.
  unfoldable pub session_item : ℕ → SessionSnapshot → SessionItem
  session_item now s = record {
    client_addr = s.client_addr;
    upstream_id = s.upstream_id;
    upstream_priority = s.upstream_prio;
    admitted_at = w.rfc3339_nano s.admitted_at;
    age_ms = w.float ((now - s.admitted_at) / 1000000);
  }

module _ {D : Type 0} (w : World) where
  unfoldable pub pool_of : Entry D → List Snapshot
  unfolding current_pool
  pool_of e = current_pool (λ (u : Upstream). w.addr u.host u.port) e.lb.members

  unfoldable pub info : Entry D → GroupInfo
  unfolding public_config pool_of
  info e = record {
    name = e.name;
    listen = e.lb.cfg.listen_addr;
    strategy = e.lb.cfg.strategy;
    config = public_config w.duration e.lb.cfg;
    upstream = pool_of e;
  }

  unfoldable pub group_infos : Manager D → List GroupInfo
  unfolding info
  group_infos m = map info m.groups

  unfoldable pub shown : Option (Entry D) → Option GroupInfo
  unfolding info
  shown none = none
  shown (some e) = some (info e)

  unfoldable pub group_info_by_name : String → Manager D → Option GroupInfo
  unfolding shown lookup
  group_info_by_name name m = shown (lookup name m.by_name)

  unfoldable pub sessions_of : List (Entry D) → List SessionSnapshot
  sessions_of [] = []
  sessions_of (e ∷ es) = w.tracked e.name ++ sessions_of es

  unfoldable pub group_state : Entry D → GroupStateItem
  unfolding upstream_state pool_of
  group_state e = record {
    name = e.name;
    strategy = e.lb.cfg.strategy;
    backpressure = e.lb.cfg.backpressure;
    listen_addr = e.lb.cfg.listen_addr;
    udp_enabled = e.lb.cfg.udp_enabled;
    max_clients = e.lb.cfg.max_clients;
    session_count = count (w.tracked e.name);
    upstreams = map (upstream_state w) (pool_of e);
  }

  -- The loop of State over the groups, with the total so far.
  unfoldable pub each_state : ℕ → List (Entry D) → ℕ × List GroupStateItem
  unfolding group_state
  each_state total [] = (total, [])
  each_state total (e ∷ es) =
      let (sum, items) = each_state (total + count (w.tracked e.name)) es in
      (sum, group_state e ∷ items)

  unfoldable pub state : String → String → ℕ → Manager D → StateResponse
  unfolding each_state
  state version commit now m =
      let (total, items) = each_state 0 m.groups in
      record {
        version = version;
        commit = commit;
        now = w.rfc3339 now;
        session_count = total;
        groups = items;
      }

  unfoldable pub active_sessions : ℕ → Manager D → List SessionItem
  unfolding session_item sessions_of
  active_sessions now m = map (session_item w now) (sessions_of m.groups)
