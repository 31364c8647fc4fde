-- ===== src/Metrics.antt =====
-- internal/metrics/metrics.go: the collectors of a group and their registration. A registry of
-- prometheus is `Registerer`: `register` refuses a collector whose name and group are there already.
-- `Laws` is what prometheus documents of it.
pub mod Atomic
mod Tests
use s5lb.Base.{
  if◌then◌else◌, Bool, true, false, not, ◌&&◌, ◌||◌, ◌≡◌, String, str_eq, List, [], ◌∷◌, ◌++◌,
  Option, none, some,
}

pub data Kind : Type 0 where
  gauge counter histogram : Kind

-- `labels` are the variable ones; the group is a constant label.
pub record Collector : Type 0 where
  pub kind : Kind
  pub name : String
  pub labels : List String
  pub group : String

abbrev collector : Kind → String → List String → String → Collector
collector kind name labels group = record {
  kind = kind;
  name = name;
  labels = labels;
  group = group;
}

-- The collectors in the order of their registration.
unfoldable pub collectors_of : String → List Collector
collectors_of group =
    collector gauge "s5lb_strategy_info" ("strategy" ∷ []) group
    ∷ collector gauge "s5lb_backpressure_info" ("strategy" ∷ []) group
    ∷ collector counter "s5lb_connections_accepted_total" ([]) group
    ∷ collector counter "s5lb_connections_rejected_total" ("reason" ∷ []) group
    ∷ collector counter "s5lb_backpressure_evictions_total" ([]) group
    ∷ collector gauge "s5lb_active_sessions" ([]) group
    ∷ collector gauge "s5lb_admission_inflight" ([]) group
    ∷ collector gauge "s5lb_queue_depth" ([]) group
    ∷ collector histogram "s5lb_queue_wait_seconds" ([]) group
    ∷ collector histogram "s5lb_session_duration_seconds" ([]) group
    ∷ collector counter "s5lb_session_bytes_total" ("direction" ∷ []) group
    ∷ collector counter "s5lb_socks_request_total" ("atyp" ∷ "result" ∷ []) group
    ∷ collector counter "s5lb_socks_reply_total" ("code" ∷ []) group
    ∷ collector counter "s5lb_upstream_selected_total" ("upstream" ∷ []) group
    ∷ collector gauge "s5lb_upstream_active" ("upstream" ∷ []) group
    ∷ collector gauge "s5lb_upstream_healthy" ("upstream" ∷ []) group
    ∷ collector counter "s5lb_upstream_sessions_total" ("upstream" ∷ []) group
    ∷ collector counter "s5lb_upstream_failures_total" ("upstream" ∷ "stage" ∷ []) group
    ∷ collector histogram "s5lb_upstream_dial_seconds" ("upstream" ∷ []) group
    ∷ collector histogram "s5lb_upstream_handshake_seconds" ("upstream" ∷ []) group
    ∷ collector histogram "s5lb_upstream_probe_seconds" ("upstream" ∷ "result" ∷ []) group
    ∷ collector gauge "s5lb_upstream_ewma_latency_seconds" ("upstream" ∷ []) group
    ∷ collector gauge "s5lb_udp_associations_active" ([]) group
    ∷ collector histogram "s5lb_udp_session_duration_seconds" ([]) group
    ∷ collector counter "s5lb_udp_packets_total" ("direction" ∷ []) group
    ∷ collector counter "s5lb_udp_bytes_total" ("direction" ∷ []) group
    ∷ collector counter "s5lb_udp_dropped_total" ("reason" ∷ []) group
    ∷ []

pub record Registerer (R : Type 0) : Type 0 where
  pub register : Collector → R → Option R
  pub unregister : Collector → R → R
  pub has : String → String → R → Bool

abbrev pub is_named : String → String → Collector → Bool
is_named name group c = str_eq c.name name && str_eq c.group group

pub record Laws {R : Type 0} (reg : Registerer R) : Type 0 where
  pub fresh :
      (c : Collector) (r s : R) → reg.register c r ≡ some s → reg.has c.name c.group r ≡ false
  pub adds :
      (c : Collector) (r s : R) (name group : String)
      → reg.register c r ≡ some s
      → reg.has name group s ≡ (is_named name group c || reg.has name group r)
  pub removes :
      (c : Collector) (r : R) (name group : String)
      → reg.has name group (reg.unregister c r)
        ≡ (not (is_named name group c) && reg.has name group r)

-- What Unregister uses of a Metrics.
pub record Metrics : Type 0 where
  pub collectors : List Collector

module _ {R : Type 0} (reg : Registerer R) where
  unfoldable pub unregister_all : List Collector → R → R
  unregister_all [] r = r
  unregister_all (c ∷ cs) r = unregister_all cs (reg.unregister c r)

  -- Unregister.
  unfoldable pub unregister : Metrics → R → R
  unfolding unregister_all
  unregister m r = unregister_all m.collectors r

  -- One Register; `done` is what the loop of New has registered. A refusal takes all of it back.
  unfoldable pub registered : List Collector → (R → R × Bool) → R → Option R → R × Bool
  unfolding unregister_all
  registered done next r none = (unregister_all done r, false)
  registered done next r (some s) = next s

  unfoldable pub register_each : List Collector → List Collector → R → R × Bool
  unfolding registered
  register_each done [] r = (r, true)
  register_each done (c ∷ cs) r =
      registered done (λ s. register_each (done ++ c ∷ []) cs s) r (reg.register c r)

  -- New, for a group.
  unfoldable pub new : String → R → R × Option Metrics
  unfolding register_each collectors_of
  new group r =
      let cs = collectors_of group in
      let (s, good) = register_each [] cs r in
      (s, if good then some (record { collectors = cs }) else none)
