-- ===== src/Config/Tests.antt =====
-- The laws of the configuration at a concrete one.
use s5lb.Base.{◌≡◌, refl, ◌≢◌, true, false, String, [], ◌∷◌, none, some, pos, All}
use s5lb.Config.Names.{one_of, valid_strategy_name}
use s5lb.Config.Types.{Config, UpstreamSpec, defaults}
use s5lb.Config.Validate.{
  Env, ok, is_empty, first_error, check_upstreams, check_transport, validate,
}
use s5lb.Config.Validate.Laws.{Bounded, Usable, IdsApart, validate-Bounded}
use s5lb.Config.Groups.{
  GroupConfig, MultiConfig, effective, effective_groups, group_names, check_names, check_effective,
  check_groups, validate_multi,
}
use s5lb.Config.Groups.Laws.{Accepted, Distinct, addresses, validate_multi-groups}

abbrev lenient : Env
lenient = record { is_ip = λ s. true; splits = λ s. true; normal = λ s. s; in_unit = λ b. true }

abbrev spec : String → UpstreamSpec
spec name = record {
  id = name;
  host = "10.0.0.1";
  port = pos 1080;
  username = "";
  password = "";
  weight = pos 0;
  priority = pos 0;
}

abbrev two_upstreams : Config
two_upstreams = record (defaults 0) { upstreams = spec "a" ∷ spec "" ∷ spec "b" ∷ [] }

accepts : validate lenient two_upstreams ≡ ok two_upstreams
unfolding validate first_error check_upstreams check_transport one_of valid_strategy_name
accepts = refl

validate-Bounded_example :
    Bounded two_upstreams
    × (is_empty two_upstreams.upstreams ≡ false)
    × All Usable two_upstreams.upstreams
    × IdsApart two_upstreams.upstreams
    × (valid_strategy_name (λ s. s) two_upstreams.strategy ≡ true)
    × (two_upstreams ≡ record two_upstreams { transport = two_upstreams.transport })
validate-Bounded_example = validate-Bounded lenient two_upstreams two_upstreams accepts

abbrev group : String → String → GroupConfig
group name listen = record {
  name = name;
  listen = listen;
  max_per_proxy = none;
  max_clients = some (pos 8);
  health_interval = none;
  retry_backoff = none;
  connect_timeout = none;
  handshake_timeout = none;
  queue_wait_timeout = none;
  failure_threshold = none;
  failure_window = none;
  idle_timeout = none;
  drain_soft_timeout = none;
  drain_hard_timeout = none;
  tcp_keepalive = none;
  strategy = "";
  hash_key = "";
  backpressure = "";
  admission_wait_timeout = none;
  udp_enabled = none;
  udp_bind_addr = "";
  udp_idle_timeout = none;
  transport = none;
  upstreams = [];
}

abbrev two_groups : MultiConfig
two_groups = record {
  config = two_upstreams;
  groups = group "one" "" ∷ group "two" "127.0.0.1:1081" ∷ [];
}

validate_multi-groups_example :
    (two_groups ≡ two_groups)
    × All (Accepted lenient) (effective_groups two_groups)
    × Distinct (addresses (effective_groups two_groups))
    × Distinct (group_names two_groups)
    × All (λ n. n ≢ "") (group_names two_groups)
validate_multi-groups_example = validate_multi-groups lenient two_groups two_groups refl (
    unfold validate_multi check_groups check_names check_effective effective_groups effective
      validate first_error check_upstreams check_transport one_of valid_strategy_name in
    refl)
