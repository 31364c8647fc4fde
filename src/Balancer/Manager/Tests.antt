-- ===== src/Balancer/Manager/Tests.antt =====
-- A manager with one group, and the reload of a file that has this group and another.
use mathlib.Core.List.{Permᴰ}
use s5lb.Base.{◌≡◌, ◌≢◌, refl, true, false, String, List, [], ◌∷◌, ◌++◌, none, some, map, pos, All}
use s5lb.Config.Names.{one_of, valid_strategy_name}
use s5lb.Config.Types.{Config, defaults}
use s5lb.Config.Validate.{ok, validate, first_error, check_upstreams, check_transport}
use s5lb.Config.Groups.{
  GroupConfig, MultiConfig, effective, effective_groups, group_names, check_names, check_effective,
  check_groups, validate_multi,
}
use s5lb.Config.Groups.Laws.{validate_multi-groups}
use s5lb.Strategy.Registry.{least_active}
use s5lb.Admission.Gate.{rejects, new}
use s5lb.Balancer.Manager.{Entry, Manager, Tools}
use s5lb.Balancer.Manager.Removal.{later, start, plan, reload, supervise}
use s5lb.Balancer.Manager.Ports.{stop, IsInTheWay, IsClear, plan-Drained}
use s5lb.Balancer.Manager.Kept.{Reloaded, reload-Reloaded}

abbrev tools : Tools String
tools = record {
  env = record { is_ip = λ s. true; splits = λ s. true; normal = λ s. s; in_unit = λ b. true };
  factory = record { tcp = λ t. "tcp"; raw_wss = λ k. ok "wss"; exec = λ k. ok "exec" };
  addr = λ h p. h;
  digest = λ s. s;
  normal = λ s. s;
  registers = λ s. true;
  busy = λ s. false;
}

abbrev base : Config
base = record (defaults 0) {
  upstreams =
      record {
        id = "a";
        host = "a";
        port = pos 1;
        username = "";
        password = "";
        weight = pos 1;
        priority = pos 0;
      }
      ∷ [];
}

abbrev entry : String → String → Entry String
entry name listen = record {
  name = name;
  lb = record {
    cfg = record base { listen_addr = listen; group_name = name };
    dialer = "tcp";
    members = [];
    kind = rejects;
    wait = pos 0;
    gate = new 8;
  };
  selector = least_active;
  retired = false;
}

-- "c" takes over the address of "a", and "b" only goes.
plan-Drained_example :
    let gone = entry "a" "1" ∷ entry "b" "2" ∷ [] in
    let pending = entry "c" "1" ∷ [] in
    (drained : List (Entry String)) × (left : List (Entry String)) × Permᴰ gone (drained ++ left)
    × All (IsInTheWay pending) drained
    × All (IsClear pending) left
    × (plan pending gone ≡ map stop drained ++ (map later left ++ map start pending))
plan-Drained_example = plan-Drained (entry "c" "1" ∷ []) (entry "a" "1" ∷ entry "b" "2" ∷ [])

abbrev group : String → String → GroupConfig
group name listen = record {
  name = name;
  listen = listen;
  max_per_proxy = none;
  max_clients = none;
  health_interval = none;
  retry_backoff = none;
  connect_timeout = none;
  handshake_timeout = none;
  queue_wait_timeout = none;
  failure_threshold = none;
  failure_window = none;
  idle_timeout = none;
  drain_soft_timeout = none;
  drain_hard_timeout = none;
  tcp_keepalive = none;
  strategy = "";
  hash_key = "";
  backpressure = "";
  admission_wait_timeout = none;
  udp_enabled = none;
  udp_bind_addr = "";
  udp_idle_timeout = none;
  transport = none;
  upstreams = [];
}

abbrev file : MultiConfig
file = record { config = base; groups = group "a" "127.0.0.1:2" ∷ group "b" "127.0.0.1:1" ∷ [] }

-- "a" listens on the address that the file gives to "b".
abbrev running : Manager String
running = record {
  groups = entry "a" "127.0.0.1:1" ∷ [];
  by_name = ("a", entry "a" "127.0.0.1:1") ∷ [];
}

file_valid : validate_multi tools.env file ≡ ok file
unfolding validate_multi check_groups check_names check_effective effective_groups effective
    validate first_error check_upstreams check_transport one_of valid_strategy_name
file_valid = refl

file_named : All (λ n. n ≢ "") (group_names file)
file_named = (validate_multi-groups tools.env file file refl file_valid).4

reload-Reloaded_example : Reloaded tools file running (reload tools (ok file) running)
reload-Reloaded_example = reload-Reloaded tools file file running file_valid file_named (refl, tt)

-- A group that was retired ends quietly; the next that ends takes the manager down.
supervises :
    supervise (
      record { name = "a"; err = none; retired = true }
      ∷ record { name = "b"; err = none; retired = false }
      ∷ [])
    ≡ some none
unfolding supervise
supervises = refl
