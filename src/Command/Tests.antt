-- ===== src/Command/Tests.antt =====
-- A start with flags and one -upstream argument, and the ends of both commands.
use s5lb.Base.{◌≡◌, refl, true, false, [], ◌∷◌, none, some, pos, negsuc, All}
use s5lb.Config.Types.{Config, defaults}
use s5lb.Config.Validate.{ok, validate, first_error, is_empty, check_upstreams, check_transport}
use s5lb.Config.Names.{one_of, valid_strategy_name}
use s5lb.Config.Groups.{MultiConfig, effective_groups, validate_multi}
use s5lb.Config.Parse.{Text}
use s5lb.Command.{World, Flags, prepare}
use s5lb.Command.Startup.{Made, prepare_lem}
use s5lb.Command.Lifecycle.{hangup, terminate, served, reloads, shuts_down, stops_admin, exits}
use s5lb.Command.Lifecycle
use s5lb.Command.Relay

-- Knows "proxy:1080".
abbrev one_text : Text
one_text = record {
  at_hash = λ s. none;
  has_scheme = λ s. false;
  at_sign = λ s. none;
  at_colon = λ s. none;
  pair = λ s. none;
  commas = λ s. [];
  split_host_port = λ s. some ("proxy", s);
  atoi = λ s. some (pos 1080);
  url = λ s. none;
  addr = λ h p. h;
  digest = λ s. s;
}

abbrev world : World
world = record {
  env = record { is_ip = λ s. true; splits = λ s. true; normal = λ s. s; in_unit = λ b. true };
  text = one_text;
  read = λ path. ok (record { config = defaults 0; groups = [] });
  lower = λ s. s;
  one = 0;
}

abbrev flags : Flags
flags = record {
  config = "";
  listen = "127.0.0.1:2080";
  admin_addr = "";
  upstreams = "proxy:1080" ∷ [];
  strategy = "random";
  hash_key = "";
  backpressure = "";
  max_per_proxy = pos 7;
  max_clients = pos 0;
  log_level = "debug";
  log_format = "";
  udp = false;
  saw_udp = true;
  otel = false;
  saw_otel = false;
  otel_endpoint = "";
  otel_insecure = true;
  saw_otel_insecure = false;
}

abbrev started : MultiConfig
started = record {
  config = record (defaults 0) {
    listen_addr = "127.0.0.1:2080";
    strategy = "random";
    max_per_proxy = pos 7;
    log_level = negsuc 3;
    udp_enabled = false;
    upstreams =
        record {
          id = "";
          host = "proxy";
          port = pos 1080;
          username = "";
          password = "";
          weight = pos 1;
          priority = pos 0;
        }
        ∷ [];
  };
  groups = [];
}

starts : prepare world flags ≡ ok started
unfolding prepare validate_multi effective_groups validate check_upstreams check_transport
    valid_strategy_name first_error one_of
starts = refl

prepare_lem_example :
    (full : MultiConfig) × Made world flags full
    × (validate_multi world.env full ≡ ok started)
    × All (λ (c : Config). is_empty c.upstreams ≡ false) (effective_groups full)
prepare_lem_example = prepare_lem world flags started starts

ends_well :
    Lifecycle.run true (hangup ∷ terminate ∷ hangup ∷ served false ∷ [])
    ≡ reloads ∷ shuts_down ∷ stops_admin ∷ exits 0 ∷ []
unfolding Lifecycle.run
ends_well = refl

-- A client that closes its write side cuts off the answer that is still under way.
half_close_cuts :
    Relay.run (λ n h p. true) ("tcp" ∷ "proxy" ∷ "1080" ∷ []) (Relay.stdin_copied none)
    ≡ Relay.close_write ∷ Relay.close ∷ Relay.returns ∷ []
unfolding Relay.run
half_close_cuts = refl
