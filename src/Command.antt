-- ===== src/Command.antt =====
-- cmd/s5lb/main.go up to the manager: the configuration that the file, the flags and the -upstream
-- arguments make together. A failure ends the program with code 2; the metrics, the tracer and the
-- logger that start behind it are other packages.
pub mod Startup
pub mod Lifecycle
pub mod Relay
mod Tests
use s5lb.Base.{
  ℕ, Bool, true, false, ◌||◌, if◌then◌else◌, String, str_eq, List, [], ◌∷◌, ◌++◌, Option, none,
  some, ℤ, pos, negsuc, ltb_ℤ,
}
use s5lb.Upstream.{Upstream}
use s5lb.Config.Types.{Config, UpstreamSpec, defaults}
use s5lb.Config.Validate.{Error, invalid, Checked, failed, ok, Env, then_with, then_check, is_empty}
use s5lb.Config.Groups.{MultiConfig, effective_groups, validate_multi}
use s5lb.Config.Parse.{Text, parse_upstream}

-- The flags; `saw` tells for the Boolean flags whether they were given.
pub record Flags : Type 0 where
  pub config : String
  pub listen : String
  pub admin_addr : String
  pub upstreams : List String
  pub strategy : String
  pub hash_key : String
  pub backpressure : String
  pub max_per_proxy : ℤ
  pub max_clients : ℤ
  pub log_level : String
  pub log_format : String
  pub udp : Bool
  pub saw_udp : Bool
  pub otel : Bool
  pub saw_otel : Bool
  pub otel_endpoint : String
  pub otel_insecure : Bool
  pub saw_otel_insecure : Bool

-- The world: `read` is the YAML file decoded over the defaults, `lower` is strings.ToLower and `one` the
-- bit pattern of 1.0.
pub record World : Type 0 where
  pub env : Env
  pub text : Text
  pub read : String → Checked MultiConfig
  pub lower : String → String
  pub one : ℕ

-- ParseLevel in internal/logging/logging.go.
unfoldable pub parse_level : (String → String) → String → ℤ
parse_level lower s =
    let t = lower s in
    if str_eq t "debug"
    then negsuc 3
    else if str_eq t "info"
    then pos 0
    else if str_eq t "warn" || str_eq t "warning"
    then pos 4
    else if str_eq t "error"
    then pos 8
    else pos 0

-- What LoadMultiFile does behind the decoding.
unfoldable pub completed : (String → String) → Config → Config
unfolding parse_level
completed lower c = record c {
  log_level = parse_level lower c.log_level_s;
  otel = record c.otel {
    service_name = if str_eq c.otel.service_name "" then "s5lb" else c.otel.service_name;
  };
}

unfoldable pub load : World → String → Checked MultiConfig
unfolding completed
load w path =
    if str_eq path ""
    then ok (record { config = defaults w.one; groups = [] })
    else then_with (w.read path) (λ mc. ok (record mc { config = completed w.lower mc.config }))

-- A text that is not empty and a number above zero replace the value of the file.
abbrev over : String → String → String
over s old = if str_eq s "" then old else s

abbrev over_ℤ : ℤ → ℤ → ℤ
over_ℤ n old = if ltb_ℤ (pos 0) n then n else old

unfoldable pub apply_flag_overrides : (String → String) → Flags → Config → Config
unfolding parse_level
apply_flag_overrides lower f c = record c {
  listen_addr = over f.listen c.listen_addr;
  admin_addr = over f.admin_addr c.admin_addr;
  strategy = over f.strategy c.strategy;
  hash_key = over f.hash_key c.hash_key;
  backpressure = over f.backpressure c.backpressure;
  max_per_proxy = over_ℤ f.max_per_proxy c.max_per_proxy;
  max_clients = over_ℤ f.max_clients c.max_clients;
  log_level = if str_eq f.log_level "" then c.log_level else parse_level lower f.log_level;
  log_format = over f.log_format c.log_format;
  udp_enabled = if f.saw_udp then f.udp else c.udp_enabled;
  otel = record c.otel {
    enabled =
        if str_eq f.otel_endpoint "" then (if f.saw_otel then f.otel else c.otel.enabled) else true;
    endpoint = over f.otel_endpoint c.otel.endpoint;
    insecure = if f.saw_otel_insecure then f.otel_insecure else c.otel.insecure;
  };
}

-- The ID of the upstream is not passed on.
unfoldable pub spec_of : Upstream → UpstreamSpec
spec_of u = record {
  id = "";
  host = u.host;
  port = pos u.port;
  username = u.username;
  password = u.password;
  weight = u.weight;
  priority = u.priority;
}

abbrev pub given_upstream : Option Upstream → Checked UpstreamSpec
given_upstream none = failed (invalid "invalid upstream")
given_upstream (some u) = ok (spec_of u)

unfoldable pub add_upstreams : Text → List String → List UpstreamSpec → Checked (List UpstreamSpec)
unfolding spec_of parse_upstream
add_upstreams t [] us = ok us
add_upstreams t (spec ∷ specs) us =
    then_with (given_upstream (parse_upstream t spec)) (λ u. add_upstreams t specs (us ++ u ∷ []))

unfoldable pub lacks_upstream : List Config → Bool
lacks_upstream [] = false
lacks_upstream (c ∷ cs) = if is_empty c.upstreams then true else lacks_upstream cs

unfoldable pub checked : World → MultiConfig → Checked MultiConfig
unfolding lacks_upstream
checked w mc =
    if lacks_upstream (effective_groups mc)
    then failed (invalid "at least one upstream is required")
    else validate_multi w.env mc

unfoldable pub with_flags : World → Flags → MultiConfig → Checked MultiConfig
unfolding apply_flag_overrides add_upstreams checked
with_flags w f mc =
    let c = apply_flag_overrides w.lower f mc.config in
    then_with (add_upstreams w.text f.upstreams c.upstreams)
      (λ us. checked w (record mc { config = record c { upstreams = us } }))

-- The configuration that NewManager gets.
unfoldable pub prepare : World → Flags → Checked MultiConfig
unfolding load with_flags
prepare w f = then_with (load w f.config) (with_flags w f)
