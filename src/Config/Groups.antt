-- ===== src/Config/Groups.antt =====
-- internal/config/multiconfig.go: several named groups over one global configuration. A pointer or an
-- optionalDuration that is not set is `none`; a string that is not set is "".
pub mod Laws
use s5lb.Base.{
  ℕ, ◌+◌, Bool, true, false, if◌then◌else◌, String, str_eq, List, [], ◌∷◌, Option, none, some, ℤ,
  map,
}
use s5lb.Config.Names.{one_of}
use s5lb.Config.Types.{Config, Transport, UpstreamSpec}
use s5lb.Config.Validate.{
  Error, invalid, at_index, in_group, Checked, failed, ok, then_check, then_with, is_empty, Env,
  validate,
}

pub record GroupConfig : Type 0 where
  pub name : String
  pub listen : String
  pub max_per_proxy : Option ℤ
  pub max_clients : Option ℤ
  pub health_interval : Option ℤ
  pub retry_backoff : Option ℤ
  pub connect_timeout : Option ℤ
  pub handshake_timeout : Option ℤ
  pub queue_wait_timeout : Option ℤ
  pub failure_threshold : Option ℤ
  pub failure_window : Option ℤ
  pub idle_timeout : Option ℤ
  pub drain_soft_timeout : Option ℤ
  pub drain_hard_timeout : Option ℤ
  pub tcp_keepalive : Option Bool
  pub strategy : String
  pub hash_key : String
  pub backpressure : String
  pub admission_wait_timeout : Option ℤ
  pub udp_enabled : Option Bool
  pub udp_bind_addr : String
  pub udp_idle_timeout : Option ℤ
  pub transport : Option Transport
  pub upstreams : List UpstreamSpec

pub record MultiConfig : Type 0 where
  pub config : Config
  pub groups : List GroupConfig

abbrev pub set_or {ℓ} : {A : Type ℓ} → Option A → A → A
set_or none global = global
set_or (some a) global = a

abbrev pub text_or : String → String → String
text_or s global = if str_eq s "" then global else s

abbrev pub list_or {ℓ} : {A : Type ℓ} → List A → List A → List A
list_or [] global = global
list_or (x ∷ xs) global = x ∷ xs

-- The body of the loop of EffectiveGroups.
unfoldable pub effective : Config → GroupConfig → Config
effective c g = record {
  listen_addr = text_or g.listen c.listen_addr;
  admin_addr = c.admin_addr;
  max_per_proxy = set_or g.max_per_proxy c.max_per_proxy;
  max_clients = set_or g.max_clients c.max_clients;
  health_interval = set_or g.health_interval c.health_interval;
  retry_backoff = set_or g.retry_backoff c.retry_backoff;
  connect_timeout = set_or g.connect_timeout c.connect_timeout;
  handshake_timeout = set_or g.handshake_timeout c.handshake_timeout;
  queue_wait_timeout = set_or g.queue_wait_timeout c.queue_wait_timeout;
  failure_threshold = set_or g.failure_threshold c.failure_threshold;
  failure_window = set_or g.failure_window c.failure_window;
  idle_timeout = set_or g.idle_timeout c.idle_timeout;
  drain_soft_timeout = set_or g.drain_soft_timeout c.drain_soft_timeout;
  drain_hard_timeout = set_or g.drain_hard_timeout c.drain_hard_timeout;
  tcp_keepalive = set_or g.tcp_keepalive c.tcp_keepalive;
  strategy = text_or g.strategy c.strategy;
  hash_key = text_or g.hash_key c.hash_key;
  backpressure = text_or g.backpressure c.backpressure;
  admission_wait_timeout = set_or g.admission_wait_timeout c.admission_wait_timeout;
  udp_enabled = set_or g.udp_enabled c.udp_enabled;
  udp_bind_addr = text_or g.udp_bind_addr c.udp_bind_addr;
  udp_advertise_addr = c.udp_advertise_addr;
  udp_idle_timeout = set_or g.udp_idle_timeout c.udp_idle_timeout;
  transport = set_or g.transport c.transport;
  otel = c.otel;
  log_level = c.log_level;
  log_level_s = c.log_level_s;
  log_format = c.log_format;
  admin_token = c.admin_token;
  admin_pprof = c.admin_pprof;
  upstreams = list_or g.upstreams c.upstreams;
  group_name = g.name;
}

abbrev default_name : Config → String
default_name c = text_or c.group_name "default"

unfoldable pub effective_groups : MultiConfig → List Config
effective_groups mc =
    if is_empty mc.groups
    then record mc.config { group_name = default_name mc.config } ∷ []
    else map (effective mc.config) mc.groups

unfoldable pub group_names : MultiConfig → List String
group_names mc =
    if is_empty mc.groups
    then default_name mc.config ∷ []
    else map (λ (g : GroupConfig). g.name) mc.groups

-- The first loop of Validate: `seen` holds the names so far.
unfoldable pub check_names : ℕ → List String → List GroupConfig → Option Error
check_names i seen [] = none
check_names i seen (g ∷ gs) =
    let later = check_names (i + 1) (g.name ∷ seen) gs in
    if str_eq g.name ""
    then some (at_index i "name is required")
    else if one_of g.name seen
    then some (at_index i "duplicate group name")
    else later

abbrev pub unless_failed : String → Checked Config → Option Error → Option Error
unless_failed name (failed e) later = some (in_group name e)
unless_failed name (ok c) later = later

-- The second loop: `seen` holds the listen addresses so far. The error names the group, which is the
-- group of the same index.
unfoldable pub check_effective : Env → List String → List Config → Option Error
check_effective env seen [] = none
check_effective env seen (c ∷ cs) =
    let later = check_effective env (c.listen_addr ∷ seen) cs in
    unless_failed c.group_name (validate env c) (
      if one_of c.listen_addr seen
      then some (in_group c.group_name (invalid "listen addr already used"))
      else later)

-- The groups of a file that names some; EffectiveGroups copies, so nothing is written back.
unfoldable pub check_groups : Env → MultiConfig → Option Error
unfolding check_names check_effective effective_groups
check_groups env mc = elim (check_names 0 [] mc.groups) [
  | some e ↦ some e
  | none ↦ check_effective env [] (effective_groups mc)
]

-- Validate, with the configuration as it leaves it: without groups, the defaults of the transport are
-- written into it.
unfoldable pub validate_multi : Env → MultiConfig → Checked MultiConfig
unfolding check_groups
validate_multi env mc =
    if is_empty mc.groups
    then then_with (validate env mc.config) (λ c. ok (record mc { config = c }))
    else then_check (check_groups env mc) (ok mc)
