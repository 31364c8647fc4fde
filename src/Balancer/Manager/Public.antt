-- ===== src/Balancer/Manager/Public.antt =====
-- publicConfig in manager.go: a configuration as the admin server may show it. `duration` writes a
-- duration out.
use s5lb.Base.{Bool, not, ◌||◌, String, str_eq, List, map, ℤ}
use s5lb.Config.Types.{Config, UpstreamSpec, Kubernetes}
use s5lb.Config.Validate.{is_empty}

pub record PublicUpstreamSpec : Type 0 where
  pub id : String
  pub host : String
  pub port : ℤ
  pub weight : ℤ
  pub priority : ℤ
  pub auth_configured : Bool

pub record PublicTransport : Type 0 where
  pub kind : String
  pub kube_mode : String
  pub namespace : String
  pub pod : String
  pub container : String
  pub has_headers : Bool
  pub has_token : Bool

pub record PublicConfig : Type 0 where
  pub listen_addr : String
  pub max_per_proxy : ℤ
  pub max_clients : ℤ
  pub health_interval : String
  pub retry_backoff : String
  pub connect_timeout : String
  pub handshake_timeout : String
  pub queue_wait_timeout : String
  pub failure_threshold : ℤ
  pub failure_window : String
  pub idle_timeout : String
  pub tcp_keepalive : Bool
  pub strategy : String
  pub hash_key : String
  pub backpressure : String
  pub admission_wait_timeout : String
  pub udp_enabled : Bool
  pub udp_bind_addr : String
  pub udp_idle_timeout : String
  pub transport : PublicTransport
  pub upstreams : List PublicUpstreamSpec

abbrev pub given : String → Bool
given s = not (str_eq s "")

unfoldable pub public_upstream : UpstreamSpec → PublicUpstreamSpec
public_upstream u = record {
  id = u.id;
  host = u.host;
  port = u.port;
  weight = u.weight;
  priority = u.priority;
  auth_configured = given u.username || given u.password;
}

unfoldable pub public_transport : String → Kubernetes → PublicTransport
public_transport kind k = record {
  kind = kind;
  kube_mode = k.mode;
  namespace = k.namespace;
  pod = k.pod;
  container = k.container;
  has_headers = not (is_empty k.headers);
  has_token = given k.bearer_token || given k.bearer_token_file;
}

unfoldable pub public_config : (ℤ → String) → Config → PublicConfig
unfolding public_upstream public_transport
public_config duration c = record {
  listen_addr = c.listen_addr;
  max_per_proxy = c.max_per_proxy;
  max_clients = c.max_clients;
  health_interval = duration c.health_interval;
  retry_backoff = duration c.retry_backoff;
  connect_timeout = duration c.connect_timeout;
  handshake_timeout = duration c.handshake_timeout;
  queue_wait_timeout = duration c.queue_wait_timeout;
  failure_threshold = c.failure_threshold;
  failure_window = duration c.failure_window;
  idle_timeout = duration c.idle_timeout;
  tcp_keepalive = c.tcp_keepalive;
  strategy = c.strategy;
  hash_key = c.hash_key;
  backpressure = c.backpressure;
  admission_wait_timeout = duration c.admission_wait_timeout;
  udp_enabled = c.udp_enabled;
  udp_bind_addr = c.udp_bind_addr;
  udp_idle_timeout = duration c.udp_idle_timeout;
  transport = public_transport c.transport.kind c.transport.kubernetes;
  upstreams = map public_upstream c.upstreams;
}
