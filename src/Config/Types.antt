-- ===== src/Config/Types.antt =====
-- internal/config/config.go: the runtime configuration. Durations and ints are signed numbers; the
-- enumerations are the strings of the file; `sample_ratio` is the bit pattern of a float64.
use s5lb.Base.{ℕ, ◌*◌, Bool, true, false, String, List, [], ℤ, pos}

pub record Kubernetes : Type 0 where
  pub kubeconfig : String
  pub context : String
  pub namespace : String
  pub pod : String
  pub container : String
  pub mode : String
  pub command : List String
  pub wss_url : String
  pub bearer_token : String
  pub bearer_token_file : String
  pub ca_file : String
  pub insecure_skip_tls_verify : Bool
  pub server_name : String
  pub headers : List (String × String)

pub record Transport : Type 0 where
  pub kind : String
  pub kubernetes : Kubernetes

pub record UpstreamSpec : Type 0 where
  pub id : String
  pub host : String
  pub port : ℤ
  pub username : String
  pub password : String
  pub weight : ℤ
  pub priority : ℤ

pub record Otel : Type 0 where
  pub enabled : Bool
  pub endpoint : String
  pub insecure : Bool
  pub service_name : String
  pub sample_ratio : ℕ
  pub headers : List (String × String)

pub record Config : Type 0 where
  pub listen_addr : String
  pub admin_addr : String
  pub max_per_proxy : ℤ
  pub max_clients : ℤ
  pub health_interval : ℤ
  pub retry_backoff : ℤ
  pub connect_timeout : ℤ
  pub handshake_timeout : ℤ
  pub queue_wait_timeout : ℤ
  pub failure_threshold : ℤ
  pub failure_window : ℤ
  pub idle_timeout : ℤ
  pub drain_soft_timeout : ℤ
  pub drain_hard_timeout : ℤ
  pub tcp_keepalive : Bool
  pub strategy : String
  pub hash_key : String
  pub backpressure : String
  pub admission_wait_timeout : ℤ
  pub udp_enabled : Bool
  pub udp_bind_addr : String
  pub udp_advertise_addr : String
  pub udp_idle_timeout : ℤ
  pub transport : Transport
  pub otel : Otel
  pub log_level : ℤ
  pub log_level_s : String
  pub log_format : String
  pub admin_token : String
  pub admin_pprof : Bool
  pub upstreams : List UpstreamSpec
  pub group_name : String

abbrev pub no_kubernetes : Kubernetes
no_kubernetes = record {
  kubeconfig = "";
  context = "";
  namespace = "";
  pod = "";
  container = "";
  mode = "";
  command = [];
  wss_url = "";
  bearer_token = "";
  bearer_token_file = "";
  ca_file = "";
  insecure_skip_tls_verify = false;
  server_name = "";
  headers = [];
}

abbrev pub seconds : ℕ → ℤ
seconds n = pos (n * 1000000000)

-- Defaults. `one` is the bit pattern of 1.0.
abbrev pub defaults : ℕ → Config
defaults one = record {
  listen_addr = "127.0.0.1:1080";
  admin_addr = "127.0.0.1:9090";
  max_per_proxy = pos 100;
  max_clients = pos 4096;
  health_interval = seconds 20;
  retry_backoff = seconds 30;
  connect_timeout = seconds 5;
  handshake_timeout = seconds 10;
  queue_wait_timeout = seconds 10;
  failure_threshold = pos 5;
  failure_window = seconds 30;
  idle_timeout = pos 0;
  drain_soft_timeout = seconds 20;
  drain_hard_timeout = seconds 10;
  tcp_keepalive = true;
  strategy = "least-active";
  hash_key = "client-ip";
  backpressure = "reject";
  admission_wait_timeout = seconds 2;
  udp_enabled = true;
  udp_bind_addr = "";
  udp_advertise_addr = "";
  udp_idle_timeout = seconds 60;
  transport = record { kind = "direct"; kubernetes = no_kubernetes };
  otel = record {
    enabled = false;
    endpoint = "";
    insecure = false;
    service_name = "s5lb";
    sample_ratio = one;
    headers = [];
  };
  log_level = pos 0;
  log_level_s = "";
  log_format = "json";
  admin_token = "";
  admin_pprof = false;
  upstreams = [];
  group_name = "";
}
