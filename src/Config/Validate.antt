-- ===== src/Config/Validate.antt =====
-- Config.Validate (config.go), and BuildUpstreams, which reads a validated configuration. An error is
-- its message without the values that the source prints into it.
pub mod Laws
pub mod Build
use s5lb.Base.{
  ℕ, ◌+◌, Bool, true, false, not, ◌&&◌, ◌||◌, ltb, leb, if◌then◌else◌, String, str_eq, List, [],
  ◌∷◌, Option, none, some, ℤ, pos, pos_part, ltb_ℤ, leb_ℤ,
}
use s5lb.Upstream.{Upstream, State, new_state}
use s5lb.Config.Names.{one_of, valid_strategy_name}
use s5lb.Config.Types.{Kubernetes, Transport, UpstreamSpec, Config}

pub data Error : Type 0 where
  invalid : String → Error
  at_index : ℕ → String → Error
  in_group : String → Error → Error

pub data Checked {ℓ} (A : Type ℓ) : Type ℓ where
  failed : Error → Checked A
  ok : A → Checked A

-- The first guard that fires.
unfoldable pub first_error : List (Bool × String) → Option Error
first_error [] = none
first_error ((bad, message) ∷ rest) = if bad then some (invalid message) else first_error rest

abbrev pub then_check {ℓ} : {A : Type ℓ} → Option Error → Checked A → Checked A
then_check none rest = rest
then_check (some e) rest = failed e

abbrev pub then_with {ℓ κ} : {A : Type ℓ} {B : Type κ} → Checked A → (A → Checked B) → Checked B
then_with (failed e) f = failed e
then_with (ok a) f = f a

-- The guards before the upstreams. `is_ip` is net.ParseIP(…) ≠ nil.
abbrev pub limits : (String → Bool) → Config → List (Bool × String)
limits is_ip c =
    (str_eq c.listen_addr "", "listen addr is required")
    ∷ (leb_ℤ c.max_per_proxy (pos 0), "max_per_proxy must be > 0")
    ∷ (leb_ℤ c.max_clients (pos 0), "max_clients must be > 0")
    ∷ (leb_ℤ c.health_interval (pos 0), "health_interval must be > 0")
    ∷ (ltb_ℤ c.retry_backoff (pos 0), "retry_backoff must be >= 0")
    ∷ (
      leb_ℤ c.connect_timeout (pos 0) || leb_ℤ c.handshake_timeout (pos 0),
      "connect/handshake timeouts must be > 0",
    )
    ∷ (ltb_ℤ c.queue_wait_timeout (pos 0), "queue_wait_timeout must be >= 0")
    ∷ (ltb_ℤ c.admission_wait_timeout (pos 0), "admission_wait_timeout must be >= 0")
    ∷ (leb_ℤ c.failure_threshold (pos 0), "failure_threshold must be > 0")
    ∷ (leb_ℤ c.failure_window (pos 0), "failure_window must be > 0")
    ∷ (ltb_ℤ c.idle_timeout (pos 0), "idle_timeout must be >= 0")
    ∷ (
      ltb_ℤ c.drain_soft_timeout (pos 0) || ltb_ℤ c.drain_hard_timeout (pos 0),
      "drain timeouts must be >= 0",
    )
    ∷ (c.udp_enabled && leb_ℤ c.udp_idle_timeout (pos 0), "udp_idle_timeout must be > 0")
    ∷ (
      not (str_eq c.udp_advertise_addr "") && not (is_ip c.udp_advertise_addr),
      "udp_advertise must be an IP address",
    )
    ∷ []

-- The loop over the upstreams: `i` is the index and `seen` the keys of seenIDs.
unfoldable pub check_upstreams : ℕ → List String → List UpstreamSpec → Option Error
check_upstreams i seen [] = none
check_upstreams i seen (u ∷ us) =
    let dup = not (str_eq u.id "") && one_of u.id seen in
    let later = check_upstreams (i + 1) (if str_eq u.id "" then seen else u.id ∷ seen) us in
    if str_eq u.host ""
    then some (at_index i "host is required")
    else if ltb_ℤ u.port (pos 1) || ltb_ℤ (pos 65535) u.port
    then some (at_index i "port must be in [1,65535]")
    else if ltb_ℤ u.weight (pos 0)
    then some (at_index i "weight must be >= 0")
    else if dup
    then some (at_index i "duplicate upstream ID")
    else later

abbrev pub is_empty : {A : Type 0} → List A → Bool
is_empty [] = true
is_empty (x ∷ xs) = false

-- The case of kubernetes-exec, after the default of `mode`.
check_kubernetes : Kubernetes → Option Error
check_kubernetes k =
    let raw = not (str_eq k.wss_url "") || str_eq k.mode "raw-wss" in
    if raw && str_eq k.wss_url ""
    then some (invalid "transport.kubernetes.wss_url is required when mode=raw-wss")
    else if not raw && str_eq k.pod ""
    then some (invalid "transport.kubernetes.pod is required for kubernetes-exec")
    else if not raw && str_eq k.namespace ""
    then some (invalid "transport.kubernetes.namespace is required for kubernetes-exec")
    else if is_empty k.command
    then some (invalid "transport.kubernetes.command is required for kubernetes-exec")
    else none

with_mode : Kubernetes → Kubernetes
with_mode k = if str_eq k.mode "" then record k { mode = "websocket-preferred" } else k

-- The switch on the transport's type, which also writes the defaults back.
unfoldable pub check_transport : Transport → Checked Transport
unfolding check_kubernetes with_mode
check_transport t =
    if str_eq t.kind "" || str_eq t.kind "direct"
    then ok (record t { kind = "direct" })
    else if str_eq t.kind "kubernetes-exec"
    then then_check (check_kubernetes (with_mode t.kubernetes))
        (ok (record t { kubernetes = with_mode t.kubernetes }))
    else failed (invalid "unknown transport.type")

abbrev pub choices : (String → Bool) → (String → String) → Config → List (Bool × String)
choices splits normal c =
    (not (splits c.listen_addr), "listen addr is invalid")
    ∷ (not (valid_strategy_name normal c.strategy), "unknown strategy")
    ∷ (
      not (one_of c.backpressure ("reject" ∷ "wait" ∷ "drop-oldest" ∷ "drop-lowest-priority" ∷ [])),
      "unknown backpressure strategy",
    )
    ∷ (
      not (one_of c.hash_key ("client-ip" ∷ "destination" ∷ "destination-host" ∷ [])),
      "unknown hash_key",
    )
    ∷ []

abbrev pub tracing : (ℕ → Bool) → Config → List (Bool × String)
tracing in_unit c =
    (c.otel.enabled && str_eq c.otel.endpoint "", "otel.enabled=true requires otel.endpoint")
    ∷ (not (in_unit c.otel.sample_ratio), "otel.sample_ratio must be in [0,1]")
    ∷ []

-- What Validate asks of other code: net.ParseIP, net.SplitHostPort, strings.ToLower ∘ TrimSpace, and
-- the test of a float64 against [0,1].
pub record Env : Type 0 where
  pub is_ip : String → Bool
  pub splits : String → Bool
  pub normal : String → String
  pub in_unit : ℕ → Bool

abbrev pub some_upstream : Config → Option Error
some_upstream c =
    if is_empty c.upstreams then some (invalid "at least one upstream is required") else none

abbrev pub from_tracing : Env → Config → Transport → Checked Config
from_tracing env c t =
    then_check (first_error (tracing env.in_unit c)) (ok (record c { transport = t }))

abbrev pub from_transport : Env → Config → Checked Config
from_transport env c = then_with (check_transport c.transport) (from_tracing env c)

abbrev pub from_choices : Env → Config → Checked Config
from_choices env c =
    then_check (first_error (choices env.splits env.normal c)) (from_transport env c)

abbrev pub from_upstreams : Env → Config → Checked Config
from_upstreams env c = then_check (check_upstreams 0 [] c.upstreams) (from_choices env c)

-- Validate; a configuration that passes has the defaults of its transport written back.
unfoldable pub validate : Env → Config → Checked Config
validate env c =
    then_check (first_error (limits env.is_ip c))
      (then_check (some_upstream c) (from_upstreams env c))

-- upstream.New and NormalizeID. `addr` formats host and port; `digest` is the hash of it.
unfoldable pub new_upstream :
    (String → ℕ → String) → (String → String) → UpstreamSpec → ℤ → Upstream × State
new_upstream addr digest s w = (
  record {
    id = if str_eq s.id "" then digest (addr s.host (pos_part s.port)) else s.id;
    host = s.host;
    port = pos_part s.port;
    username = s.username;
    password = s.password;
    weight = w;
    priority = s.priority;
  },
  new_state,
)

unfoldable pub build_upstreams :
    (String → ℕ → String)
    → (String → String)
    → ℕ
    → List UpstreamSpec
    → Checked (List (Upstream × State))
build_upstreams addr digest i [] = ok []
build_upstreams addr digest i (s ∷ rest) =
    let built = build_upstreams addr digest (i + 1) rest in
    if str_eq s.host "" || leb_ℤ s.port (pos 0)
    then failed (at_index i "host and port required")
    else then_with built (λ us.
      ok (new_upstream addr digest s (if leb_ℤ s.weight (pos 0) then pos 1 else s.weight) ∷ us))
