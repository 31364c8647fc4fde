-- ===== src/Balancer/Reload.antt =====
-- Replacing the pool and the configuration of a running balancer: setUpstreams (balancer.go),
-- reloadFromConfig (reload.go) and the choice of the dialer (internal/transport/factory.go). What the
-- factory calls to read kubeconfig, TLS files and tokens is `Factory`.
pub mod Pool
pub mod Atomic
use s5lb.Base.{
  ℕ, Bool, true, false, not, ◌&&◌, ◌||◌, if◌then◌else◌, String, str_eq, List, [], ◌∷◌, Option, none,
  some, ℤ, leb_ℤ, pos_part, ◌==◌, map,
}
use s5lb.Upstream.{Upstream, State}
use s5lb.Config.Names.{one_of}
use s5lb.Config.Types.{Config, Kubernetes}
use s5lb.Config.Validate.{
  Error, invalid, Checked, failed, ok, Env, validate, is_empty, build_upstreams, then_with,
}
use s5lb.Balancer.Pool.{Member, find}
use s5lb.Admission.Gate
use s5lb.Admission.Gate.{Kind, kind_of}

unfoldable pub repeated : List String → List Member → Bool
repeated seen [] = false
repeated seen (m ∷ ms) = if one_of m.up.id seen then true else repeated (m.up.id ∷ seen) ms

-- sort.SliceStable by priority.
unfoldable pub insert : Member → List Member → List Member
insert m [] = m ∷ []
insert m (x ∷ xs) = if leb_ℤ m.up.priority x.up.priority then m ∷ x ∷ xs else x ∷ insert m xs

unfoldable pub sort_by_priority : List Member → List Member
sort_by_priority [] = []
sort_by_priority (m ∷ ms) = insert m (sort_by_priority ms)

-- An upstream of the new pool takes over the State of the old one with its ID.
unfoldable pub keep : List Member → Member → Member
keep old m = elim (find m.up.id old) [ none ↦ m | some o ↦ record m { state = o.state } ]

-- setUpstreams, for upstreams with their IDs filled in.
unfoldable pub set_upstreams : List Member → List Member → List Member × Option Error
set_upstreams ups old =
    if repeated [] ups
    then (old, some (invalid "duplicate upstream ID"))
    else (map (keep old) (sort_by_priority ups), none)

-- What NewFromConfig calls.
pub record Factory (D : Type 0) : Type 0 where
  pub tcp : ℤ → D
  pub raw_wss : Kubernetes → Checked D
  pub exec : Kubernetes → Checked D

unfoldable pub new_from_config : {D : Type 0} → Factory D → Config → Checked D
new_from_config f c =
    let k = c.transport.kubernetes in
    if str_eq c.transport.kind "" || str_eq c.transport.kind "direct"
    then ok (f.tcp c.connect_timeout)
    else if str_eq c.transport.kind "kubernetes-exec"
    then (if str_eq k.mode "raw-wss" || not (str_eq k.wss_url "") then f.raw_wss k else f.exec k)
    else failed (invalid "unsupported transport.type")

-- The parts of LoadBalancer that a reload replaces. The gate is its kind, its wait and its channel.
pub record Engine (D : Type 0) : Type 0 where
  pub cfg : Config
  pub dialer : D
  pub members : List Member
  pub kind : Kind
  pub wait : ℤ
  pub gate : Gate.Gate

abbrev pub same_ℤ : ℤ → ℤ → Bool
same_ℤ a b = leb_ℤ a b && leb_ℤ b a

-- The fields that a reload cannot change.
unfoldable pub merge : Config → Config → Config
merge old new = record new {
  listen_addr = old.listen_addr;
  admin_addr = old.admin_addr;
  strategy = old.strategy;
  hash_key = old.hash_key;
  max_clients = old.max_clients;
  otel = old.otel;
}

abbrev pub gate_needed : Config → Config → Bool
gate_needed old new =
    not (str_eq old.backpressure new.backpressure)
    || not (same_ℤ old.admission_wait_timeout new.admission_wait_timeout)

-- The configuration after the look at the sessions: `busy` says that some are tracked.
unfoldable pub settle : Bool → Config → Config → Config
settle busy old new =
    if gate_needed old new && busy
    then record new {
      backpressure = old.backpressure;
      admission_wait_timeout = old.admission_wait_timeout;
    }
    else new

abbrev pub members_of : List (Upstream × State) → List Member
members_of = map (λ (p : Upstream × State). record { up = p.0; state = p.1 })

-- The last part: the pool first, and the rest only if that succeeds.
commit :
    {D : Type 0}
    → Bool
    → Config
    → D
    → List Member × Option Error
    → Engine D
    → Engine D × Option Error
commit fresh c d (members, some e) lb = (lb, some e)
commit fresh c d (members, none) lb = (
  record {
    cfg = c;
    dialer = d;
    members = members;
    kind = if fresh then kind_of c.backpressure else lb.kind;
    wait = if fresh then c.admission_wait_timeout else lb.wait;
    gate = if fresh then Gate.new (pos_part c.max_clients) else lb.gate;
  },
  none,
)

abbrev pub or_fail :
    {A D : Type 0} → Checked A → Engine D → (A → Engine D × Option Error) → Engine D × Option Error
or_fail (failed e) lb f = (lb, some e)
or_fail (ok a) lb f = f a

from_dialer :
    {D : Type 0} → Factory D → Bool → Config → List Member → Engine D → Engine D × Option Error
unfolding commit
from_dialer f busy c ups lb =
    let settled = settle busy lb.cfg c in
    or_fail (new_from_config f settled) lb
      (λ d. commit (gate_needed lb.cfg c && not busy) settled d (set_upstreams ups lb.members) lb)

from_valid :
    {D : Type 0}
    → Factory D
    → (String → ℕ → String)
    → (String → String)
    → Bool
    → Config
    → Engine D
    → Engine D × Option Error
unfolding from_dialer
from_valid f addr digest busy c lb =
    if is_empty c.upstreams
    then (lb, some (invalid "config contains no upstreams"))
    else or_fail (build_upstreams addr digest 0 c.upstreams) lb
        (λ us. from_dialer f busy (merge lb.cfg c) (members_of us) lb)

-- reloadFromConfig. `busy` is tracker.Count() ≠ 0.
unfoldable pub reload :
    {D : Type 0}
    → Env
    → Factory D
    → (String → ℕ → String)
    → (String → String)
    → Bool
    → Config
    → Engine D
    → Engine D × Option Error
unfolding from_valid
reload env f addr digest busy new lb =
    or_fail (validate env new) lb (λ c. from_valid f addr digest busy c lb)
