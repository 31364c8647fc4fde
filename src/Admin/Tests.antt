-- ===== src/Admin/Tests.antt =====
-- An admin server over a manager with one group, whose upstream has a password.
use s5lb.Base.{◌≢◌, sym, ◌∙◌, List, ◌≡◌, refl, true, false, String, [], ◌∷◌, some, pos, lookup}
use s5lb.Config.Types.{Config, defaults}
use s5lb.Config.Validate.{ok}
use s5lb.Upstream.{new_state}
use s5lb.Admission.Gate
use s5lb.Admission.Gate.{rejects}
use s5lb.Strategy.Registry.{least_active}
use s5lb.Balancer.Pool.{find, drain_upstream}
use s5lb.Balancer.Manager.Removal.{drain_groups}
use s5lb.Balancer.Manager.{Entry, Manager}
use s5lb.Balancer.Manager.Views.{World}
use s5lb.Balancer.Manager.Views.Secrets.{redacted}
use s5lb.Admin
use s5lb.Admin.{plain, patterns, Request, Lib, json, serve, error}
use s5lb.Admin.Policy.{Served, serve-Served}
use s5lb.Admin.Wired.{Json, status_reloaded, draining, Setting, admin_options, serve-redacted}

abbrev plain_world : World
plain_world = record {
  duration = λ d. "d";
  rfc3339 = λ n. "now";
  rfc3339_nano = λ n. "now";
  times_1000 = λ n. n;
  float = λ n. n;
  addr = λ h p. h;
  tracked = λ g. [];
}

abbrev setting : Setting String
setting = record {
  world = plain_world;
  tools = record {
    env = record { is_ip = λ s. true; splits = λ s. true; normal = λ s. s; in_unit = λ b. true };
    factory = record { tcp = λ t. "tcp"; raw_wss = λ k. ok "wss"; exec = λ k. ok "exec" };
    addr = λ h p. h;
    digest = λ s. s;
    normal = λ s. s;
    registers = λ s. true;
    busy = λ s. false;
  };
  file = ok (record { config = defaults 0; groups = [] });
  error_text = λ e. "error";
  version = "v";
  commit = "c";
  now = 7;
}

abbrev with_password : Config
with_password = record (defaults 0) {
  upstreams =
      record {
        id = "a";
        host = "a";
        port = pos 1;
        username = "u";
        password = "secret";
        weight = pos 1;
        priority = pos 0;
      }
      ∷ [];
  group_name = "default";
}

abbrev entry : Entry String
unfolding new_state
entry = record {
  name = "default";
  lb = record {
    cfg = with_password;
    dialer = "tcp";
    members =
        record {
          up = record {
            id = "a";
            host = "a";
            port = 1;
            username = "u";
            password = "secret";
            weight = pos 1;
            priority = pos 0;
          };
          state = new_state;
        }
        ∷ [];
    kind = rejects;
    wait = pos 0;
    gate = Gate.new 2;
  };
  selector = least_active;
  retired = false;
}

abbrev manager : Manager String
manager = record { groups = entry ∷ []; by_name = ("default", entry) ∷ [] }

-- Exact paths only.
abbrev lib : Lib Json
lib = record {
  mux = λ ps path. lookup path ps;
  trim_prefix = λ t p. t;
  split = λ t. ("a", some "drain");
  parse_bool = λ t. some true;
  encodes = λ j. true;
  append = λ a b. b;
  unrouted = λ p. error 404 "404 page not found";
  split_host_port = λ a. some (a, "1");
  ip_is_loopback = λ a. some true;
  listens = λ a. true;
  profiled = λ args p. record { status = 200; body = plain p };
  reloaded = status_reloaded;
  drained = draining;
}

abbrev arguments : List String
arguments = "s5lb" ∷ "-upstream" ∷ "u:secret@a:1" ∷ []

abbrev drain_request : Request
drain_request = record {
  method = "POST";
  path = "/admin/api/upstreams/";
  authorization = "t";
  enabled = "true";
  flushes = false;
}

abbrev groups_request : Request
groups_request = record drain_request { method = "GET"; path = "/admin/api/groups" }

is_drained :
    (serve lib (admin_options setting "t" arguments false) drain_request manager).1
    ≡ record { status = 200; body = json (draining "a" true) }
unfolding serve admin_options lookup drain_groups drain_upstream find entry
is_drained = refl

serve-Served_example :
    Served lib
      (admin_options setting "t" arguments false)
      drain_request
      manager
      (serve lib (admin_options setting "t" arguments false) drain_request manager)
serve-Served_example =
    serve-Served lib (admin_options setting "t" arguments false) drain_request manager

apart : some Admin.groups ≢ some Admin.pprof
apart e = absurd (cc)

routed :
    lib.mux (patterns lib (admin_options setting "t" arguments true)) "/admin/api/groups"
    ≡ some Admin.groups
unfolding patterns admin_options lookup
routed = refl

serve-redacted_example :
    (serve lib (admin_options setting "t" arguments true) groups_request manager).1
    ≡ (serve lib (admin_options setting "t" [] true) groups_request (redacted manager)).1
serve-redacted_example =
    serve-redacted setting lib "t" arguments [] true groups_request manager refl
      (λ e. apart (sym routed ∙ e))
