-- ===== src/Admin.antt =====
-- internal/admin/server.go: the admin server, over the interfaces that it takes from the balancer. `S` is
-- the state behind these interfaces and `J` what they return for encoding as JSON. What net/http,
-- strings, strconv and the JSON encoder do is `Lib`. A reply is its status and its body.
pub mod Policy
pub mod Wired
mod Tests
use s5lb.Base.{
  ℕ, Bool, true, false, not, ◌&&◌, if◌then◌else◌, String, str_eq, List, [], ◌∷◌, ◌++◌, Option, none,
  some,
}
use s5lb.Config.Validate.{Checked, failed, ok, invalid}

-- `none` is a nil interface; `arguments` is os.Args, which net/http/pprof shows. An operation returns the new state and its error or result.
pub record Options (S : Type 0) (J : Type 0) : Type 0 where
  pub bearer_token : String
  pub enable_pprof : Bool
  pub arguments : List String
  pub any_healthy : S → Bool
  pub reloader : Option (S → S × Option String)
  pub group_infos : Option (S → J)
  pub group_info_by_name : String → S → Option J
  pub group_reloader : Option (String → S → S × Option String)
  pub state_provider : Option (S → J)
  pub sessions_provider : Option (S → J)
  pub drain_controller : Option (String → Bool → S → S × Bool)

pub data Handler : Type 0 where
  metrics healthz readyz version pprof reload groups group_detail : Handler
  state events config sessions api_reload drain ui : Handler

pub record Request : Type 0 where
  pub method : String
  pub path : String
  pub authorization : String
  pub enabled : String
  pub flushes : Bool

-- The body is a text, a JSON value, a stream of states that starts with this one, or what another package writes.
pub data Body (J : Type 0) : Type 0 where
  plain : String → Body J
  json : J → Body J
  state_events : J → Body J
  foreign : Handler → Body J

pub record Reply (J : Type 0) : Type 0 where
  pub status : ℕ
  pub body : Body J

-- `mux` is the choice of http.ServeMux among the registered patterns, `split` what SplitN(_, "/", 2)
-- makes of a text, `profiled` what net/http/pprof writes for a path, `reloaded` and `drained` the maps that two handlers encode, and `unrouted` what the
-- mux answers itself. `none` is an address or an IP that does not parse.
pub record Lib (J : Type 0) : Type 0 where
  pub mux : List (String × Handler) → String → Option Handler
  pub trim_prefix : String → String → String
  pub split : String → String × Option String
  pub parse_bool : String → Option Bool
  pub encodes : J → Bool
  pub append : String → String → String
  pub unrouted : String → Reply J
  pub split_host_port : String → Option (String × String)
  pub ip_is_loopback : String → Option Bool
  pub listens : String → Bool
  pub profiled : List String → String → Reply J
  pub reloaded : J
  pub drained : String → Bool → J

module _ {J : Type 0} where
  abbrev pub error : ℕ → String → Reply J
  error status text = record { status = status; body = plain text }

  abbrev pub fine : Body J → Reply J
  fine body = record { status = 200; body = body }

abbrev pub with : {A : Type 0} → Option A → List (String × Handler) → List (String × Handler)
with none hs = []
with (some a) hs = hs

module _ {S J : Type 0} (lib : Lib J) (o : Options S J) where
  -- The patterns that New registers.
  unfoldable pub patterns : List (String × Handler)
  patterns =
      ("/metrics", metrics)
        ∷ ("/healthz", healthz)
        ∷ ("/readyz", readyz)
        ∷ ("/version", version)
        ∷ (if o.enable_pprof
            then ("/debug/pprof/", pprof)
              ∷ ("/debug/pprof/cmdline", pprof)
              ∷ ("/debug/pprof/profile", pprof)
              ∷ ("/debug/pprof/symbol", pprof)
              ∷ ("/debug/pprof/trace", pprof)
              ∷ []
            else [])
      ++ with o.reloader (("/admin/reload", reload) ∷ [])
      ++ with o.group_infos
          (("/admin/api/groups", groups) ∷ ("/admin/api/groups/", group_detail) ∷ [])
      ++ with o.state_provider (("/admin/api/state", state) ∷ ("/admin/api/events", events) ∷ [])
      ++ with o.group_infos (("/admin/api/config", config) ∷ [])
      ++ with o.sessions_provider (("/admin/api/sessions", sessions) ∷ [])
      ++ with o.reloader (("/admin/api/reload", api_reload) ∷ [])
      ++ with o.drain_controller (("/admin/api/upstreams/", drain) ∷ [])
      ++ ("/admin/ui", ui) ∷ ("/admin/ui/", ui) ∷ []

  unfoldable pub write_json : J → Reply J
  write_json v = if lib.encodes v then fine (json v) else error 500 "encode"

  -- A handler that shows one value, for GET.
  unfoldable pub show : Option (S → J) → Request → S → S × Reply J
  unfolding write_json
  show none r s = (s, error 404 "404 page not found")
  show (some view) r s =
      if str_eq r.method "GET" then (s, write_json (view s)) else (s, error 405 "GET required")

  unfoldable pub after : Reply J → S × Option String → S × Reply J
  after done (s, none) = (s, done)
  after done (s, some e) = (s, error 500 e)

  -- Both handlers of a reload, for POST.
  unfoldable pub on_reload : Reply J → Option (S → S × Option String) → Request → S → S × Reply J
  unfolding after
  on_reload done none r s = (s, error 404 "404 page not found")
  on_reload done (some f) r s =
      if str_eq r.method "POST" then after done (f s) else (s, error 405 "POST required")

  unfoldable pub reload_one :
      String → Option (String → S → S × Option String) → Request → S → S × Reply J
  unfolding after
  reload_one name none r s =
      if str_eq r.method "POST"
      then (s, error 501 "reload not configured")
      else (s, error 405 "POST required")
  reload_one name (some f) r s =
      if str_eq r.method "POST"
      then after (fine (plain "{\"status\":\"reloaded\"}")) (f name s)
      else (s, error 405 "POST required")

  unfoldable pub show_one : Option J → Reply J
  unfolding write_json
  show_one none = error 404 "group not found"
  show_one (some v) = write_json v

  unfoldable pub get_one : String → Request → S → S × Reply J
  unfolding show_one
  get_one name r s =
      if str_eq r.method "GET"
      then (s, show_one (o.group_info_by_name name s))
      else (s, error 405 "GET required")

  unfoldable pub is_text : String → Option String → Bool
  is_text t none = false
  is_text t (some x) = str_eq x t

  -- The handler of "/admin/api/groups/".
  unfoldable pub on_group : String × Option String → Request → S → S × Reply J
  unfolding reload_one get_one is_text
  on_group (name, rest) r s =
      if str_eq name ""
      then (s, error 400 "group name required")
      else if is_text "reload" rest
      then reload_one name o.group_reloader r s
      else get_one name r s

  unfoldable pub after_drain : String → Bool → S × Bool → S × Reply J
  unfolding write_json
  after_drain id on (s, found) =
      (s, if found then write_json (lib.drained id on) else error 404 "upstream not found")

  unfoldable pub drain_to : String → (String → Bool → S → S × Bool) → Option Bool → S → S × Reply J
  unfolding after_drain
  drain_to id f none s = (s, error 400 "enabled must be true or false")
  drain_to id f (some on) s = after_drain id on (f id on s)

  -- The handler of "/admin/api/upstreams/".
  unfoldable pub on_drain :
      String × Option String → Option (String → Bool → S → S × Bool) → Request → S → S × Reply J
  unfolding drain_to is_text
  on_drain (id, rest) none r s = (s, error 404 "404 page not found")
  on_drain (id, rest) (some f) r s =
      if not (str_eq r.method "POST")
      then (s, error 405 "POST required")
      else if not (is_text "drain" rest)
      then (s, error 404 "404 page not found")
      else if str_eq id ""
      then (s, error 400 "upstream id required")
      else drain_to id f (lib.parse_bool r.enabled) s

  unfoldable pub on_events : Option (S → J) → Request → S → Reply J
  on_events none r s = error 404 "404 page not found"
  on_events (some view) r s =
      if r.flushes then fine (state_events (view s)) else error 500 "streaming not supported"

  abbrev pub tail_of : String → Request → String × Option String
  tail_of prefix r = lib.split (lib.trim_prefix r.path prefix)

  unfoldable pub handle : Handler → Request → S → S × Reply J
  unfolding show on_reload on_group on_events on_drain
  handle metrics r s = (s, fine (foreign metrics))
  handle healthz r s = (s, fine (plain "ok"))
  handle readyz r s =
      (s, if o.any_healthy s then fine (plain "ready") else error 503 "no healthy upstream")
  handle version r s = (s, fine (foreign version))
  handle pprof r s = (s, lib.profiled o.arguments r.path)
  handle reload r s = on_reload (fine (plain "reloaded")) o.reloader r s
  handle groups r s = show o.group_infos r s
  handle group_detail r s = on_group (tail_of "/admin/api/groups/" r) r s
  handle state r s = show o.state_provider r s
  handle events r s = (s, on_events o.state_provider r s)
  handle config r s = show o.group_infos r s
  handle sessions r s = show o.sessions_provider r s
  handle api_reload r s = on_reload (write_json lib.reloaded) o.reloader r s
  handle drain r s = on_drain (tail_of "/admin/api/upstreams/" r) o.drain_controller r s
  handle ui r s = (s, fine (foreign ui))

  unfoldable pub route : Option Handler → Request → S → S × Reply J
  unfolding handle
  route none r s = (s, lib.unrouted r.path)
  route (some h) r s = handle h r s

  -- bearerAuth, where there is a token.
  unfoldable pub authorized : Request → Bool
  authorized r =
      if str_eq o.bearer_token ""
      then true
      else str_eq r.authorization (lib.append "Bearer " o.bearer_token)

  unfoldable pub serve : Request → S → S × Reply J
  unfolding route patterns authorized
  serve r s =
      let answer = route (lib.mux patterns r.path) r s in
      if authorized r then answer else (s, error 401 "unauthorized")

  loopback_host : Option (String × String) → Bool
  loopback_host none = false
  loopback_host (some (host, port)) = elim (lib.ip_is_loopback host) [ none ↦ false | some b ↦ b ]

  unfoldable pub is_loopback_listen_addr : String → Bool
  unfolding loopback_host
  is_loopback_listen_addr addr = loopback_host (lib.split_host_port addr)

  -- New, up to the listener: whether a server starts on the address.
  unfoldable pub new : String → Checked (Request → S → S × Reply J)
  unfolding serve is_loopback_listen_addr
  new addr =
      if str_eq o.bearer_token "" && not (is_loopback_listen_addr addr)
      then failed (invalid "admin bearer token is required for non-loopback addr")
      else if lib.listens addr
      then ok serve
      else failed (invalid "admin listen")
