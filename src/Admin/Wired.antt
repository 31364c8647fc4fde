-- ===== src/Admin/Wired.antt =====
-- The admin server over the manager, as cmd/s5lb/main.go puts them together: every interface of the
-- server is the manager.
use s5lb.Base.{
  ℕ, ◌≡◌, ◌≢◌, refl, sym, ap, ◌∙◌, Bool, true, false, if◌then◌else◌, Bool-cases, inl, inr, String,
  str_eq, List, [], ◌∷◌, Option, none, some, map,
}
use s5lb.Config.Validate.{Checked, Error}
use s5lb.Config.Groups.{MultiConfig}
use s5lb.Balancer.Pool.{Member, any_healthy}
use s5lb.Balancer.Manager.{Entry, Manager, Tools}
use s5lb.Balancer.Manager.Removal.{reload_group, any_group_healthy, any_of, drain_groups}
use s5lb.Balancer.Manager.Removal
use s5lb.Balancer.Manager.Views.{
  World, GroupInfo, StateResponse, SessionItem, group_infos, group_info_by_name, state,
  active_sessions,
}
use s5lb.Balancer.Manager.Views.Secrets.{redacted, redacted_entry, redacted_member, redacted_lem}
use s5lb.Admin.{
  Options, Handler, Request, Reply, Lib, on_events, serve, handle, show, on_reload, on_group,
  get_one, reload_one, on_drain, drain_to, show_one, is_text, tail_of, write_json, route,
  authorized, patterns, error, fine,
}
use s5lb.Admin

pub data Json : Type 0 where
  infos : List GroupInfo → Json
  one : GroupInfo → Json
  current : StateResponse → Json
  active : List SessionItem → Json
  status_reloaded : Json
  draining : String → Bool → Json

-- A request's surroundings: the file as a reload would read it, and the clock.
pub record Setting (D : Type 0) : Type 0 where
  pub world : World
  pub tools : Tools D
  pub file : Checked MultiConfig
  pub error_text : Error → String
  pub version : String
  pub commit : String
  pub now : ℕ

abbrev text_of : (Error → String) → Option Error → Option String
text_of f none = none
text_of f (some e) = some (f e)

abbrev as_json : Option GroupInfo → Option Json
as_json none = none
as_json (some i) = some (one i)

-- The slice and the map of the manager hold the same entries.
unfoldable pub newest : {D : Type 0} → Entry D → List (Entry D) → Entry D
newest old [] = old
newest old (e ∷ es) = if str_eq e.name old.name then e else newest old es

unfoldable pub shared :
    {D : Type 0} → List (Entry D) → List (String × Entry D) → List (String × Entry D)
unfolding newest
shared groups [] = []
shared groups ((n, e) ∷ rest) = (n, newest e groups) ∷ shared groups rest

module _ {D : Type 0} (x : Setting D) where
  unfoldable pub admin_options : String → List String → Bool → Options (Manager D) Json
  unfolding shared
  admin_options token arguments enable_pprof = record {
    bearer_token = token;
    enable_pprof = enable_pprof;
    arguments = arguments;
    any_healthy = any_group_healthy;
    reloader =
        some (λ m.
          let (next, _, e) = Removal.reload x.tools x.file m in (next, text_of x.error_text e));
    group_infos = some (λ m. infos (group_infos x.world m));
    group_info_by_name = λ name m. as_json (group_info_by_name x.world name m);
    group_reloader = some (λ name m.
        let (next, e) = reload_group x.tools name x.file m in (next, text_of x.error_text e));
    state_provider = some (λ m. current (state x.world x.version x.commit x.now m));
    sessions_provider = some (λ m. active (active_sessions x.world x.now m));
    drain_controller = some (λ id on m.
        let (groups, found) = drain_groups id on m.groups in
        (record { groups = groups; by_name = shared groups m.by_name }, found));
  }

any_healthy-redacted : (ms : List Member) → any_healthy (map redacted_member ms) ≡ any_healthy ms
unfolding any_healthy
any_healthy-redacted [] = refl
any_healthy-redacted (m ∷ ms) =
    ap (λ b. if m.state.healthy then true else b) (any_healthy-redacted ms)

any_of-redacted : {D : Type 0} (es : List (Entry D)) → any_of (map redacted_entry es) ≡ any_of es
unfolding any_of redacted_entry
any_of-redacted [] = refl
any_of-redacted (e ∷ es) =
    ap (λ b. if b then true else any_of (map redacted_entry es)) (any_healthy-redacted e.lb.members)
    ∙ ap (λ b. if any_healthy e.lb.members then true else b) (any_of-redacted es)

module _ {D : Type 0} (x : Setting D) (lib : Lib Json) (token : String) (args args' : List String)
    (enable_pprof : Bool) where
  abbrev o : Options (Manager D) Json
  o = admin_options x token args enable_pprof

  -- The same server of a program that was started with other arguments.
  abbrev other : Options (Manager D) Json
  other = admin_options x token args' enable_pprof

  module _ (r : Request) (m : Manager D) (get : r.method ≡ "GET") where
    no_post : str_eq r.method "POST" ≡ false
    no_post = rw get refl

    abbrev Blind : Handler → Type 0
    Blind h = (handle lib o h r m).1 ≡ (handle lib other h r (redacted m)).1

    on_reload-Blind :
        (done : Reply Json) (f : Option (Manager D → Manager D × Option String))
        → (on_reload lib o done f r m).1 ≡ (on_reload lib other done f r (redacted m)).1
    unfolding on_reload
    on_reload-Blind done none = refl
    on_reload-Blind done (some f) = rw no_post refl

    show-Blind :
        (v : Manager D → Json)
        → v m ≡ v (redacted m)
        → (show lib o (some v) r m).1 ≡ (show lib other (some v) r (redacted m)).1
    unfolding show
    show-Blind v e = rw (get, e) refl

    infos-Blind : infos (group_infos x.world m) ≡ infos (group_infos x.world (redacted m))
    infos-Blind = ap infos (redacted_lem x.world m x.version x.commit "" x.now).0

    get_one-Blind :
        (name : String) → (get_one lib o name r m).1 ≡ (get_one lib other name r (redacted m)).1
    unfolding get_one admin_options
    get_one-Blind name = rw get (
        ap (λ i. show_one lib o (as_json i))
          (redacted_lem x.world m x.version x.commit name x.now).1)

    reload_one-Blind :
        (name : String) (f : Option (String → Manager D → Manager D × Option String))
        → (reload_one lib o name f r m).1 ≡ (reload_one lib other name f r (redacted m)).1
    unfolding reload_one
    reload_one-Blind name none = rw no_post refl
    reload_one-Blind name (some f) = rw no_post refl

    on_group-Blind :
        (p : String × Option String)
        → (on_group lib o p r m).1 ≡ (on_group lib other p r (redacted m)).1
    unfolding on_group admin_options
    on_group-Blind (name, rest) = elim (Bool-cases (str_eq name "")) [
      | inl h ↦ rw h refl
      | inr h ↦ elim (Bool-cases (is_text lib o "reload" rest)) [
        | inl h' ↦ rw (h, h') (reload_one-Blind name o.group_reloader)
        | inr h' ↦ rw (h, h') (get_one-Blind name)
      ]
    ]

    on_drain-Blind :
        (p : String × Option String) (f : Option (String → Bool → Manager D → Manager D × Bool))
        → (on_drain lib o p f r m).1 ≡ (on_drain lib other p f r (redacted m)).1
    unfolding on_drain
    on_drain-Blind (id, rest) none = refl
    on_drain-Blind (id, rest) (some f) = rw no_post refl

    handle-Blind : (h : Handler) → h ≢ Admin.pprof → Blind h
    unfolding handle on_events admin_options any_group_healthy redacted
    handle-Blind Admin.metrics no_profile = refl
    handle-Blind Admin.healthz no_profile = refl
    handle-Blind Admin.readyz no_profile =
        ap (λ b. if b then fine (Admin.plain "ready") else error 503 "no healthy upstream")
          (sym (any_of-redacted m.groups))
    handle-Blind Admin.version no_profile = refl
    handle-Blind Admin.pprof no_profile = absurd (no_profile refl)
    handle-Blind Admin.reload no_profile = on_reload-Blind _ o.reloader
    handle-Blind Admin.groups no_profile =
        show-Blind (λ n. infos (group_infos x.world n)) infos-Blind
    handle-Blind Admin.group_detail no_profile =
        on_group-Blind (tail_of lib o "/admin/api/groups/" r)
    handle-Blind Admin.state no_profile =
        show-Blind (λ n. current (state x.world x.version x.commit x.now n))
          (ap current (redacted_lem x.world m x.version x.commit "" x.now).2)
    handle-Blind Admin.events no_profile =
        ap
          (λ v.
            if r.flushes
            then fine (Admin.state_events (current v))
            else error 500 "streaming not supported")
          (redacted_lem x.world m x.version x.commit "" x.now).2
    handle-Blind Admin.config no_profile =
        show-Blind (λ n. infos (group_infos x.world n)) infos-Blind
    handle-Blind Admin.sessions no_profile =
        show-Blind (λ n. active (active_sessions x.world x.now n))
          (ap active (redacted_lem x.world m x.version x.commit "" x.now).3)
    handle-Blind Admin.api_reload no_profile = on_reload-Blind _ o.reloader
    handle-Blind Admin.drain no_profile =
        on_drain-Blind (tail_of lib o "/admin/api/upstreams/" r) o.drain_controller
    handle-Blind Admin.ui no_profile = refl

    route-Blind :
        (h : Option Handler)
        → h ≢ some Admin.pprof
        → (route lib o h r m).1 ≡ (route lib other h r (redacted m)).1
    unfolding route
    route-Blind none no_profile = refl
    route-Blind (some h) no_profile = handle-Blind h (λ e. no_profile (ap some e))

    -- The reply to a GET that the mux does not give to net/http/pprof is the same in a server over the
    -- manager with every secret blanked, which was started with any other arguments: it does not depend
    -- on what a password, a token of a transport, a header or a command says, nor on the arguments. A
    -- blanked secret is still seen to be set, and the server's own token is the same on both sides.
    pub serve-redacted :
        lib.mux (patterns lib o) r.path ≢ some Admin.pprof
        → (serve lib o r m).1 ≡ (serve lib other r (redacted m)).1
    unfolding serve patterns authorized admin_options
    serve-redacted no_profile = elim (Bool-cases (authorized lib o r)) [
      | inl h ↦ rw h (route-Blind (lib.mux (patterns lib o) r.path) no_profile)
      | inr h ↦ rw h refl
    ]
