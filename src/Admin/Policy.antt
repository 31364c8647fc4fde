-- ===== src/Admin/Policy.antt =====
-- What a request to the admin server may do, stated without the handlers, and that server.go keeps to it.
use s5lb.Base.{
  ◌≡◌, refl, ◌≢◌, ◌⊎◌, Bool, true, false, not, ◌&&◌, if-elim, String, str_eq, eq_iff, Option, none,
  some, arith,
}
use s5lb.Config.Validate.{Checked, ok}
use s5lb.Admin.{
  Options, Handler, metrics, healthz, readyz, version, pprof, reload, groups, group_detail, state,
  events, config, sessions, api_reload, drain, ui, Request, Reply, Lib, error, show, after,
  on_reload, reload_one, get_one, is_text, on_group, after_drain, drain_to, on_drain, tail_of,
  handle, route, authorized, serve, new, patterns, is_loopback_listen_addr,
}

module _ {S J : Type 0} (lib : Lib J) (o : Options S J) (r : Request) (s : S) where
  -- The state behind the interfaces and the reply. A request without the token is refused; else it
  -- leaves the state as it is, or it is a POST that reloads, reloads a group, or drains an upstream.
  pub data Served : S × Reply J → Type 0 where
    denied : authorized lib o r ≡ false → Served (s, error 401 "unauthorized")
    viewed : authorized lib o r ≡ true → (reply : Reply J) → Served (s, reply)
    reloaded :
        authorized lib o r ≡ true
        → r.method ≡ "POST"
        → (f : S → S × Option String) → o.reloader ≡ some f
        → (done : Reply J) → Served (after lib o done (f s))
    group_reloaded :
        authorized lib o r ≡ true
        → r.method ≡ "POST"
        → (f : String → S → S × Option String) (name : String) → o.group_reloader ≡ some f
        → name ≢ ""
        → (done : Reply J) → Served (after lib o done (f name s))
    drained :
        authorized lib o r ≡ true
        → r.method ≡ "POST"
        → (f : String → Bool → S → S × Bool) (id : String) (on : Bool) → o.drain_controller ≡ some f
        → id ≢ ""
        → lib.parse_bool r.enabled ≡ some on
        → Served (after_drain lib o id on (f id on s))

  module _ (a : authorized lib o r ≡ true) where
    show-Served : (v : Option (S → J)) → Served (show lib o v r s)
    unfolding show
    show-Served none = viewed a _
    show-Served (some view) =
        if-elim Served (str_eq r.method "GET") _ _ (λ h. viewed a _) (λ h. viewed a _)

    is_post : str_eq r.method "POST" ≡ true → r.method ≡ "POST"
    is_post h = ground (arith, h, eq_iff r.method "POST")

    on_reload-Served :
        (done : Reply J) (f : Option (S → S × Option String))
        → o.reloader ≡ f
        → Served (on_reload lib o done f r s)
    unfolding on_reload
    on_reload-Served done none e = viewed a _
    on_reload-Served done (some f) e =
        if-elim Served (str_eq r.method "POST") _ _ (λ h. reloaded a (is_post h) f e done)
          (λ h. viewed a _)

    reload_one-Served :
        (name : String) (f : Option (String → S → S × Option String))
        → name ≢ ""
        → o.group_reloader ≡ f
        → Served (reload_one lib o name f r s)
    unfolding reload_one
    reload_one-Served name none n e =
        if-elim Served (str_eq r.method "POST") _ _ (λ h. viewed a _) (λ h. viewed a _)
    reload_one-Served name (some f) n e =
        if-elim Served (str_eq r.method "POST") _ _ (λ h. group_reloaded a (is_post h) f name e n _)
          (λ h. viewed a _)

    on_group-Served : (p : String × Option String) → Served (on_group lib o p r s)
    unfolding on_group get_one
    on_group-Served (name, rest) =
        if-elim Served (str_eq name "") _ _ (λ h. viewed a _)
          (λ h.
            if-elim Served (is_text lib o "reload" rest) _ _
              (λ h'.
                reload_one-Served name o.group_reloader (λ e. ground (arith, h, e, eq_iff name ""))
                  refl)
              (λ h'.
                if-elim Served (str_eq r.method "GET") _ _ (λ g. viewed a _) (λ g. viewed a _)))

    drain_to-Served :
        (id : String) (f : String → Bool → S → S × Bool) (on : Option Bool)
        → r.method ≡ "POST"
        → id ≢ ""
        → o.drain_controller ≡ some f
        → lib.parse_bool r.enabled ≡ on
        → Served (drain_to lib o id f on s)
    unfolding drain_to
    drain_to-Served id f none post n e h = viewed a _
    drain_to-Served id f (some on) post n e h = drained a post f id on e n h

    on_drain-Served :
        (p : String × Option String) (f : Option (String → Bool → S → S × Bool))
        → o.drain_controller ≡ f
        → Served (on_drain lib o p f r s)
    unfolding on_drain
    on_drain-Served (id, rest) none e = viewed a _
    on_drain-Served (id, rest) (some f) e =
        if-elim Served (not (str_eq r.method "POST")) _ _ (λ h. viewed a _)
          (λ h.
            if-elim Served (not (is_text lib o "drain" rest)) _ _ (λ h'. viewed a _)
              (λ h'.
                if-elim Served (str_eq id "") _ _ (λ i. viewed a _)
                  (λ i.
                    drain_to-Served id f (lib.parse_bool r.enabled)
                      (ground (arith, h, eq_iff r.method "POST"))
                      (λ e'. ground (arith, i, e', eq_iff id "")) e refl)))

    handle-Served : (h : Handler) → Served (handle lib o h r s)
    unfolding handle
    handle-Served metrics = viewed a _
    handle-Served healthz = viewed a _
    handle-Served readyz = viewed a _
    handle-Served version = viewed a _
    handle-Served pprof = viewed a _
    handle-Served reload = on_reload-Served _ o.reloader refl
    handle-Served groups = show-Served o.group_infos
    handle-Served group_detail = on_group-Served (tail_of lib o "/admin/api/groups/" r)
    handle-Served state = show-Served o.state_provider
    handle-Served events = viewed a _
    handle-Served config = show-Served o.group_infos
    handle-Served sessions = show-Served o.sessions_provider
    handle-Served api_reload = on_reload-Served _ o.reloader refl
    handle-Served drain =
        on_drain-Served (tail_of lib o "/admin/api/upstreams/" r) o.drain_controller refl
    handle-Served ui = viewed a _

    route-Served : (h : Option Handler) → Served (route lib o h r s)
    unfolding route
    route-Served none = viewed a _
    route-Served (some h) = handle-Served h

-- Whatever a request and the mux's choice: without the right token it is refused and changes nothing,
-- and with it the state only changes by a POST, through one call of a reload, of a group's reload or
-- of a drain, whose failure the reply tells.
pub serve-Served :
    {S J : Type 0} (lib : Lib J) (o : Options S J) (r : Request) (s : S)
    → Served lib o r s (serve lib o r s)
unfolding serve
serve-Served lib o r s =
    if-elim (Served lib o r s) (authorized lib o r) _ _
      (λ h. route-Served lib o r s h (lib.mux (patterns lib o) r.path)) (λ h. denied h)

-- A server that starts asks for a token, or listens on a loopback address only.
pub new_lem :
    {S J : Type 0} (lib : Lib J) (o : Options S J) (addr : String) (f : Request → S → S × Reply J)
    → new lib o addr ≡ ok f
    → (o.bearer_token ≢ "") ⊎ (is_loopback_listen_addr lib o addr ≡ true)
unfolding new
new_lem {S} {J} lib o addr f =
    if-elim
      (λ (c : Checked (Request → S → S × Reply J)).
        c ≡ ok f → (o.bearer_token ≢ "") ⊎ (is_loopback_listen_addr lib o addr ≡ true))
      (str_eq o.bearer_token "" && not (is_loopback_listen_addr lib o addr)) _ _
      (λ h e. absurd (cc)) (λ h e. ground (arith, h, eq_iff o.bearer_token ""))
