-- ===== src/Balancer/Manager/Views/Secrets.antt =====
-- The views of manager.go are free of secrets: they can be computed from a configuration in which
-- every secret is blanked.
use s5lb.Base.{
  ℕ, ◌+◌, ◌≡◌, refl, ap, ◌∙◌, sym, Bool, true, false, not, ◌||◌, Bool-cases, inl, inr, String,
  str_eq, List, [], ◌∷◌, ◌++◌, some, map, lookup, ℤ,
}
use s5lb.Config.Types.{Config, UpstreamSpec, Kubernetes}
use s5lb.Config.Validate.{is_empty}
use s5lb.Upstream.{snapshot}
use s5lb.Balancer.Pool.{Member, current_pool}
use s5lb.Balancer.Manager.{Entry, Manager}
use s5lb.Balancer.Manager.Public.{given, public_upstream, public_transport, public_config}
use s5lb.Balancer.Manager.Views.{
  World, GroupStateItem, count, upstream_state, session_item, shown, pool_of, info, group_infos,
  group_info_by_name, group_state, each_state, state, active_sessions, sessions_of,
}

-- A text that is as empty as the secret, and nothing else of it.
abbrev pub mask : Bool → String
mask true = "***"
mask false = ""

abbrev pub redacted_headers : List (String × String) → List (String × String)
redacted_headers [] = []
redacted_headers (h ∷ hs) = ("", "") ∷ []

unfoldable pub redacted_kubernetes : Kubernetes → Kubernetes
redacted_kubernetes k = record k {
  kubeconfig = "";
  context = "";
  command = [];
  wss_url = "";
  bearer_token = mask (given k.bearer_token || given k.bearer_token_file);
  bearer_token_file = "";
  ca_file = "";
  server_name = "";
  headers = redacted_headers k.headers;
}

unfoldable pub redacted_spec : UpstreamSpec → UpstreamSpec
redacted_spec u = record u { username = mask (given u.username || given u.password); password = "" }

-- The admin token, the headers of the tracer, and the secrets of the transport and of the upstreams.
unfoldable pub redacted_config : Config → Config
unfolding redacted_kubernetes redacted_spec
redacted_config c = record c {
  admin_token = "";
  otel = record c.otel { headers = [] };
  transport = record c.transport { kubernetes = redacted_kubernetes c.transport.kubernetes };
  upstreams = map redacted_spec c.upstreams;
}

abbrev pub redacted_member : Member → Member
redacted_member m = record m { up = record m.up { username = ""; password = "" } }

unfoldable pub redacted_entry : {D : Type 0} → Entry D → Entry D
unfolding redacted_config
redacted_entry e = record e {
  lb = record e.lb { cfg = redacted_config e.lb.cfg; members = map redacted_member e.lb.members };
}

abbrev pub redacted_keys : {D : Type 0} → List (String × Entry D) → List (String × Entry D)
redacted_keys [] = []
redacted_keys ((n, e) ∷ rest) = (n, redacted_entry e) ∷ redacted_keys rest

unfoldable pub redacted : {D : Type 0} → Manager D → Manager D
unfolding redacted_entry
redacted m = record { groups = map redacted_entry m.groups; by_name = redacted_keys m.by_name }

map-same :
    {A B : Type 0} (f : A → B) (g : A → A)
    → ((x : A) → f (g x) ≡ f x)
    → (xs : List A) → map f (map g xs) ≡ map f xs
map-same f g h [] = refl
map-same f g h (x ∷ xs) =
    ap (λ y. y ∷ map f (map g xs)) (h x) ∙ ap (λ ys. f x ∷ ys) (map-same f g h xs)

given-mask : (b : Bool) → given (mask b) ≡ b
given-mask true = refl
given-mask false = refl

public_upstream-redacted :
    (u : UpstreamSpec) → public_upstream (redacted_spec u) ≡ public_upstream u
unfolding public_upstream redacted_spec
public_upstream-redacted u = elim (Bool-cases (given u.username || given u.password)) [
  | inl h ↦ rw h refl
  | inr h ↦ rw h refl
]

public_transport-redacted :
    (kind : String) (k : Kubernetes)
    → public_transport kind (redacted_kubernetes k) ≡ public_transport kind k
unfolding public_transport redacted_kubernetes
public_transport-redacted kind k =
    ap
      (λ b. record (public_transport kind k) {
        has_headers = not (is_empty (redacted_headers k.headers));
        has_token = b;
      })
      (token (given k.bearer_token || given k.bearer_token_file))
    ∙ ap (λ b. record (public_transport kind k) { has_headers = not b }) (headers k.headers)
  where
    token : (b : Bool) → (given (mask b) || given "") ≡ b
    token true = refl
    token false = refl

    headers : (hs : List (String × String)) → is_empty (redacted_headers hs) ≡ is_empty hs
    headers [] = refl
    headers (h ∷ hs) = refl

public_config-redacted :
    (duration : ℤ → String) (c : Config)
    → public_config duration (redacted_config c) ≡ public_config duration c
unfolding public_config redacted_config
public_config-redacted duration c =
    ap
      (λ t. record (public_config duration c) {
        transport = t;
        upstreams = map public_upstream (map redacted_spec c.upstreams);
      })
      (public_transport-redacted c.transport.kind c.transport.kubernetes)
    ∙ ap (λ us. record (public_config duration c) { upstreams = us })
        (map-same public_upstream redacted_spec public_upstream-redacted c.upstreams)

module _ {D : Type 0} (w : World) where
  pool_of-redacted : (e : Entry D) → pool_of w (redacted_entry e) ≡ pool_of w e
  unfolding pool_of redacted_entry current_pool snapshot
  pool_of-redacted e = map-same _ redacted_member (λ m. refl) e.lb.members

  info-redacted : (e : Entry D) → info w (redacted_entry e) ≡ info w e
  unfolding info redacted_entry redacted_config
  info-redacted e =
      ap (λ c. record (info w e) { config = c; upstream = pool_of w (redacted_entry e) })
        (public_config-redacted w.duration e.lb.cfg)
      ∙ ap (λ p. record (info w e) { upstream = p }) (pool_of-redacted e)

  group_state-redacted : (e : Entry D) → group_state w (redacted_entry e) ≡ group_state w e
  unfolding group_state redacted_entry redacted_config
  group_state-redacted e =
      ap (λ p. record (group_state w e) { upstreams = map (upstream_state w) p })
        (pool_of-redacted e)

  each_state-redacted :
      (total : ℕ) (es : List (Entry D))
      → each_state w total (map redacted_entry es) ≡ each_state w total es
  unfolding each_state redacted_entry
  each_state-redacted total [] = refl
  each_state-redacted total (e ∷ es) =
      ap (λ (r : ℕ × List GroupStateItem). (r.0, group_state w (redacted_entry e) ∷ r.1))
        (each_state-redacted (total + count (w.tracked e.name)) es)
      ∙ ap
          (λ s. (
            (each_state w (total + count (w.tracked e.name)) es).0,
            s ∷ (each_state w (total + count (w.tracked e.name)) es).1,
          ))
          (group_state-redacted e)

  sessions_of-redacted :
      (es : List (Entry D)) → sessions_of w (map redacted_entry es) ≡ sessions_of w es
  unfolding sessions_of redacted_entry
  sessions_of-redacted [] = refl
  sessions_of-redacted (e ∷ es) = ap (λ ss. w.tracked e.name ++ ss) (sessions_of-redacted es)

  lookup-redacted :
      (name : String) (kept : List (String × Entry D))
      → shown w (lookup name (redacted_keys kept)) ≡ shown w (lookup name kept)
  unfolding shown lookup
  lookup-redacted name [] = refl
  lookup-redacted name ((n, e) ∷ rest) = elim (Bool-cases (str_eq n name)) [
    | inl h ↦ rw h (ap some (info-redacted e))
    | inr h ↦ rw h (lookup-redacted name rest)
  ]

  -- What the admin server shows can be computed from the manager with every secret blanked: of the
  -- passwords and user names of upstreams, the tokens, the headers, the command, and the paths of key
  -- material it shows at most that some are set.
  pub redacted_lem :
      (m : Manager D) (version commit name : String) (now : ℕ)
      → (group_infos w m ≡ group_infos w (redacted m))
        × (group_info_by_name w name m ≡ group_info_by_name w name (redacted m))
        × (state w version commit now m ≡ state w version commit now (redacted m))
        × (active_sessions w now m ≡ active_sessions w now (redacted m))
  unfolding redacted group_infos state active_sessions group_info_by_name
  redacted_lem m version commit name now = (
    sym (map-same (info w) redacted_entry info-redacted m.groups),
    sym (lookup-redacted name m.by_name),
    ap
        (λ (r : ℕ × List GroupStateItem). record {
          version = version;
          commit = commit;
          now = w.rfc3339 now;
          session_count = r.0;
          groups = r.1;
        })
        (sym (each_state-redacted 0 m.groups)),
    ap (map (session_item w now)) (sym (sessions_of-redacted m.groups)),
  )
