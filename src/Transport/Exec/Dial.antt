-- ===== src/Transport/Exec/Dial.antt =====
-- The dialer of internal/transport/wsexec.go: the URL, the headers and the TLS settings of the exec request.
-- `Net` is net/url, os, crypto/x509, strings and the WebSocket library; a header's name goes through
-- `canonical`, as http.Header does it.
use s5lb.Base.{
  ℕ, ◌*◌, Bool, ◌&&◌, ◌||◌, not, if◌then◌else◌, String, str_eq, List, [], ◌∷◌, Option, none, some,
  lookup, put, lookup-put_other, ◌≡◌, ◌≢◌, refl, if-elim, eq_iff, arith,
}
use s5lb.Socks5.Wire.{Bytes}
use s5lb.Config.Types.{Kubernetes}
use s5lb.Config.Validate.{Checked, failed, ok, invalid, then_with, is_empty}
use s5lb.Transport.Command.{Text, is_tcp, split_address, expand_command}

pub record Url : Type 0 where
  pub scheme : String
  pub host : String
  pub query : List (String × List String)
  pub rest : String

-- What tlsConfig sets; the least version is TLS 1.2.
pub record Tls (P : Type 0) : Type 0 where
  pub insecure : Bool
  pub server_name : String
  pub roots : Option P

-- `certs` is the pool of a PEM text, if it has a certificate.
pub record Net (P : Type 0) (W : Type 0) : Type 0 where
  pub parse : String → Option Url
  pub escape : String → String
  pub read_file : String → Option String
  pub certs : String → Option P
  pub trim : String → String
  pub append : String → String → String
  pub canonical : String → String
  pub dial : Tls P → Url → List (String × String) → Option W
  pub subprotocol : W → String

abbrev pub is_ws : Url → Bool
is_ws u = str_eq u.scheme "wss" || str_eq u.scheme "ws"

pub record Dialer : Type 0 where
  pub url_template : String
  pub command : List String
  pub bearer_token : String
  pub bearer_token_file : String
  pub ca_file : String
  pub insecure : Bool
  pub server_name : String
  pub headers : List (String × String)
  pub stderr_limit : ℕ

module _ {P W : Type 0} (n : Net P W) where
  unfoldable pub from_url : Kubernetes → Option Url → Checked Dialer
  from_url k none = failed (invalid "parse raw WSS exec URL")
  from_url k (some u) =
      if not (is_ws u)
      then failed (invalid "raw exec URL must use ws or wss scheme")
      else if str_eq u.host ""
      then failed (invalid "raw exec URL host is required")
      else ok (record {
        url_template = k.wss_url;
        command = k.command;
        bearer_token = k.bearer_token;
        bearer_token_file = k.bearer_token_file;
        ca_file = k.ca_file;
        insecure = k.insecure_skip_tls_verify;
        server_name = k.server_name;
        headers = k.headers;
        stderr_limit = 32 * 1024;
      })

  unfoldable pub new_dialer : Kubernetes → Checked Dialer
  unfolding from_url
  new_dialer k =
      if str_eq k.wss_url ""
      then failed (invalid "raw WSS exec URL is required")
      else from_url k (n.parse k.wss_url)

  -- The query of the request; the arguments of a configured command replace those of the URL.
  unfoldable pub exec_query :
      List String → List (String × List String) → List (String × List String)
  unfolding put
  exec_query command q =
      let std =
        put "tty" ("false" ∷ [])
          (put "stderr" ("true" ∷ []) (put "stdout" ("true" ∷ []) (put "stdin" ("true" ∷ []) q))) in
      if is_empty command then std else put "command" command std

  unfoldable pub exec_url : List String → Option Url → Checked Url
  unfolding exec_query
  exec_url command none = failed (invalid "parse expanded raw WSS exec URL")
  exec_url command (some u) =
      if is_ws u
      then ok (record u { query = exec_query command u.query })
      else failed (invalid "raw exec URL must use ws or wss scheme")

  unfoldable pub build_exec_url :
      Text → Dialer → (host port address : String) → List String → Checked Url
  unfolding exec_url
  build_exec_url t d host port address command =
      let with_host = t.replace_all d.url_template "{{host}}" (n.escape host) in
      let with_port = t.replace_all with_host "{{port}}" (n.escape port) in
      exec_url command (n.parse (t.replace_all with_port "{{address}}" (n.escape address)))

  unfoldable pub set_all : List (String × String) → List (String × String) → List (String × String)
  unfolding put
  set_all [] h = h
  set_all ((k, v) ∷ hs) h = set_all hs (put (n.canonical k) v h)

  text_of : String → Option String → Checked String
  text_of path none = failed (invalid "read bearer token file")
  text_of path (some raw) = ok (n.trim raw)

  -- The token of the configuration, or that of the file.
  unfoldable pub token_of : Dialer → Checked String
  unfolding text_of
  token_of d =
      let token = n.trim d.bearer_token in
      if str_eq token "" && not (str_eq d.bearer_token_file "")
      then text_of d.bearer_token_file (n.read_file d.bearer_token_file)
      else ok token

  or_empty : Option String → String
  or_empty none = ""
  or_empty (some v) = v

  unfoldable pub authorize : String → List (String × String) → List (String × String)
  unfolding or_empty lookup put
  authorize token h =
      let name = n.canonical "Authorization" in
      if not (str_eq token "") && str_eq (or_empty (lookup name h)) ""
      then put name (n.append "Bearer " token) h
      else h

  unfoldable pub build_headers : Dialer → Checked (List (String × String))
  unfolding token_of authorize set_all
  build_headers d =
      let h = set_all d.headers [] in then_with (token_of d) (λ token. ok (authorize token h))

  certs_of : Option String → Checked (Option P)
  certs_of none = failed (invalid "read CA file")
  certs_of (some raw) = elim (n.certs raw) [
    | none ↦ failed (invalid "CA file did not contain any PEM certificates")
    | some p ↦ ok (some p)
  ]

  unfoldable pub tls_config : Dialer → Checked (Tls P)
  unfolding certs_of
  tls_config d =
      then_with (if str_eq d.ca_file "" then ok none else certs_of (n.read_file d.ca_file))
        (λ roots. ok (record { insecure = d.insecure; server_name = d.server_name; roots = roots }))

  -- A connection without a subprotocol is closed again.
  unfoldable pub connected : Option W → Checked W
  connected none = failed (invalid "dial raw kubernetes exec websocket")
  connected (some ws) =
      if str_eq (n.subprotocol ws) ""
      then failed (invalid "kubernetes exec websocket did not negotiate channel protocol")
      else ok ws

  unfoldable pub dial_context : Text → Dialer → (network address : String) → Checked W
  unfolding build_exec_url build_headers tls_config connected split_address expand_command
  dial_context t d network address =
      if not (is_tcp network)
      then failed (invalid "raw WSS exec dialer only supports tcp")
      else then_with (split_address t address) (λ (p : String × String).
        then_with (build_exec_url t d p.0 p.1 address (expand_command t d.command p.0 p.1 address))
          (λ u.
            then_with (build_headers d)
              (λ h. then_with (tls_config d) (λ tls. connected (n.dial tls u h)))))

-- What the write side sends: a message of the channel of standard input.
unfoldable pub send_frame : Bytes → Bytes
send_frame b = 0 ∷ b

module _ {P W : Type 0} (n : Net P W) where
  -- A configured Authorization header is not replaced by the token.
  pub authorize-kept :
      (token v : String) (h : List (String × String))
      → lookup (n.canonical "Authorization") h ≡ some v
      → v ≢ ""
      → authorize n token h ≡ h
  unfolding authorize or_empty
  authorize-kept token v h e ne = rw e (
      if-elim (λ x. x ≡ h) (not (str_eq token "") && str_eq v "") _ h
        (λ g. absurd (ne (ground (arith, g, eq_iff v "")))) (λ g. refl))

  -- The token touches no other header.
  pub authorize-others :
      (token name : String) (h : List (String × String))
      → name ≢ n.canonical "Authorization"
      → lookup name (authorize n token h) ≡ lookup name h
  unfolding authorize
  authorize-others token name h ne =
      if-elim (λ x. lookup name x ≡ lookup name h)
        (not (str_eq token "") && str_eq (or_empty n (lookup (n.canonical "Authorization") h)) "") _
        h (λ g. lookup-put_other (n.canonical "Authorization") name (n.append "Bearer " token) h ne)
        (λ g. refl)
