-- ===== src/Transport/Kubernetes.antt =====
-- internal/transport/kubeexec.go: a stream through client-go's exec. `Client` is client-go and the rest of
-- the world; what DialContext leaves behind is the list of its effects.
pub mod Laws
mod Tests
use s5lb.Base.{
  ℕ, ◌*◌, Bool, ◌||◌, not, if◌then◌else◌, String, str_eq, List, [], ◌∷◌, Option, none, some,
}
use s5lb.Socks5.Wire.{Bytes}
use s5lb.Config.Types.{Kubernetes}
use s5lb.Config.Validate.{Checked, failed, ok, invalid, then_with, is_empty}
use s5lb.Transport.Stream.{Error}
use s5lb.Transport.Command.{Text, is_tcp, split_address, expand_command}

-- The error of an executor is its text; `ended` is what StreamWithContext returns in the end.
pub record Client (X : Type 0) : Type 0 where
  pub has_config : Bool
  pub builds : Bool
  pub spdy : List String → Checked X
  pub websocket : List String → Checked X

pub record Dialer : Type 0 where
  pub namespace : String
  pub pod : String
  pub container : String
  pub mode : String
  pub command : List String
  pub stderr_limit : ℕ

abbrev pub or_default : String → String → String
or_default s d = if str_eq s "" then d else s

unfoldable pub new_dialer : {X : Type 0} → Client X → Kubernetes → Checked Dialer
new_dialer c k =
    let mode = or_default k.mode "websocket-preferred" in
    if not c.has_config
    then failed (invalid "kubernetes rest config is nil")
    else if str_eq k.pod ""
    then failed (invalid "kubernetes exec pod is required")
    else if is_empty k.command
    then failed (invalid "kubernetes exec command is required")
    else if not (str_eq mode "spdy" || str_eq mode "websocket" || str_eq mode "websocket-preferred")
    then failed (invalid "unsupported client-go kubernetes exec mode")
    else if c.builds
    then ok (record {
      namespace = or_default k.namespace "default";
      pod = k.pod;
      container = k.container;
      mode = mode;
      command = k.command;
      stderr_limit = 32 * 1024;
    })
    else failed (invalid "create kubernetes client")

-- WebSocket, and SPDY where that fails.
unfoldable pub preferred : {X : Type 0} → Checked X → Checked X → Checked X
preferred (ok x) spdy = ok x
preferred (failed e) (ok x) = ok x
preferred (failed e) (failed e') = failed (invalid "websocket executor")

unfoldable pub executor : {X : Type 0} → Client X → String → List String → Checked X
unfolding preferred
executor c mode command =
    if str_eq mode "spdy"
    then c.spdy command
    else if str_eq mode "websocket"
    then c.websocket command
    else if str_eq mode "websocket-preferred"
    then preferred (c.websocket command) (c.spdy command)
    else failed (invalid "unsupported kubernetes exec mode")

pub data Effect (X : Type 0) : Type 0 where
  opens_pipe closes_pipe : Effect X
  streams : X → Effect X

-- Behind splitAddress: the pipe of standard input is closed again unless the stream starts. `canceled`
-- is the state of the dial's context before that.
unfoldable pub begin : {X : Type 0} → (canceled : Bool) → Checked X → List (Effect X) × Checked X
begin canceled (failed e) = (opens_pipe ∷ closes_pipe ∷ [], failed e)
begin canceled (ok x) =
    if canceled
    then (opens_pipe ∷ closes_pipe ∷ [], failed (invalid "context"))
    else (opens_pipe ∷ streams x ∷ [], ok x)

unfoldable pub on_address :
    {X : Type 0}
    → Text
    → Client X
    → Dialer
    → (canceled : Bool) → (address : String) → Checked (String × String)
    → List (Effect X) × Checked X
unfolding begin executor expand_command
on_address t c d canceled address (failed e) = ([], failed e)
on_address t c d canceled address (ok (host, port)) =
    begin canceled (executor c d.mode (expand_command t d.command host port address))

unfoldable pub dial_context :
    {X : Type 0}
    → Text
    → Client X
    → Dialer
    → (canceled : Bool) → (network address : String) → List (Effect X) × Checked X
unfolding on_address split_address
dial_context t c d canceled network address =
    if is_tcp network
    then on_address t c d canceled address (split_address t address)
    else ([], failed (invalid "kubernetes exec dialer only supports tcp"))

-- The argument of finishRemote when the stream ends; `wrap` puts the trimmed stderr behind an error.
unfoldable pub stream_end : (Error → Bytes → Error) → Option Error → Bytes → Option Error
stream_end wrap none stderr = none
stream_end wrap (some e) [] = some e
stream_end wrap (some e) (b ∷ bs) = some (wrap e (b ∷ bs))
