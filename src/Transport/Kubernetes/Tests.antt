-- ===== src/Transport/Kubernetes/Tests.antt =====
-- A dial whose WebSocket executor fails and whose SPDY executor does not.
use s5lb.Base.{◌≡◌, refl, true, false, String, [], ◌∷◌, some}
use s5lb.Config.Types.{Kubernetes, no_kubernetes}
use s5lb.Config.Validate.{failed, ok, invalid}
use s5lb.Transport.Command.{Text}
use s5lb.Transport.Kubernetes.{Client, Dialer, new_dialer, opens_pipe, streams, dial_context}
use s5lb.Transport.Kubernetes.Laws.{Left, dial_context-Left}

abbrev text : Text
text = record {
  split_host_port = λ s. some ("proxy", "1080");
  is_int = λ s. true;
  replace_all = λ s old new. s;
}

abbrev client : Client String
client = record {
  has_config = true;
  builds = true;
  spdy = λ command. ok "spdy";
  websocket = λ command. failed (invalid "no websocket");
}

abbrev config : Kubernetes
config = record no_kubernetes { pod = "relay"; command = "kube-socks-relay" ∷ [] }

abbrev dialer : Dialer
dialer = record {
  namespace = "default";
  pod = "relay";
  container = "";
  mode = "websocket-preferred";
  command = "kube-socks-relay" ∷ [];
  stderr_limit = 32768;
}

is_made : new_dialer client config ≡ ok dialer
unfolding new_dialer
is_made = refl

falls_back :
    dial_context text client dialer false "tcp" "proxy:1080"
    ≡ (opens_pipe ∷ streams "spdy" ∷ [], ok "spdy")
unfolding dial_context
falls_back = refl

dial_context-Left_example :
    Left text client config "tcp" "proxy:1080"
      (dial_context text client dialer false "tcp" "proxy:1080")
dial_context-Left_example =
    dial_context-Left text client config dialer false "tcp" "proxy:1080" is_made
