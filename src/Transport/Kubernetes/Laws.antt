-- ===== src/Transport/Kubernetes/Laws.antt =====
-- What a dial through client-go (kubeexec.go) leaves behind.
use s5lb.Base.{
  true, ◌≡◌, refl, sym, ap, ◌∙◌, ◌⊎◌, inl, inr, Bool, ◌||◌, not, if-elim, String, str_eq, List, [],
  ◌∷◌,
}
use s5lb.Config.Types.{Kubernetes}
use s5lb.Config.Validate.{Error, Checked, failed, ok, is_empty}
use s5lb.Config.Validate.Laws.{ok-injective}
use s5lb.Transport.Command.{Text, is_tcp, split_address, expand_command}
use s5lb.Transport.Kubernetes.{
  Client, Dialer, or_default, new_dialer, preferred, executor, Effect, opens_pipe, closes_pipe,
  streams, begin, on_address, dial_context,
}

module _ {X : Type 0} (t : Text) (c : Client X) (k : Kubernetes) (network address : String) where
  -- Nothing, a pipe that is closed again, or one that a stream uses. The pipe is opened for a TCP network
  -- and an address with a host and a port, and the stream runs the configured command for these, through
  -- WebSocket or SPDY.
  pub data Left : List (Effect X) × Checked X → Type 0 where
    refused : (e : Error) → Left ([], failed e)
    undone :
        (e : Error) (host port : String)
        → is_tcp network ≡ true
        → split_address t address ≡ ok (host, port)
        → Left (opens_pipe ∷ closes_pipe ∷ [], failed e)
    running :
        (host port : String)
        → is_tcp network ≡ true
        → split_address t address ≡ ok (host, port)
        → (x : X)
        → (c.websocket (expand_command t k.command host port address) ≡ ok x)
          ⊎ (c.spdy (expand_command t k.command host port address) ≡ ok x)
        → Left (opens_pipe ∷ streams x ∷ [], ok x)

  abbrev From : List String → Checked X → Type 0
  From command e = (x : X) → e ≡ ok x → (c.websocket command ≡ ok x) ⊎ (c.spdy command ≡ ok x)

  preferred-From :
      (command : List String) (w s : Checked X)
      → c.websocket command ≡ w
      → c.spdy command ≡ s
      → From command (preferred w s)
  unfolding preferred
  preferred-From command (ok y) s hw hs x e = inl (hw ∙ e)
  preferred-From command (failed f) (ok y) hw hs x e = inr (hs ∙ e)
  preferred-From command (failed f) (failed g) hw hs x e = absurd (cc)

  executor-From : (mode : String) (command : List String) → From command (executor c mode command)
  unfolding executor
  executor-From mode command =
      if-elim (From command) (str_eq mode "spdy") _ _ (λ h x e. inr e)
        (λ h.
          if-elim (From command) (str_eq mode "websocket") _ _ (λ h' x e. inl e)
            (λ h'.
              if-elim (From command) (str_eq mode "websocket-preferred") _ _
                (λ g. preferred-From command (c.websocket command) (c.spdy command) refl refl)
                (λ g x e. absurd (cc))))

  begin-Left :
      (canceled : Bool) (host port : String) (e : Checked X)
      → is_tcp network ≡ true
      → split_address t address ≡ ok (host, port)
      → From (expand_command t k.command host port address) e
      → Left (begin canceled e)
  unfolding begin
  begin-Left canceled host port (failed f) tcp h from = undone f host port tcp h
  begin-Left canceled host port (ok x) tcp h from =
      if-elim Left canceled _ _ (λ g. undone _ host port tcp h)
        (λ g. running host port tcp h x (from x refl))

  on_address-Left :
      (d : Dialer) (canceled : Bool) (p : Checked (String × String))
      → d.command ≡ k.command
      → is_tcp network ≡ true
      → split_address t address ≡ p
      → Left (on_address t c d canceled address p)
  unfolding on_address
  on_address-Left d canceled (failed e) same tcp h = refused e
  on_address-Left d canceled (ok (host, port)) same tcp h = rw same (
      begin-Left canceled host port _ tcp h
        (executor-From d.mode (expand_command t k.command host port address)))

  abbrev Made : Dialer → Checked Dialer → Type 0
  Made d r = r ≡ ok d → d.command ≡ k.command

  new_dialer-Made : (d : Dialer) → Made d (new_dialer c k)
  unfolding new_dialer
  new_dialer-Made d =
      if-elim (Made d) (not c.has_config) _ _ (λ h e. absurd (cc))
        (λ h.
          if-elim (Made d) (str_eq k.pod "") _ _ (λ h' e. absurd (cc))
            (λ h'.
              if-elim (Made d) (is_empty k.command) _ _ (λ g e. absurd (cc))
                (λ g.
                  if-elim (Made d)
                    (not (
                      str_eq (or_default k.mode "websocket-preferred") "spdy"
                      || str_eq (or_default k.mode "websocket-preferred") "websocket"
                      || str_eq (or_default k.mode "websocket-preferred") "websocket-preferred"))
                    _ _ (λ i e. absurd (cc))
                    (λ i.
                      if-elim (Made d) c.builds _ _
                        (λ j e. sym (ap (λ (x : Dialer). x.command) (ok-injective _ d e)))
                        (λ j e. absurd (cc))))))

-- A dial of a dialer that was made from the configuration opens its pipe only for a TCP network and an
-- address with a host and a port, and leaves it open only with a stream that runs the configured command
-- for them; every failure behind that closes the pipe again.
pub dial_context-Left :
    {X : Type 0} (t : Text) (c : Client X) (k : Kubernetes) (d : Dialer) (canceled : Bool)
    (network address : String)
    → new_dialer c k ≡ ok d
    → Left t c k network address (dial_context t c d canceled network address)
unfolding dial_context
dial_context-Left t c k d canceled network address e =
    if-elim (Left t c k network address) (is_tcp network) _ _
      (λ h.
        on_address-Left t c k network address d canceled (split_address t address)
          (new_dialer-Made t c k network address d e) h refl)
      (λ h. refused _)
