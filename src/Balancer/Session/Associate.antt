-- ===== src/Balancer/Session/Associate.antt =====
-- handleUDPAssociate (session_udp.go) and handleClient (session.go) keep to the protocol of a session.
use s5lb.Base.{
  ◌≡◌, refl, ◌⊎◌, inl, inr, Bool, true, false, ◌==◌, if◌then◌else◌, Bool-cases, List, [], ◌∷◌, ◌++◌,
  Option, none, some, subst,
}
use s5lb.Socks5.Wire.{
  Bytes, Conn, Outcome, ok, err, NetIp, rep_success, cmd_connect, cmd_udp_associate,
}
use s5lb.Socks5.Server.{read_greeting, read_request, Request, Parsed, request, refused}
use s5lb.Socks5.Client.{client_udp_associate, Reply}
use s5lb.Upstream.{Upstream}
use s5lb.Config.Types.{Config}
use s5lb.Balancer.Session.{
  Effect, World, UdpAddr, client, upstream_udp, client_udp, closes, tracks, untracks, select_ctx,
  udp_advertise_ip, resolve_upstream_udp_addr,
}
use s5lb.Balancer.Session.Entry.{
  upstream_bind_ip, answered, on_upstream_udp, on_client_udp, resolved, associated,
  handle_udp_associate, dispatch_cmd, parsed, greeted, handle_client,
}
use s5lb.Balancer.Session.Protocol.{fresh, done, follow, allowed}
use s5lb.Balancer.Session.Discipline.{
  on_conn, served, is_some, follow_then, Ends, with_upstream-Handled, handle_connect-Followed,
}

module _ (w : World) (net : NetIp) (cfg : Config) where
  -- With both sockets open.
  answered-follow :
      (local : UdpAddr) (o : Option Bytes)
      → follow
          (answered w net cfg local o)
          (record on_conn { told = true; client_sock = true; up_sock = true })
        ≡ some (record (served true) { client_sock = true; up_sock = true })
  unfolding answered follow allowed
  answered-follow local none = refl
  answered-follow local (some ip) = elim (Bool-cases w.reply_written) [
    | inl h ↦ simp h refl
    | inr h ↦ simp h refl
  ]

  on_upstream_udp-follow :
      (local : UdpAddr) (o : Option UdpAddr)
      → follow
          (on_upstream_udp w net cfg local o)
          (record on_conn { told = true; client_sock = true })
        ≡ some (record (served true) { client_sock = true })
  unfolding on_upstream_udp follow allowed
  on_upstream_udp-follow local none = refl
  on_upstream_udp-follow local (some _) =
      follow_then (answered w net cfg local (udp_advertise_ip w cfg local))
        (closes upstream_udp ∷ []) _ _ (answered-follow local (udp_advertise_ip w cfg local))

  on_client_udp-follow :
      (remote : UdpAddr) (o : Option UdpAddr)
      → follow (on_client_udp w net cfg remote o) (record on_conn { told = true })
        ≡ some (served true)
  unfolding on_client_udp follow allowed
  on_client_udp-follow remote none = refl
  on_client_udp-follow remote (some local) =
      let sock = w.listen_udp upstream_udp (upstream_bind_ip net remote) in
      follow_then (on_upstream_udp w net cfg local sock) (closes client_udp ∷ []) _ _
        (on_upstream_udp-follow local sock)

  resolved-follow :
      (o : Option UdpAddr)
      → follow (resolved w net cfg o) (record on_conn { told = true }) ≡ some (served true)
  unfolding resolved follow allowed
  resolved-follow none = refl
  resolved-follow (some remote) = elim (Bool-cases (remote.port == 0)) [
    | inl h ↦ rw h refl
    | inr h ↦ rw h (on_client_udp-follow remote _)
  ]

  associated-Ends :
      (up : Upstream) (o : Outcome Reply)
      → (told : Bool) × Unit {0} × Ends (associated w net cfg up o) told
  unfolding associated follow allowed
  associated-Ends up (err e c) = (true, tt, refl)
  associated-Ends up (ok reply c) = elim (Bool-cases (reply.rep == rep_success)) [
    | inl h ↦ (true, tt, rw h (resolved-follow (resolve_upstream_udp_addr w net reply up.host)))
    | inr h ↦ (false, tt, rw h refl)
  ]

  -- handleUDPAssociate keeps to the protocol likewise, with its two sockets; the breaker has been told
  -- at most once, and nothing if no slot was given.
  pub handle_udp_associate-Followed :
      (req : Request)
      → (told : Bool) × (follow (handle_udp_associate w net cfg req) fresh ≡ some (done told))
        × (w.acquire (select_ctx w cfg req) ≡ none → told ≡ false)
  unfolding handle_udp_associate
  handle_udp_associate-Followed req =
      let (told, known, e) =
        with_upstream-Handled (λ _. Unit {0}) w
          (λ up c. associated w net cfg up (client_udp_associate req.atyp req.raw_addr req.port c))
          (w.acquire (select_ctx w cfg req)) tt
          (λ up c. associated-Ends up (client_udp_associate req.atyp req.raw_addr req.port c)) in
      (
        told,
        e,
        λ none_given. subst (λ o. if is_some o then Unit {0} else told ≡ false) none_given known,
      )

  dispatch_cmd-Followed :
      (req : Request)
      → (told : Bool) × (follow (dispatch_cmd w net cfg req) fresh ≡ some (done told))
  unfolding dispatch_cmd follow allowed
  dispatch_cmd-Followed req = elim (Bool-cases (req.cmd == cmd_connect)) [
    | inl h ↦ (is_some (w.acquire (select_ctx w cfg req)), rw h (handle_connect-Followed w cfg req))
    | inr h ↦ elim (Bool-cases (req.cmd == cmd_udp_associate)) [
      | inr h' ↦ (false, rw (h, h') refl)
      | inl h' ↦ elim (Bool-cases cfg.udp_enabled) [
        | inr off ↦ (false, simp (h, h', off) refl)
        | inl on ↦
            let (told, e, _) = handle_udp_associate-Followed req in (told, simp (h, h', on) e)
      ]
    ]
  ]

  -- The greeting and the request of the connection `c` are accepted, and the request is `req`.
  abbrev pub Accepts : Conn → Request → Type 0
  Accepts c req =
      (c1 c2 : Conn) × (read_greeting c ≡ ok tt c1) × (read_request net c1 ≡ request req c2)

  -- What a client's connection does between its tracking and its end.
  abbrev pub Between : Conn → List Effect → Type 0
  Between c inner =
      ((inner ≡ []) × ((req : Request) → ¬ Accepts c req))
      ⊎ ((req : Request) × (told : Bool) × Accepts c req × (follow inner fresh ≡ some (done told)))

  parsed-Between :
      (c c1 : Conn) (p : Parsed)
      → read_greeting c ≡ ok tt c1
      → read_request net c1 ≡ p
      → Between c (parsed w net cfg p).0
  unfolding parsed
  parsed-Between c c1 (refused rep e c2) g r = inl (refl, λ req (d1, d2, g', r'). cc)
  parsed-Between c c1 (request req c2) g r =
      let (told, e) = dispatch_cmd-Followed req in inr (req, told, (c1, c2, g, r), e)

  greeted-Between :
      (c : Conn) (o : Outcome (Unit {0})) → read_greeting c ≡ o → Between c (greeted w net cfg o).0
  unfolding greeted
  greeted-Between c (err e c1) g = inl (refl, λ req (d1, d2, g', r'). cc)
  greeted-Between c (ok _ c1) g = parsed-Between c c1 (read_request net c1) g refl

  -- handleClient on any client input: the client is tracked first, and closed and then untracked last.
  -- Between these nothing happens if the greeting or the request is refused (the parser writes its own
  -- replies); otherwise the handler keeps to the protocol: one reply, nothing left open or held.
  pub handle_client-Followed :
      (c : Conn)
      → (inner : List Effect) × ((handle_client w net cfg c).0
          ≡ tracks client ∷ (inner ++ closes client ∷ untracks client ∷ []))
        × Between c inner
  unfolding handle_client
  handle_client-Followed c =
      ((greeted w net cfg (read_greeting c)).0, refl, greeted-Between c (read_greeting c) refl)
