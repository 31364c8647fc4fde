-- ===== src/Balancer/Session/Entry.antt =====
-- handleUDPAssociate (session_udp.go) and handleClient (session.go).
use s5lb.Base.{
  ◌%◌, Bool, true, false, not, ◌==◌, if◌then◌else◌, List, [], ◌∷◌, ◌++◌, Option, none, some,
}
use s5lb.Socks5.Wire.{
  Bytes, rep_success, rep_general_failure, rep_command_not_supported, cmd_connect,
  cmd_udp_associate, Conn, Outcome, ok, err, NetIp,
}
use s5lb.Socks5.Server.{build_reply, read_greeting, read_request, Request, Parsed, request, refused}
use s5lb.Socks5.Client.{client_udp_associate, Reply}
use s5lb.Upstream.{Upstream}
use s5lb.Config.Types.{Config}
use s5lb.Balancer.Session.{
  Effect, World, UdpAddr, client, client_udp, upstream_udp, udp_associate, opens, closes, tracks,
  untracks, fails, succeeds, replies, relays, refuses, select_ctx, with_upstream, handle_connect,
  udp_bind_host, udp_advertise_ip, resolve_upstream_udp_addr,
}

-- net.IPv4zero and net.IPv6zero.
abbrev pub ipv4_zero : Bytes
ipv4_zero = 0 ∷ 0 ∷ 0 ∷ 0 ∷ 0 ∷ 0 ∷ 0 ∷ 0 ∷ 0 ∷ 0 ∷ 0xff ∷ 0xff ∷ 0 ∷ 0 ∷ 0 ∷ 0 ∷ []

abbrev pub ipv6_zero : Bytes
ipv6_zero = 0 ∷ 0 ∷ 0 ∷ 0 ∷ 0 ∷ 0 ∷ 0 ∷ 0 ∷ 0 ∷ 0 ∷ 0 ∷ 0 ∷ 0 ∷ 0 ∷ 0 ∷ 0 ∷ []

abbrev is_none : Option Bytes → Bool
is_none none = true
is_none (some b) = false

abbrev ip_or : Bytes → Option Bytes → Bytes
ip_or ip none = ip
ip_or ip (some i) = i

-- The local address for the socket that faces the upstream, of the upstream's family.
unfoldable pub upstream_bind_ip : NetIp → UdpAddr → Bytes
upstream_bind_ip net a = elim a.ip [
  | none ↦ ipv4_zero
  | some ip ↦ if is_none (net.to4 ip) then ipv6_zero else ipv4_zero
]

module _ (w : World) (net : NetIp) (cfg : Config) where
  -- The success reply, and the relay if it could be written.
  unfoldable pub answered : UdpAddr → Option Bytes → List Effect
  answered local none = refuses rep_general_failure ∷ []
  answered local (some ip) =
      replies (build_reply net rep_success (some ip) (local.port % 65536))
      ∷ (if w.reply_written then relays ∷ [] else [])

  unfoldable pub on_upstream_udp : UdpAddr → Option UdpAddr → List Effect
  unfolding answered
  on_upstream_udp local none = refuses rep_general_failure ∷ []
  on_upstream_udp local (some _) =
      opens upstream_udp
      ∷ (answered local (udp_advertise_ip w cfg local) ++ closes upstream_udp ∷ [])

  unfoldable pub on_client_udp : UdpAddr → Option UdpAddr → List Effect
  unfolding on_upstream_udp
  on_client_udp remote none = refuses rep_general_failure ∷ []
  on_client_udp remote (some local) =
      opens client_udp
      ∷ (on_upstream_udp local (w.listen_udp upstream_udp (upstream_bind_ip net remote))
          ++ closes client_udp ∷ [])

  unfoldable pub resolved : Option UdpAddr → List Effect
  unfolding on_client_udp
  resolved none = refuses rep_general_failure ∷ []
  resolved (some remote) =
      if remote.port == 0
      then refuses rep_general_failure ∷ []
      else on_client_udp remote
          (w.listen_udp client_udp (ip_or ipv4_zero (w.parse_ip (udp_bind_host w cfg))))

  unfoldable pub associated : Upstream → Outcome Reply → List Effect
  unfolding resolved
  associated up (err e c) = fails udp_associate ∷ refuses rep_general_failure ∷ []
  associated up (ok reply c) =
      if not (reply.rep == rep_success)
      then refuses reply.rep ∷ []
      else succeeds ∷ resolved (resolve_upstream_udp_addr w net reply up.host)

  unfoldable pub handle_udp_associate : Request → List Effect
  unfolding with_upstream associated
  handle_udp_associate req =
      with_upstream w
        (λ up c. associated up (client_udp_associate req.atyp req.raw_addr req.port c))
        (w.acquire (select_ctx w cfg req))

  unfoldable pub dispatch_cmd : Request → List Effect
  unfolding handle_connect handle_udp_associate
  dispatch_cmd req =
      if req.cmd == cmd_connect
      then handle_connect w cfg req
      else if req.cmd == cmd_udp_associate
      then (if not cfg.udp_enabled
          then refuses rep_command_not_supported ∷ []
          else handle_udp_associate req)
      else refuses rep_command_not_supported ∷ []

  unfoldable pub parsed : Parsed → List Effect × Conn
  unfolding dispatch_cmd
  parsed (refused rep e c) = ([], c)
  parsed (request req c) = (dispatch_cmd req, c)

  unfoldable pub greeted : Outcome (Unit {0}) → List Effect × Conn
  unfolding parsed
  greeted (err e c) = ([], c)
  greeted (ok _ c) = parsed (read_request net c)

  -- handleClient on an accepted connection: its effects, and the client's connection as the greeting
  -- and the request leave it, with what they wrote.
  unfoldable pub handle_client : Conn → List Effect × Conn
  unfolding greeted
  handle_client c =
      let (done, c') = greeted (read_greeting c) in
      (tracks client ∷ (done ++ closes client ∷ untracks client ∷ []), c')
