-- ===== src/Balancer/Session.antt =====
-- internal/balancer/session.go, session_connect.go and session_udp.go: a client connection from its
-- greeting to its end. A session is the sequence of what it does to the rest of the balancer: its
-- effects, in order, the deferred ones where the function returns. The answers of the world (the slot
-- that acquireSlot gives, the dialer, the sockets) are arguments; the protocol with the upstream and
-- with the client runs on connections (Socks5). Metrics, spans, logs and deadlines are left out.
pub mod Entry
pub mod Protocol
pub mod Discipline
pub mod Associate
pub mod Relay
mod Tests
use s5lb.Base.{
  ℕ, Bool, true, false, not, ◌==◌, if◌then◌else◌, String, str_eq, List, [], ◌∷◌, ◌++◌, Option, none,
  some, ℤ, ◌%◌,
}
use s5lb.Socks5.Wire.{
  Bytes, rep_success, rep_general_failure, rep_command_not_supported, cmd_connect,
  cmd_udp_associate, Conn, Outcome, ok, err, NetIp,
}
use s5lb.Socks5.Server.{
  reply_bytes, build_reply, read_greeting, read_request, Request, Parsed, request, refused,
}
use s5lb.Socks5.Client.{client_handshake, client_connect, client_udp_associate, Reply}
use s5lb.Upstream.{Upstream}
use s5lb.Strategy.{Addr, HashKey, SelectCtx}
use s5lb.Config.Types.{Config}

-- The connections and sockets of a session.
pub data Party : Type 0 where
  client upstream client_udp upstream_udp : Party

-- The stage that recordFailure is told.
pub data Stage : Type 0 where
  dial handshake connect udp_associate : Stage

-- `acquires` and `releases` are the slot of the session's upstream, `updates` is tracker.Update,
-- `pipes` and `relays` are the tunnel and the UDP relay until they end.
pub data Effect : Type 0 where
  acquires releases : Effect
  updates : String → ℤ → Effect
  opens closes tracks untracks : Party → Effect
  fails : Stage → Effect
  succeeds observes pipes relays : Effect
  replies : Bytes → Effect

pub record UdpAddr : Type 0 where
  pub ip : Option Bytes
  pub port : ℕ

-- The answers of the world. `dialer` is lb.Dialer(), nil as `none`; a failed call is `none`, except
-- that `reply_written` says whether the success reply of UDP ASSOCIATE could be written. `local` is
-- client.LocalAddr(), `local_tcp` its IP if it is a *net.TCPAddr.
pub record World : Type 0 where
  pub acquire : SelectCtx → Option Upstream
  pub dialer : Option (String → Option Conn)
  pub tcp_dialer : String → Option Conn
  pub addr : Upstream → String
  pub bytes : String → Bytes
  pub text : Bytes → String
  pub hash_key : String → HashKey
  pub split_host : String → Option String
  pub parse_ip : String → Option Bytes
  pub unspecified : Bytes → Bool
  pub resolve : Bytes → ℕ → Option UdpAddr
  pub listen_udp : Party → Bytes → Option UdpAddr
  pub remote : Addr
  pub local_tcp : Option Bytes
  pub local : String
  pub reply_written : Bool

unfoldable pub select_ctx : World → Config → Request → SelectCtx
select_ctx w cfg req = record {
  client_addr = some w.remote;
  dst_host = w.text req.dst_label;
  dst_port = req.port;
  hash_key = w.hash_key cfg.hash_key;
}

abbrev pub refuses : ℕ → Effect
refuses rep = replies (reply_bytes rep)

unfoldable pub shaken : Outcome (Unit {0}) → List Effect × Option Conn
shaken (err e c) = (fails handshake ∷ closes upstream ∷ [], none)
shaken (ok _ c) = (observes ∷ [], some c)

-- dialAndHandshakeUpstream behind the dial.
unfoldable pub dialed : World → Upstream → Option Conn → List Effect × Option Conn
unfolding shaken
dialed w up none = (fails dial ∷ [], none)
dialed w up (some c) =
    let (done, conn) = shaken (client_handshake (w.bytes up.username) (w.bytes up.password) c) in
    (opens upstream ∷ done, conn)

abbrev pub dialer_of : {D : Type 0} → Option D → D → D
dialer_of none d = d
dialer_of (some d) _ = d

unfoldable pub dial_and_handshake_upstream : World → Upstream → List Effect × Option Conn
unfolding dialed
dial_and_handshake_upstream w up = dialed w up (dialer_of w.dialer w.tcp_dialer (w.addr up))

-- `lb.track(upConn)`, and the two deferred calls behind what the session does with it.
unfoldable pub on_upstream : (Conn → List Effect) → List Effect × Option Conn → List Effect
on_upstream body (done, none) = done ++ refuses rep_general_failure ∷ []
on_upstream body (done, some c) =
    done ++ tracks upstream ∷ (body c ++ closes upstream ∷ untracks upstream ∷ [])

-- What handleConnect and handleUDPAssociate have in common: slot, dial, and `body` on the connection.
unfoldable pub with_upstream :
    World → (Upstream → Conn → List Effect) → Option Upstream → List Effect
unfolding on_upstream
with_upstream w body none = refuses rep_general_failure ∷ []
with_upstream w body (some up) =
    acquires
    ∷ updates up.id up.priority
    ∷ (on_upstream (body up) (dial_and_handshake_upstream w up) ++ releases ∷ [])

unfoldable pub connected : Outcome Reply → List Effect
connected (err e c) = fails connect ∷ refuses rep_general_failure ∷ []
connected (ok reply c) =
    refuses reply.rep ∷ succeeds ∷ (if reply.rep == rep_success then pipes ∷ [] else [])

unfoldable pub handle_connect : World → Config → Request → List Effect
unfolding with_upstream connected
handle_connect w cfg req =
    with_upstream w (λ up c. connected (client_connect req.atyp req.raw_addr req.port c))
      (w.acquire (select_ctx w cfg req))

unfoldable pub split_host : World → String → String
split_host w a = elim (w.split_host a) [ none ↦ a | some h ↦ h ]

unfoldable pub udp_bind_host : World → Config → String
unfolding split_host
udp_bind_host w cfg =
    if not (str_eq cfg.udp_bind_addr "") then cfg.udp_bind_addr else split_host w cfg.listen_addr

-- An IP that is there and is not 0.0.0.0 or ::.
concrete : World → Option Bytes → Option Bytes
concrete w none = none
concrete w (some ip) = if w.unspecified ip then none else some ip

abbrev pub or_else : Option Bytes → Option Bytes → Option Bytes
or_else none b = b
or_else (some a) b = some a

parse_host : World → Option String → Option Bytes
parse_host w none = none
parse_host w (some h) = w.parse_ip h

-- udpAdvertiseIP; an error is `none`.
unfoldable pub udp_advertise_ip : World → Config → UdpAddr → Option Bytes
unfolding concrete parse_host
udp_advertise_ip w cfg udp_local =
    if not (str_eq cfg.udp_advertise_addr "")
    then w.parse_ip cfg.udp_advertise_addr
    else or_else (concrete w udp_local.ip)
        (or_else (concrete w w.local_tcp) (concrete w (parse_host w (w.split_host w.local))))

resolve_host : World → ℕ → Bytes → Option UdpAddr
resolve_host w port [] = none
resolve_host w port (b ∷ host) = w.resolve (b ∷ host) port

-- resolveUpstreamUDPAddr.
unfoldable pub resolve_upstream_udp_addr : World → NetIp → Reply → String → Option UdpAddr
unfolding resolve_host
resolve_upstream_udp_addr w net reply tcp_host = elim reply.bind_ip [
  | some ip ↦ w.resolve (if w.unspecified ip then w.bytes tcp_host else net.text ip) reply.bind_port
  | none ↦ resolve_host w reply.bind_port reply.bind_host
]
