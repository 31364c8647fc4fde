-- ===== src/Balancer/Session/Tests.antt =====
-- One client and one upstream: a CONNECT, an association and its datagrams.
use s5lb.Base.{
  ℕ, ◌≡◌, Bool, true, false, ◌++◌, [], ◌∷◌, List, Option, none, some, arith, length, if◌then◌else◌,
  ◌==◌, pos,
}
use s5lb.Socks5.Wire.{Bytes, Conn, NetIp}
use s5lb.Socks5.Server.{Request}
use s5lb.Upstream.{Upstream}
use s5lb.Strategy.{client_ip}
use s5lb.Config.Types.{defaults}
use s5lb.Balancer.Session.{World, Effect, client, tracks, closes, untracks}
use s5lb.Balancer.Session.Entry.{handle_client}
use s5lb.Balancer.Session.Associate.{handle_client-Followed, Between}
use s5lb.Balancer.Session.Relay.{
  Endpoint, Relay, sent, new_relay, udp_client_to_upstream, udp_upstream_to_client,
}
use s5lb.Balancer.Session.Relay.Steps.{here, next, client_round, upstream_round, Sound, Run-Sound}

abbrev of_length : ℕ → Bytes → Option Bytes
of_length n ip = if length ip == n then some ip else none

of_length-length : (n : ℕ) (ip v : Bytes) → of_length n ip ≡ some v → length v ≡ n
of_length-length n ip v e = ground arith

abbrev plain_ip : NetIp
plain_ip = record {
  to4 = of_length 4;
  to16 = of_length 16;
  text = λ ip. ip;
  to4_length = of_length-length 4;
  to16_length = of_length-length 16;
}

abbrev proxy : Upstream
proxy = record {
  id = "p";
  host = "10.0.0.1";
  port = 1080;
  username = "";
  password = "";
  weight = pos 1;
  priority = pos 0;
}

-- The upstream takes no authentication and answers a request with success.
abbrev answers : Conn
answers = record {
  input = 5 ∷ 0 ∷ 5 ∷ 0 ∷ 0 ∷ 1 ∷ 10 ∷ 0 ∷ 0 ∷ 1 ∷ 0 ∷ 80 ∷ [];
  output = [];
  writable = true;
}

abbrev world : World
world = record {
  acquire = λ sc. some proxy;
  dialer = none;
  tcp_dialer = λ addr. some answers;
  addr = λ up. up.host;
  bytes = λ s. [];
  text = λ b. "";
  hash_key = λ s. client_ip;
  split_host = λ s. none;
  parse_ip = λ s. none;
  unspecified = λ ip. false;
  resolve = λ host port. some (record { ip = some host; port = port });
  listen_udp = λ p ip. some (record { ip = some ip; port = 5000 });
  remote = record { text = "10.0.0.9:4000"; split_host = some "10.0.0.9" };
  local_tcp = none;
  local = "";
  reply_written = true;
}

abbrev ask : ℕ → Request
ask cmd = record { cmd = cmd; atyp = 1; raw_addr = 1 ∷ 2 ∷ 3 ∷ 4 ∷ []; port = 80; dst_label = [] }

-- The greeting and a CONNECT.
abbrev caller : Conn
caller = record {
  input = 5 ∷ 1 ∷ 0 ∷ 5 ∷ 1 ∷ 0 ∷ 1 ∷ 1 ∷ 2 ∷ 3 ∷ 4 ∷ 0 ∷ 80 ∷ [];
  output = [];
  writable = true;
}

handle_client-Followed_example :
    (inner : List Effect) × ((handle_client world plain_ip (defaults 0) caller).0
      ≡ tracks client ∷ (inner ++ closes client ∷ untracks client ∷ []))
    × Between world plain_ip (defaults 0) caller inner
handle_client-Followed_example = handle_client-Followed world plain_ip (defaults 0) caller

-- A datagram to 1.2.3.4:80 with one byte, and endpoints with the same text as equal.
abbrev datagram : Bytes
datagram = 0 ∷ 0 ∷ 0 ∷ 1 ∷ 1 ∷ 2 ∷ 3 ∷ 4 ∷ 0 ∷ 80 ∷ 7 ∷ []

abbrev same_head : Bytes → Bytes → Bool
same_head (a ∷ _) (b ∷ _) = a == b
same_head _ _ = false

abbrev at_port : ℕ → ℕ → Endpoint
at_port ip port = record { ip = ip ∷ []; port = port }

abbrev pinned_relay : Relay
pinned_relay =
    (udp_client_to_upstream plain_ip same_head (some (9 ∷ [])) (at_port 10 53) (at_port 9 4000)
      datagram sent new_relay).0

abbrev answered_relay : Relay
answered_relay =
    (udp_upstream_to_client plain_ip same_head (some (9 ∷ [])) (at_port 10 53) (at_port 10 53)
      datagram sent pinned_relay).0

Run-Sound_example : Sound plain_ip same_head (some (9 ∷ [])) (at_port 10 53) answered_relay
Run-Sound_example = Run-Sound plain_ip same_head (some (9 ∷ [])) (at_port 10 53) answered_relay (
    next new_relay pinned_relay answered_relay
      (next new_relay new_relay pinned_relay (here new_relay)
        (client_round (at_port 9 4000) datagram sent new_relay))
      (upstream_round (at_port 10 53) datagram sent pinned_relay))
