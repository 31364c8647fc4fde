-- ===== src/Balancer/Session/Relay.antt =====
-- The two loops of the UDP relay in session_udp.go: udpClientToUpstream and udpUpstreamToClient. One
-- round of a loop is one function from what it read and how its write went. The loops share the pin
-- and the counters, which are locked or atomic, and the first only sets the pin, so a round counts as
-- one step. The int64 counters stay far below 2^63.
pub mod Steps
pub mod Origin
use s5lb.Base.{
  ℕ, ◌+◌, Bool, true, false, not, ◌&&◌, ◌==◌, if◌then◌else◌, List, [], ◌∷◌, ◌++◌, Option, none,
  some, length,
}
use s5lb.Socks5.Wire.{Bytes, NetIp}
use s5lb.Socks5.Udp.{Datagram, UdpResult, ok, err, decode}

pub record Endpoint : Type 0 where
  pub ip : Bytes
  pub port : ℕ

-- Why a datagram was dropped: the label of the UDPDropped metric.
pub data Drop : Type 0 where
  foreign_client_ip foreign_src decode_err_client upstream_write_err : Drop
  foreign_upstream_src decode_err_upstream no_pin client_write_err : Drop

-- The pin, udpStats, and what the loops did: the datagrams sent, each with its destination and its
-- bytes, and the drops.
pub record Relay : Type 0 where
  pub pin : Option Endpoint
  pub pkts_up : ℕ
  pub pkts_down : ℕ
  pub bytes_up : ℕ
  pub bytes_down : ℕ
  pub sent_up : List (Endpoint × Bytes)
  pub sent_down : List (Endpoint × Bytes)
  pub drops : List Drop

unfoldable pub new_relay : Relay
new_relay = record {
  pin = none;
  pkts_up = 0;
  pkts_down = 0;
  bytes_up = 0;
  bytes_down = 0;
  sent_up = [];
  sent_down = [];
  drops = [];
}

-- How a WriteToUDP ends: sent, on a closed socket (net.ErrClosed), or with another error.
pub data Written : Type 0 where
  sent closed failed : Written

-- `same_ip` is net.IP.Equal. `allowed` is nil where the client's address gave no IP. `up_addr` is the
-- upstream's relay endpoint.
module _ (net : NetIp) (same_ip : Bytes → Bytes → Bool) (allowed : Option Bytes)
    (up_addr : Endpoint) where
  unfoldable pub udp_addr_equal : Endpoint → Endpoint → Bool
  udp_addr_equal a b = a.port == b.port && same_ip a.ip b.ip

  unfoldable pub foreign_ip : Endpoint → Bool
  foreign_ip src = elim allowed [ none ↦ false | some ip ↦ not (same_ip src.ip ip) ]

  abbrev pub dropped : Drop → Relay → Relay
  dropped d r = record r { drops = r.drops ++ d ∷ [] }

  -- The result says whether the loop goes on.
  unfoldable pub count_up : Bytes → Datagram → Written → Relay → Relay × Bool
  count_up pkt dg sent r = (
    record r {
      pkts_up = r.pkts_up + 1;
      bytes_up = r.bytes_up + length dg.payload;
      sent_up = r.sent_up ++ (up_addr, pkt) ∷ [];
    },
    true,
  )
  count_up pkt dg closed r = (r, false)
  count_up pkt dg failed r = (dropped upstream_write_err r, true)

  unfoldable pub forward_up : Bytes → Written → UdpResult Datagram → Relay → Relay × Bool
  unfolding count_up
  forward_up pkt wr (err e) r = (dropped decode_err_client r, true)
  forward_up pkt wr (ok dg) r = count_up pkt dg wr r

  unfoldable pub pinned : Endpoint → Bytes → Written → Relay → Option Endpoint → Relay × Bool
  unfolding forward_up udp_addr_equal
  pinned src pkt wr r none = forward_up pkt wr (decode net pkt) (record r { pin = some src })
  pinned src pkt wr r (some cur) =
      if not (udp_addr_equal cur src)
      then (dropped foreign_src r, true)
      else forward_up pkt wr (decode net pkt) r

  -- A round of udpClientToUpstream behind a successful read; a failed one ends the loop.
  unfoldable pub udp_client_to_upstream : Endpoint → Bytes → Written → Relay → Relay × Bool
  unfolding foreign_ip pinned
  udp_client_to_upstream src pkt wr r =
      if foreign_ip src then (dropped foreign_client_ip r, true) else pinned src pkt wr r r.pin

  unfoldable pub count_down : Endpoint → Bytes → Datagram → Written → Relay → Relay × Bool
  count_down to pkt dg sent r = (
    record r {
      pkts_down = r.pkts_down + 1;
      bytes_down = r.bytes_down + length dg.payload;
      sent_down = r.sent_down ++ (to, pkt) ∷ [];
    },
    true,
  )
  count_down to pkt dg closed r = (r, false)
  count_down to pkt dg failed r = (dropped client_write_err r, true)

  unfoldable pub to_pin : Bytes → Datagram → Written → Relay → Option Endpoint → Relay × Bool
  unfolding count_down
  to_pin pkt dg wr r none = (dropped no_pin r, true)
  to_pin pkt dg wr r (some to) = count_down to pkt dg wr r

  unfoldable pub forward_down : Bytes → Written → UdpResult Datagram → Relay → Relay × Bool
  unfolding to_pin
  forward_down pkt wr (err e) r = (dropped decode_err_upstream r, true)
  forward_down pkt wr (ok dg) r = to_pin pkt dg wr r r.pin

  -- A round of udpUpstreamToClient behind a successful read. ReadFromUDP gives a source with it.
  unfoldable pub udp_upstream_to_client : Endpoint → Bytes → Written → Relay → Relay × Bool
  unfolding udp_addr_equal forward_down
  udp_upstream_to_client src pkt wr r =
      if not (udp_addr_equal src up_addr)
      then (dropped foreign_upstream_src r, true)
      else forward_down pkt wr (decode net pkt) r
