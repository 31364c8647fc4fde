-- ===== src/Socks5/Udp.antt =====
-- internal/socks5/udp.go: the header in front of each relayed datagram.
pub mod RoundTrip
use s5lb.Base.{
  ℕ, suc, ◌+◌, ◌%◌, ◌≤◌, ◌<◌, ◌≡◌, refl, sym, ap, subst, ◌∙◌, Bool, true, false, not, ◌||◌, ltb,
  leb, ◌==◌, if◌then◌else◌, List, [], ◌∷◌, ◌++◌, Option, none, some, arith, length, take, drop,
  drop-add, length-append, take-length-append, drop-length-append,
}
use s5lb.Socks5.Wire.{
  Bytes, atyp_ipv4, atyp_domain, atyp_ipv6, at, put_uint16, uint16, uint16-put_uint16, NetIp,
}

pub data UdpError : Type 0 where
  too_short rsv_nonzero fragmented ipv4_truncated ipv6_truncated domain_length_truncated : UdpError
  empty_domain domain_truncated bad_atyp invalid_ip domain_too_long no_destination : UdpError

pub data UdpResult (A : Type 0) : Type 0 where
  ok : A → UdpResult A
  err : UdpError → UdpResult A

-- `dst_ip` is nil for a domain.
pub record Datagram : Type 0 where
  pub frag : ℕ
  pub atyp : ℕ
  pub dst_host : Bytes
  pub dst_ip : Option Bytes
  pub dst_port : ℕ
  pub payload : Bytes
  pub header_len : ℕ

-- The end of DecodeUDPDatagram: the port and the data behind the address.
finish : Bytes → ℕ → Bytes → Option Bytes → ℕ → UdpResult Datagram
finish pkt atyp host ip off = ok (record {
  frag = 0;
  atyp = atyp;
  dst_host = host;
  dst_ip = ip;
  dst_port = uint16 (take 2 (drop off pkt));
  payload = drop (off + 2) pkt;
  header_len = off + 2;
})

decode_domain : Bytes → UdpResult Datagram
unfolding finish
decode_domain pkt =
    if ltb (length pkt) (4 + 1)
    then err domain_length_truncated
    else let dl = at pkt 4 in
      if dl == 0
      then err empty_domain
      else if ltb (length pkt) (5 + dl + 2)
      then err domain_truncated
      else finish pkt atyp_domain (take dl (drop 5 pkt)) none (5 + dl)

-- net.IP(pkt[off:off+n]) and its text.
decode_ip : NetIp → Bytes → ℕ → ℕ → UdpError → UdpResult Datagram
unfolding finish
decode_ip net pkt atyp n e =
    if ltb (length pkt) (4 + n + 2)
    then err e
    else let ip = take n (drop 4 pkt) in finish pkt atyp (net.text ip) (some ip) (4 + n)

unfoldable pub decode : NetIp → Bytes → UdpResult Datagram
unfolding decode_domain decode_ip
decode net pkt =
    if ltb (length pkt) 10
    then err too_short
    else if not (at pkt 0 == 0) || not (at pkt 1 == 0)
    then err rsv_nonzero
    else if not (at pkt 2 == 0)
    then err fragmented
    else if at pkt 3 == atyp_ipv4
    then decode_ip net pkt atyp_ipv4 4 ipv4_truncated
    else if at pkt 3 == atyp_ipv6
    then decode_ip net pkt atyp_ipv6 16 ipv6_truncated
    else if at pkt 3 == atyp_domain
    then decode_domain pkt
    else err bad_atyp

unfoldable pub packet : ℕ → Bytes → ℕ → Bytes → Bytes
packet atyp addr port payload =
    (0x00 ∷ 0x00 ∷ 0x00 ∷ atyp ∷ []) ++ (addr ++ (put_uint16 port ++ payload))

encode_host : Bytes → ℕ → Bytes → UdpResult Bytes
unfolding packet
encode_host [] port payload = err no_destination
encode_host (b ∷ host) port payload =
    if ltb 255 (length (b ∷ host))
    then err domain_too_long
    else ok (packet atyp_domain (length (b ∷ host) % 256 ∷ b ∷ host) port payload)

encode_ip : Option Bytes → Option Bytes → ℕ → Bytes → UdpResult Bytes
unfolding packet
encode_ip (some v4) _ port payload = ok (packet atyp_ipv4 v4 port payload)
encode_ip none (some v6) port payload = ok (packet atyp_ipv6 v6 port payload)
encode_ip none none port payload = err invalid_ip

unfoldable pub encode : NetIp → Option Bytes → Bytes → ℕ → Bytes → UdpResult Bytes
unfolding encode_host encode_ip
encode net (some ip) host port payload = encode_ip (net.to4 ip) (net.to16 ip) port payload
encode net none host port payload = encode_host host port payload

abbrev pub bind_result : {A B : Type 0} → UdpResult A → (A → UdpResult B) → UdpResult B
bind_result r f = elim r [ ok a ↦ f a | err e ↦ err e ]
