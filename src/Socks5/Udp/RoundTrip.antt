-- ===== src/Socks5/Udp/RoundTrip.antt =====
-- DecodeUDPDatagram reads back what EncodeUDPDatagram builds.
use s5lb.Base.{
  ℕ, ◌+◌, ◌%◌, ◌<◌, ◌≡◌, refl, subst, ◌∙◌, true, false, Bool-cases, Option-cases, inl, inr, ltb,
  ◌==◌, if◌then◌else◌, [], ◌∷◌, ◌++◌, Option, none, some, arith, length, take, drop, drop-add,
  length-append, take-length-append, drop-length-append,
}
use s5lb.Socks5.Wire.{Bytes, atyp_ipv4, atyp_domain, atyp_ipv6, at, put_uint16, uint16, NetIp}
use s5lb.Socks5.Udp.{
  UdpError, too_short, invalid_ip, ipv6_truncated, ok, err, finish, decode_domain, decode_ip,
  decode, packet, encode, bind_result,
}

-- The end of the decoder, behind a prefix of `off` bytes.
finish-append :
    (pkt : Bytes) (atyp : ℕ) (host : Bytes) (ip : Option Bytes) (off port : ℕ) (payload : Bytes)
    → port < 65536
    → drop off pkt ≡ put_uint16 port ++ payload
    → finish pkt atyp host ip off
      ≡ ok (record {
        frag = 0;
        atyp = atyp;
        dst_host = host;
        dst_ip = ip;
        dst_port = port;
        payload = payload;
        header_len = off + 2;
      })
unfolding finish put_uint16 uint16
finish-append pkt atyp host ip off port payload small e = rw (drop-add off 2 pkt, e) (ground arith)

module _ (atyp port : ℕ) (payload : Bytes) where
  length-packet :
      (addr : Bytes) → length (packet atyp addr port payload) ≡ 4 + length addr + 2 + length payload
  unfolding packet put_uint16
  length-packet addr = omega (arith, length-append addr (put_uint16 port ++ payload))

  drop-packet :
      (n : ℕ) (addr : Bytes)
      → length addr ≡ n
      → drop (4 + n) (packet atyp addr port payload) ≡ put_uint16 port ++ payload
  unfolding packet
  drop-packet n addr len =
      drop-add 4 n (packet atyp addr port payload)
      ∙ subst (λ k. drop k (addr ++ (put_uint16 port ++ payload)) ≡ put_uint16 port ++ payload) len
          (drop-length-append addr _)

  take-packet :
      (n : ℕ) (addr : Bytes)
      → length addr ≡ n
      → take n (drop 4 (packet atyp addr port payload)) ≡ addr
  unfolding packet
  take-packet n addr len =
      subst (λ k. take k (addr ++ (put_uint16 port ++ payload)) ≡ addr) len
        (take-length-append addr _)

  finish-packet :
      (net : NetIp) (n : ℕ) (addr : Bytes)
      → port < 65536
      → length addr ≡ n
      → let pkt = packet atyp addr port payload in
        let ip = take n (drop 4 pkt) in
        finish pkt atyp (net.text ip) (some ip) (4 + n)
        ≡ ok (record {
          frag = 0;
          atyp = atyp;
          dst_host = net.text addr;
          dst_ip = some addr;
          dst_port = port;
          payload = payload;
          header_len = 4 + n + 2;
        })
  finish-packet net n addr small len = rw (take-packet n addr len) (
      finish-append _ atyp (net.text addr) (some addr) (4 + n) port payload small
        (drop-packet n addr len))

  decode_ip-packet :
      (net : NetIp) (n : ℕ) (e : UdpError) (addr : Bytes)
      → port < 65536
      → length addr ≡ n
      → decode_ip net (packet atyp addr port payload) atyp n e
        ≡ ok (record {
          frag = 0;
          atyp = atyp;
          dst_host = net.text addr;
          dst_ip = some addr;
          dst_port = port;
          payload = payload;
          header_len = 4 + n + 2;
        })
  unfolding decode_ip
  decode_ip-packet net n e addr small len =
      let fits : ltb (length (packet atyp addr port payload)) (4 + n + 2) ≡ false =
        ground (arith, length-packet addr) in
      rw fits (finish-packet net n addr small len)

decode_domain-packet :
    (host : Bytes) (port : ℕ) (payload : Bytes)
    → port < 65536
    → 0 < length host
    → length host < 256
    → decode_domain (packet atyp_domain (length host % 256 ∷ host) port payload)
      ≡ ok (record {
        frag = 0;
        atyp = atyp_domain;
        dst_host = host;
        dst_ip = none;
        dst_port = port;
        payload = payload;
        header_len = 5 + length host + 2;
      })
unfolding decode_domain
decode_domain-packet host port payload small some_len small_len =
    let pkt = packet atyp_domain (length host % 256 ∷ host) port payload in
    let len = length-packet atyp_domain port payload (length host % 256 ∷ host) in
    let long_enough : ltb (length pkt) (4 + 1) ≡ false = ground (arith, len) in
    let is_len : at pkt 4 ≡ length host = unfold packet in omega arith in
    let nonzero : (length host == 0) ≡ false = ground arith in
    let whole : ltb (length pkt) (5 + length host + 2) ≡ false = ground (arith, len) in
    let behind = put_uint16 port ++ payload in
    let host_at : take (length host) (drop 5 pkt) ≡ host =
      unfold packet in take-length-append host behind in
    let port_at : drop (5 + length host) pkt ≡ behind =
      drop-add 5 (length host) pkt ∙ (unfold packet in drop-length-append host behind) in
    rw long_enough (
      rw is_len (
        rw nonzero (
          rw whole (
            rw host_at (
              finish-append pkt atyp_domain host none (5 + length host) port payload small
                port_at)))))

-- A domain name of 1 to 255 bytes and a port below 65536: the encoded datagram decodes to that name, port and payload, if
-- name and payload have at least 3 bytes together; a shorter one, though well formed, is refused as
-- too short.
pub decode-encode_domain :
    (net : NetIp) (host : Bytes) (port : ℕ) (payload : Bytes)
    → port < 65536
    → 0 < length host
    → length host < 256
    → bind_result (encode net none host port payload) (decode net) ≡ (
        if ltb (length host + length payload) 3
        then err too_short
        else ok (record {
          frag = 0;
          atyp = atyp_domain;
          dst_host = host;
          dst_ip = none;
          dst_port = port;
          payload = payload;
          header_len = 5 + length host + 2;
        }))
unfolding encode
decode-encode_domain net [] port payload small some_len small_len = elim some_len [ ]
decode-encode_domain net (b ∷ host) port payload small some_len small_len =
    let name = b ∷ host in
    let pkt = packet atyp_domain (length name % 256 ∷ name) port payload in
    let len = length-packet atyp_domain port payload (length name % 256 ∷ name) in
    let fits : ltb 255 (length name) ≡ false = ground arith in
    rw fits (elim (Bool-cases (ltb (length name + length payload) 3)) [
      | inl short ↦
          let refused : ltb (length pkt) 10 ≡ true = ground (arith, len) in
          rw short (unfold decode in rw refused refl)
      | inr long ↦
          let accepted : ltb (length pkt) 10 ≡ false = ground (arith, len) in
          rw long (
            unfold decode packet in
            rw accepted (decode_domain-packet name port payload small some_len small_len))
    ])

-- A port below 65536 and an address that To4 or To16 makes 4 or 16 bytes: the encoded datagram decodes to those bytes, their
-- text, the port and the payload; with neither form it is not encoded.
pub decode-encode_ip :
    (net : NetIp) (ip host : Bytes) (port : ℕ) (payload : Bytes)
    → port < 65536
    → bind_result (encode net (some ip) host port payload) (decode net) ≡ elim (net.to4 ip) [
      | some v4 ↦ ok (record {
        frag = 0;
        atyp = atyp_ipv4;
        dst_host = net.text v4;
        dst_ip = some v4;
        dst_port = port;
        payload = payload;
        header_len = 10;
      })
      | none ↦ elim (net.to16 ip) [
        | some v6 ↦ ok (record {
          frag = 0;
          atyp = atyp_ipv6;
          dst_host = net.text v6;
          dst_ip = some v6;
          dst_port = port;
          payload = payload;
          header_len = 22;
        })
        | none ↦ err invalid_ip
      ]
    ]
unfolding encode
decode-encode_ip net ip host port payload small = elim (Option-cases (net.to4 ip)) [
  | inl no4 ↦ rw no4 (elim (Option-cases (net.to16 ip)) [
    | inl no16 ↦ rw no16 refl
    | inr (v6, e) ↦
        let len = net.to16_length ip v6 e in
        let accepted : ltb (length (packet atyp_ipv6 v6 port payload)) 10 ≡ false =
          ground (arith, length-packet atyp_ipv6 port payload v6) in
        rw e (
          unfold decode packet in
          rw accepted (decode_ip-packet atyp_ipv6 port payload net 16 ipv6_truncated v6 small len))
  ])
  | inr (v4, e) ↦
      let len = net.to4_length ip v4 e in
      let accepted : ltb (length (packet atyp_ipv4 v4 port payload)) 10 ≡ false =
        ground (arith, length-packet atyp_ipv4 port payload v4) in
      rw e (
        unfold decode packet in
        rw accepted (finish-packet atyp_ipv4 port payload net 4 v4 small len))
]
