-- ===== src/Socks5/Request.antt =====
-- The two sides of the request agree: ReadRequest reads what clientRequest writes, and nothing else.
use mathlib.Core.List.{append_assoc}
use s5lb.Base.{
  ℕ, ◌<◌, ◌≡◌, refl, ap, ◌∙◌, ◌⊎◌, false, [], ◌∷◌, ◌++◌, arith, length, not, ◌&&◌, ◌==◌,
}
use s5lb.Socks5.Wire.{
  Bytes, version, cmd_connect, cmd_udp_associate, atyp_ipv4, atyp_domain, atyp_ipv6, Conn, ok,
  put_uint16, uint16-put_uint16, read_full-append, NetIp,
}
use s5lb.Socks5.Server.{read_dest, request, read_request, read_port, read_domain}
use s5lb.Socks5.Client.{request_bytes}

-- The address bytes of a request: 4, 16, or a length byte and that many.
pub data IsRaw (net : NetIp) : ℕ → Bytes → Bytes → Type 0 where
  ipv4 : (raw : Bytes) → length raw ≡ 4 → IsRaw net atyp_ipv4 raw (net.text raw)
  ipv6 : (raw : Bytes) → length raw ≡ 16 → IsRaw net atyp_ipv6 raw (net.text raw)
  domain :
      (dom : Bytes)
      → 0 < length dom
      → length dom < 256
      → IsRaw net atyp_domain (length dom ∷ dom) dom

read_port-append :
    (raw label : Bytes) (port : ℕ) (rest : Bytes) (c : Conn)
    → port < 65536
    → c.input ≡ put_uint16 port ++ rest
    → read_port raw label c
      ≡ ok (record { raw = raw; port = port; label = label }) (record c { input = rest })
unfolding read_port
read_port-append raw label port rest c small e =
    rw (read_full-append 2 (put_uint16 port) rest c (unfold put_uint16 in refl) e)
      (rw (uint16-put_uint16 port small) refl)

module _ (net : NetIp) where
  read_dest-IsRaw :
      {atyp : ℕ} {raw label : Bytes} (port : ℕ) (rest : Bytes) (c : Conn)
      → IsRaw net atyp raw label
      → port < 65536
      → c.input ≡ raw ++ (put_uint16 port ++ rest)
      → read_dest net atyp c
        ≡ ok (record { raw = raw; port = port; label = label }) (record c { input = rest })
  unfolding read_dest read_domain
  read_dest-IsRaw port rest c (ipv4 raw len) small e =
      rw (read_full-append 4 raw (put_uint16 port ++ rest) c len e)
        (read_port-append raw (net.text raw) port rest _ small refl)
  read_dest-IsRaw port rest c (ipv6 raw len) small e =
      rw (read_full-append 16 raw (put_uint16 port ++ rest) c len e)
        (read_port-append raw (net.text raw) port rest _ small refl)
  read_dest-IsRaw port rest c (domain dom some_len small_len) small e =
      let behind = put_uint16 port ++ rest in
      let nonzero : (length dom == 0) ≡ false = ground arith in
      rw (read_full-append 1 (length dom ∷ []) (dom ++ behind) c refl e) (
        rw nonzero (
          rw
            (read_full-append (length dom) dom behind (record c { input = dom ++ behind }) refl
              refl)
            (read_port-append (length dom ∷ dom) dom port rest _ small refl)))

  -- ReadRequest reads back each request that clientRequest writes for CONNECT or UDP ASSOCIATE and a
  -- well-formed address: the same command, address and port, the label that belongs to the address,
  -- nothing of what follows is consumed, and no reply is written.
  pub read_request-request_bytes :
      {atyp : ℕ} {raw label : Bytes} (cmd port : ℕ) (rest : Bytes) (c : Conn)
      → IsRaw net atyp raw label
      → (cmd ≡ cmd_connect) ⊎ (cmd ≡ cmd_udp_associate)
      → port < 65536
      → c.input ≡ request_bytes cmd atyp raw port ++ rest
      → read_request net c
        ≡ request
            (record { cmd = cmd; atyp = atyp; raw_addr = raw; port = port; dst_label = label })
            (record c { input = rest })
  unfolding read_request request_bytes
  read_request-request_bytes {atyp} {raw} cmd port rest c h cmds small e =
      let hdr : Bytes = version ∷ cmd ∷ 0x00 ∷ atyp ∷ [] in
      let behind = raw ++ (put_uint16 port ++ rest) in
      let known : (not (cmd == cmd_connect) && not (cmd == cmd_udp_associate)) ≡ false =
        ground arith in
      rw
        (read_full-append 4 hdr behind c refl
          (e ∙ ap (λ l. version ∷ cmd ∷ 0x00 ∷ atyp ∷ l) (append_assoc raw (put_uint16 port) rest)))
        (rw known (rw (read_dest-IsRaw port rest (record c { input = behind }) h small refl) refl))
