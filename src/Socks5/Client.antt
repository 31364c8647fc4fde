-- ===== src/Socks5/Client.antt =====
-- The side that faces an upstream: ClientHandshake and clientRequest, and the metric labels.
use s5lb.Base.{
  ℕ, ◌%◌, Bool, true, false, not, ◌||◌, ltb, ◌==◌, if◌then◌else◌, String, [], ◌∷◌, ◌++◌, Option,
  none, some, length,
}
use s5lb.Socks5.Wire.{
  Bytes, version, auth_none, auth_user_pass, auth_no_accept, cmd_connect, cmd_udp_associate,
  atyp_ipv4, atyp_domain, atyp_ipv6, no_acceptable_method, bad_version, reserved_nonzero,
  unsupported_atyp, no_credentials, credential_too_long, bad_auth_version, auth_rejected,
  unsupported_method, Io, ◌>>=◌, ◌>>◌, pure, fail, read_full, write, at, put_uint16, uint16,
}

abbrev is_empty : Bytes → Bool
is_empty [] = true
is_empty (b ∷ bs) = false

unfoldable pub greeting_for : Bool → Bytes
greeting_for true = version ∷ 0x02 ∷ auth_none ∷ auth_user_pass ∷ []
greeting_for false = version ∷ 0x01 ∷ auth_none ∷ []

auth_reply : Bytes → Io (Unit {0})
auth_reply ar =
    if not (at ar 0 == 0x01)
    then fail bad_auth_version
    else if not (at ar 1 == 0x00)
    then fail auth_rejected
    else pure tt

authenticate : Bytes → Bytes → Io (Unit {0})
unfolding auth_reply
authenticate user pass =
    if ltb 255 (length user) || ltb 255 (length pass) then fail credential_too_long else do
      write ((0x01 ∷ length user % 256 ∷ []) ++ (user ++ (length pass % 256 ∷ pass)))
      ar ← read_full 2
      auth_reply ar

negotiate : Bool → Bytes → Bytes → Bytes → Io (Unit {0})
unfolding authenticate
negotiate have_creds user pass resp =
    if not (at resp 0 == version)
    then fail bad_version
    else if at resp 1 == auth_none
    then pure tt
    else if at resp 1 == auth_user_pass
    then (if not have_creds then fail no_credentials else authenticate user pass)
    else if at resp 1 == auth_no_accept
    then fail no_acceptable_method
    else fail unsupported_method

unfoldable pub client_handshake : Bytes → Bytes → Io (Unit {0})
unfolding negotiate greeting_for
client_handshake user pass =
    let have_creds = not (is_empty user) || not (is_empty pass) in
    do write (greeting_for have_creds); resp ← read_full 2; negotiate have_creds user pass resp

-- `bind_ip` is nil unless the reply has an IP address, `bind_host` is empty unless it has a domain.
pub record Reply : Type 0 where
  pub rep : ℕ
  pub bind_atyp : ℕ
  pub bind_ip : Option Bytes
  pub bind_host : Bytes
  pub bind_port : ℕ

bind_port : ℕ → ℕ → Option Bytes → Bytes → Io Reply
bind_port rep atyp ip host = do
  pb ← read_full 2
  pure (record {
    rep = rep;
    bind_atyp = atyp;
    bind_ip = ip;
    bind_host = host;
    bind_port = uint16 pb;
  })

bind_addr : ℕ → ℕ → Io Reply
unfolding bind_port
bind_addr rep atyp =
    if atyp == atyp_ipv4
    then (do buf ← read_full 4; bind_port rep atyp (some buf) [])
    else if atyp == atyp_ipv6
    then (do buf ← read_full 16; bind_port rep atyp (some buf) [])
    else if atyp == atyp_domain
    then (do lb ← read_full 1; dom ← read_full (at lb 0); bind_port rep atyp none dom)
    else fail unsupported_atyp

reply_header : Bytes → Io Reply
unfolding bind_addr
reply_header hdr =
    if not (at hdr 0 == version)
    then fail bad_version
    else if not (at hdr 2 == 0x00)
    then fail reserved_nonzero
    else bind_addr (at hdr 1) (at hdr 3)

unfoldable pub request_bytes : ℕ → ℕ → Bytes → ℕ → Bytes
request_bytes cmd atyp raw_addr port =
    (version ∷ cmd ∷ 0x00 ∷ atyp ∷ []) ++ (raw_addr ++ put_uint16 port)

unfoldable pub client_request : ℕ → ℕ → Bytes → ℕ → Io Reply
unfolding reply_header
client_request cmd atyp raw_addr port = do
  write (request_bytes cmd atyp raw_addr port)
  hdr ← read_full 4
  reply_header hdr

unfoldable pub client_connect : ℕ → Bytes → ℕ → Io Reply
client_connect atyp raw_addr port = client_request cmd_connect atyp raw_addr port

unfoldable pub client_udp_associate : ℕ → Bytes → ℕ → Io Reply
client_udp_associate atyp raw_addr port = client_request cmd_udp_associate atyp raw_addr port

unfoldable pub atyp_label : ℕ → String
atyp_label a =
    if a == atyp_ipv4
    then "ipv4"
    else if a == atyp_ipv6
    then "ipv6"
    else if a == atyp_domain
    then "domain"
    else "unknown"
