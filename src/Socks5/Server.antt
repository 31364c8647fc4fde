-- ===== src/Socks5/Server.antt =====
-- The side that faces the client: ReadGreeting, ReadRequest and the replies.
pub mod Greeting
pub mod Refusal
use s5lb.Base.{
  ℕ, ◌+◌, Bool, true, false, not, ◌&&◌, ◌||◌, ◌==◌, if◌then◌else◌, List, [], ◌∷◌, ◌++◌, Option,
  none, some,
}
use s5lb.Socks5.Wire.{
  Bytes, version, auth_none, auth_no_accept, cmd_connect, cmd_udp_associate, atyp_ipv4, atyp_domain,
  atyp_ipv6, rep_general_failure, rep_command_not_supported, rep_addr_type_not_supported, Error,
  bad_greeting, no_acceptable_method, bad_version, reserved_nonzero, unsupported_cmd,
  unsupported_atyp, empty_domain, Conn, Outcome, ok, err, Io, and_then, ◌>>=◌, ◌>>◌, pure, fail,
  read_full, write, ignore, at, put_uint16, uint16, NetIp,
}

unfoldable pub reply_bytes : ℕ → Bytes
reply_bytes rep = version ∷ rep ∷ 0x00 ∷ atyp_ipv4 ∷ 0 ∷ 0 ∷ 0 ∷ 0 ∷ 0 ∷ 0 ∷ []

reply_to : ℕ → Option Bytes → Option Bytes → ℕ → Bytes
unfolding reply_bytes
reply_to rep (some v4) _ port = (version ∷ rep ∷ 0x00 ∷ atyp_ipv4 ∷ []) ++ (v4 ++ put_uint16 port)
reply_to rep none (some v6) port =
    (version ∷ rep ∷ 0x00 ∷ atyp_ipv6 ∷ []) ++ (v6 ++ put_uint16 port)
reply_to rep none none port = reply_bytes rep

-- A nil IP is `none`.
unfoldable pub build_reply : NetIp → ℕ → Option Bytes → ℕ → Bytes
unfolding reply_to
build_reply net rep none port = reply_bytes rep
build_reply net rep (some ip) port = reply_to rep (net.to4 ip) (net.to16 ip) port

-- The loop over the offered methods.
abbrev pub offers_none : Bytes → Bool
offers_none [] = false
offers_none (m ∷ methods) = m == auth_none || offers_none methods

answer_methods : Bool → Io (Unit {0})
answer_methods false = ignore (version ∷ auth_no_accept ∷ []) >> fail no_acceptable_method
answer_methods true = write (version ∷ auth_none ∷ [])

greeting_methods : Bytes → Io (Unit {0})
unfolding answer_methods
greeting_methods hdr =
    if not (at hdr 0 == version) || at hdr 1 == 0
    then fail bad_greeting
    else do methods ← read_full (at hdr 1); answer_methods (offers_none methods)

unfoldable pub read_greeting : Io (Unit {0})
unfolding greeting_methods
read_greeting = do hdr ← read_full 2; greeting_methods hdr

pub record Dest : Type 0 where
  pub raw : Bytes
  pub port : ℕ
  pub label : Bytes

-- The port behind the address.
unfoldable pub read_port : Bytes → Bytes → Io Dest
read_port raw label = do
  p ← read_full 2
  pure (record { raw = raw; port = uint16 p; label = label })

unfoldable pub read_domain : Bytes → Io Dest
read_domain lb =
    if at lb 0 == 0
    then fail empty_domain
    else do dom ← read_full (at lb 0); read_port (lb ++ dom) dom

unfoldable pub read_dest : NetIp → ℕ → Io Dest
read_dest net atyp =
    if atyp == atyp_ipv4
    then (do raw ← read_full 4; read_port raw (net.text raw))
    else if atyp == atyp_ipv6
    then (do raw ← read_full 16; read_port raw (net.text raw))
    else if atyp == atyp_domain
    then (do lb ← read_full 1; read_domain lb)
    else fail unsupported_atyp

pub record Request : Type 0 where
  pub cmd : ℕ
  pub atyp : ℕ
  pub raw_addr : Bytes
  pub port : ℕ
  pub dst_label : Bytes

-- What ReadRequest returns: a request, or the code of the reply it wrote (0 for none) and the error.
pub data Parsed : Type 0 where
  request : Request → Conn → Parsed
  refused : ℕ → Error → Conn → Parsed

-- Write a reply, whatever becomes of it, and refuse.
refuse : ℕ → Error → Conn → Parsed
refuse rep e c = elim (ignore (reply_bytes rep) c) [
  | ok _ c' ↦ refused rep e c'
  | err _ c' ↦ refused rep e c'
]

with_dest : ℕ → ℕ → Outcome Dest → Parsed
unfolding refuse
with_dest cmd atyp (ok d c) =
    request
      (record { cmd = cmd; atyp = atyp; raw_addr = d.raw; port = d.port; dst_label = d.label }) c
with_dest cmd atyp (err e c) = refuse rep_addr_type_not_supported e c

with_header : NetIp → Outcome Bytes → Parsed
unfolding refuse with_dest
with_header net (err e c) = refused 0 e c
with_header net (ok hdr c) =
    if not (at hdr 0 == version)
    then refused 0 bad_version c
    else if not (at hdr 2 == 0)
    then refuse rep_general_failure reserved_nonzero c
    else if not (at hdr 1 == cmd_connect) && not (at hdr 1 == cmd_udp_associate)
    then refuse rep_command_not_supported unsupported_cmd c
    else with_dest (at hdr 1) (at hdr 3) (read_dest net (at hdr 3) c)

unfoldable pub read_request : NetIp → Conn → Parsed
unfolding with_header
read_request net c = with_header net (read_full 4 c)
