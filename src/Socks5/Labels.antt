-- ===== src/Socks5/Labels.antt =====
-- AtypLabel, CmdLabel and ReplyLabel in internal/socks5/protocol.go: the values of the metrics' labels.
-- `hex` is fmt.Sprintf with the format 0x%02x.
use s5lb.Base.{ℕ, ◌≡◌, refl, ◌==◌, if◌then◌else◌, String}
use s5lb.Socks5.Wire.{
  atyp_ipv4, atyp_ipv6, atyp_domain, cmd_connect, cmd_bind, cmd_udp_associate,
  rep_command_not_supported,
}

unfoldable pub atyp_label : ℕ → String
atyp_label a =
    if a == atyp_ipv4
    then "ipv4"
    else if a == atyp_ipv6
    then "ipv6"
    else if a == atyp_domain
    then "domain"
    else "unknown"

unfoldable pub cmd_label : (ℕ → String) → ℕ → String
cmd_label hex c =
    if c == cmd_connect
    then "connect"
    else if c == cmd_bind
    then "bind"
    else if c == cmd_udp_associate
    then "udp_associate"
    else hex c

-- The codes are the constants RepSuccess to RepAddrTypeNotSupported.
unfoldable pub reply_label : (ℕ → String) → ℕ → String
reply_label hex r =
    if r == 0
    then "success"
    else if r == 1
    then "general_failure"
    else if r == 2
    then "not_allowed"
    else if r == 3
    then "net_unreachable"
    else if r == 4
    then "host_unreachable"
    else if r == 5
    then "refused"
    else if r == 6
    then "ttl_expired"
    else if r == 7
    then "cmd_unsupported"
    else if r == 8
    then "atyp_unsupported"
    else hex r

one_of_each :
    (reply_label (λ r. "0x0b") rep_command_not_supported ≡ "cmd_unsupported")
    × (reply_label (λ r. "0x0b") 11 ≡ "0x0b")
unfolding reply_label
one_of_each = (refl, refl)
