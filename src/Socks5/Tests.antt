-- ===== src/Socks5/Tests.antt =====
-- The laws of the wire format at concrete bytes.
use s5lb.Base.{
  ℕ, ◌≡◌, refl, inl, true, false, List, ◌++◌, [], ◌∷◌, Option, none, some, arith, length,
  if◌then◌else◌, ◌==◌,
}
use s5lb.Socks5.Wire.{Bytes, cmd_connect, atyp_domain, Conn, NetIp}
use s5lb.Socks5.Server.{request, read_request}
use s5lb.Socks5.Server.Refusal.{Told, read_request-Told}
use s5lb.Socks5.Client.{request_bytes}
use s5lb.Socks5.Request.{domain, read_request-request_bytes}
use s5lb.Socks5.Pipe.{
  ReadError, fine, end_of_file, Written, done, flush, after_flush, copy, copy_dir,
}
use s5lb.Socks5.Pipe.Laws.{Sent, source, copy_dir-Sent}
use s5lb.Socks5.Udp
use s5lb.Socks5.Udp.{decode, encode, bind_result}
use s5lb.Socks5.Udp.RoundTrip.{decode-encode_domain}

abbrev of_length : ℕ → Bytes → Option Bytes
of_length n ip = if length ip == n then some ip else none

of_length-length : (n : ℕ) (ip v : Bytes) → of_length n ip ≡ some v → length v ≡ n
of_length-length n ip v e = ground arith

-- An IP value is its bytes, and so is its text.
abbrev plain_ip : NetIp
plain_ip = record {
  to4 = of_length 4;
  to16 = of_length 16;
  text = λ ip. ip;
  to4_length = of_length-length 4;
  to16_length = of_length-length 16;
}

abbrev peer : Bytes → Conn
peer input = record { input = input; output = []; writable = true }

-- BIND is refused.
read_request-Told_example :
    Told (peer (5 ∷ 2 ∷ 0 ∷ 1 ∷ [])) (read_request plain_ip (peer (5 ∷ 2 ∷ 0 ∷ 1 ∷ [])))
read_request-Told_example = read_request-Told plain_ip (peer (5 ∷ 2 ∷ 0 ∷ 1 ∷ [])) refl

abbrev ask : Bytes
ask = request_bytes cmd_connect atyp_domain (2 ∷ 97 ∷ 98 ∷ []) 443 ++ 7 ∷ []

read_request-request_bytes_example :
    read_request plain_ip (peer ask)
    ≡ request
        (record {
          cmd = cmd_connect;
          atyp = atyp_domain;
          raw_addr = 2 ∷ 97 ∷ 98 ∷ [];
          port = 443;
          dst_label = 97 ∷ 98 ∷ [];
        })
        (record { input = 7 ∷ []; output = []; writable = true })
read_request-request_bytes_example =
    read_request-request_bytes plain_ip cmd_connect 443 (7 ∷ []) (peer ask)
      (domain (97 ∷ 98 ∷ []) (omega arith) (omega arith)) (inl refl) (omega arith) refl

decode-encode_domain_example :
    bind_result (encode plain_ip none (97 ∷ 98 ∷ []) 53 (1 ∷ 2 ∷ [])) (decode plain_ip)
    ≡ Udp.ok (record {
      frag = 0;
      atyp = atyp_domain;
      dst_host = 97 ∷ 98 ∷ [];
      dst_ip = none;
      dst_port = 53;
      payload = 1 ∷ 2 ∷ [];
      header_len = 9;
    })
decode-encode_domain_example =
    decode-encode_domain plain_ip (97 ∷ 98 ∷ []) 53 (1 ∷ 2 ∷ []) (omega arith) (omega arith)
      (omega arith)

-- Two buffers, the second with the end; the first is taken in two writes.
abbrev reads : List (Bytes × ReadError)
reads = (1 ∷ 2 ∷ 3 ∷ [], fine) ∷ (4 ∷ [], end_of_file) ∷ []

abbrev writes : List Written
writes =
    record { takes = 2; fails = false }
    ∷ record { takes = 9; fails = false }
    ∷ record { takes = 9; fails = false }
    ∷ []

copies : copy_dir reads writes ≡ record { total = 4; out = 1 ∷ 2 ∷ 3 ∷ 4 ∷ []; end = done }
unfolding copy_dir copy flush after_flush
copies = refl

copy_dir-Sent_example : Sent (source reads) (copy_dir reads writes)
copy_dir-Sent_example = copy_dir-Sent reads writes
