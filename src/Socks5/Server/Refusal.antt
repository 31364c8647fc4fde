-- ===== src/Socks5/Server/Refusal.antt =====
-- What ReadRequest has written when it refuses.
use s5lb.Base.{
  ℕ, ◌≡◌, refl, ◌∙◌, ap, ◌≢◌, ◌⊎◌, inl, inr, true, not, ◌&&◌, ◌==◌, ◌++◌, arith, ltb, length,
  Bool-cases,
}
use s5lb.Socks5.Wire.{
  Bytes, version, cmd_connect, cmd_udp_associate, atyp_ipv4, atyp_domain, atyp_ipv6, at,
  reserved_nonzero, unsupported_cmd, rep_general_failure, rep_command_not_supported,
  rep_addr_type_not_supported, Error, Conn, Outcome, ok, err, Io, and_then, read_full, ignore,
  NetIp,
}
use s5lb.Socks5.Server.{
  Dest, Parsed, request, refused, refuse, with_dest, with_header, read_port, read_domain, read_dest,
  read_request, reply_bytes,
}

-- A call that reads only: what has been written stays, and so does the peer's readiness.
abbrev Quiet : {A : Type 0} → Conn → Outcome A → Type 0
Quiet c (ok a c') = (c'.output ≡ c.output) × (c'.writable ≡ c.writable)
Quiet c (err e c') = (c'.output ≡ c.output) × (c'.writable ≡ c.writable)

module _ {A : Type 0} where
  bind-Quiet :
      {B : Type 0} (o : Outcome B) (f : B → Io A) (c : Conn)
      → Quiet c o
      → ((b : B) (d : Conn) → Quiet d (f b d))
      → Quiet c (and_then o f)
  bind-Quiet (err e c') f c q k = q
  bind-Quiet (ok b c') f c q k = trans (f b c') (k b c')
    where
      trans : (o : Outcome A) → Quiet c' o → Quiet c o
      trans (ok a d) r = (r.0 ∙ q.0, r.1 ∙ q.1)
      trans (err e d) r = (r.0 ∙ q.0, r.1 ∙ q.1)

read_full-Quiet : (n : ℕ) (c : Conn) → Quiet c (read_full n c)
unfolding read_full
read_full-Quiet n c = elim (Bool-cases (ltb (length c.input) n)) [
  | inl e ↦ rw e (refl, refl)
  | inr e ↦ rw e (refl, refl)
]

read_port-Quiet : (raw label : Bytes) (c : Conn) → Quiet c (read_port raw label c)
unfolding read_port
read_port-Quiet raw label c =
    bind-Quiet (read_full 2 c) _ c (read_full-Quiet 2 c) (λ p d. (refl, refl))

read_domain-Quiet : (lb : Bytes) (c : Conn) → Quiet c (read_domain lb c)
unfolding read_domain
read_domain-Quiet lb c = elim (Bool-cases (at lb 0 == 0)) [
  | inl e ↦ rw e (refl, refl)
  | inr e ↦ rw e (
      bind-Quiet (read_full (at lb 0) c) _ c (read_full-Quiet (at lb 0) c)
        (λ dom d. read_port-Quiet (lb ++ dom) dom d))
]

read_dest-Quiet : (net : NetIp) (atyp : ℕ) (c : Conn) → Quiet c (read_dest net atyp c)
unfolding read_dest
read_dest-Quiet net atyp c = elim (Bool-cases (atyp == atyp_ipv4)) [
  | inl e ↦ rw e (
      bind-Quiet (read_full 4 c) _ c (read_full-Quiet 4 c)
        (λ raw d. read_port-Quiet raw (net.text raw) d))
  | inr no4 ↦ rw no4 (elim (Bool-cases (atyp == atyp_ipv6)) [
    | inl e ↦ rw e (
        bind-Quiet (read_full 16 c) _ c (read_full-Quiet 16 c)
          (λ raw d. read_port-Quiet raw (net.text raw) d))
    | inr no6 ↦ rw no6 (elim (Bool-cases (atyp == atyp_domain)) [
      | inl e ↦ rw e (bind-Quiet (read_full 1 c) _ c (read_full-Quiet 1 c) read_domain-Quiet)
      | inr none ↦ rw none (refl, refl)
    ])
  ])
]

-- The reply code is 0 and nothing was written, or the reply with that code was written, and nothing
-- else; a request that is accepted has written nothing.
abbrev pub Told : Conn → Parsed → Type 0
Told c (request r c') = c'.output ≡ c.output
Told c (refused rep e c') =
    ((rep ≡ 0) × (c'.output ≡ c.output)) ⊎ ((rep ≢ 0) × (c'.output ≡ c.output ++ reply_bytes rep))

refuse-Told :
    (rep : ℕ) (e : Error) (c d : Conn)
    → rep ≢ 0
    → d.writable ≡ true
    → d.output ≡ c.output
    → Told c (refuse rep e d)
unfolding refuse ignore
refuse-Told rep e c d ne w o = rw w (inr (ne, ap (λ x. x ++ reply_bytes rep) o))

with_dest-Told :
    (cmd atyp : ℕ) (c : Conn) (o : Outcome Dest)
    → c.writable ≡ true
    → Quiet c o
    → Told c (with_dest cmd atyp o)
unfolding with_dest
with_dest-Told cmd atyp c (ok d c') w q = q.0
with_dest-Told cmd atyp c (err e c') w q =
    refuse-Told rep_addr_type_not_supported e c c' (λ z. omega arith) (q.1 ∙ w) q.0

read_on :
    (net : NetIp) (atyp : ℕ) (c c' : Conn)
    → (c'.output ≡ c.output) × (c'.writable ≡ c.writable)
    → Quiet c (read_dest net atyp c')
read_on net atyp c c' q =
    let o : Outcome (Unit {0}) = ok tt c' in
    bind-Quiet o (λ _. read_dest net atyp) c q (λ _ d. read_dest-Quiet net atyp d)

with_header-Told :
    (net : NetIp) (c : Conn) (o : Outcome Bytes)
    → c.writable ≡ true
    → Quiet c o
    → Told c (with_header net o)
unfolding with_header
with_header-Told net c (err e c') w q = inl (refl, q.0)
with_header-Told net c (ok hdr c') w q = elim (Bool-cases (at hdr 0 == version)) [
  | inr e ↦ rw e (inl (refl, q.0))
  | inl e ↦ rw e (elim (Bool-cases (at hdr 2 == 0)) [
    | inr r ↦
        rw r
          (refuse-Told rep_general_failure reserved_nonzero c c' (λ z. omega arith) (q.1 ∙ w) q.0)
    | inl r ↦
        rw r
          (elim (Bool-cases
            (not (at hdr 1 == cmd_connect) && not (at hdr 1 == cmd_udp_associate))) [
              | inl k ↦ rw k (
                  refuse-Told rep_command_not_supported unsupported_cmd c c' (λ z. omega arith)
                    (q.1 ∙ w) q.0)
              | inr k ↦ rw k (
                  with_dest-Told (at hdr 1) (at hdr 3) c (read_dest net (at hdr 3) c') w
                    (read_on net (at hdr 3) c c' q))
            ])
  ])
]

-- On a connection that can be written, the code that ReadRequest returns is nonzero exactly when it
-- has written the reply with that code; otherwise it has written nothing.
pub read_request-Told : (net : NetIp) (c : Conn) → c.writable ≡ true → Told c (read_request net c)
unfolding read_request
read_request-Told net c w = with_header-Told net c (read_full 4 c) w (read_full-Quiet 4 c)
