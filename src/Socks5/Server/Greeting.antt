-- ===== src/Socks5/Server/Greeting.antt =====
-- The method negotiation with a client.
use s5lb.Base.{
  ◌<◌, ◌≡◌, refl, true, false, inl, inr, ◌==◌, if◌then◌else◌, [], ◌∷◌, ◌++◌, arith, length,
  Bool-cases,
}
use s5lb.Socks5.Wire.{
  Bytes, version, auth_none, auth_no_accept, no_acceptable_method, Conn, ok, err, write, ignore,
  read_full-append,
}
use s5lb.Socks5.Server.{offers_none, read_greeting}

-- A well-formed greeting that offers `methods` is read to its end, and answered on a connection that
-- can be written: with NoAuth if the client offers it, and otherwise with 0xFF and an error.
pub read_greeting_lem :
    (methods rest : Bytes) (c : Conn)
    → 0 < length methods
    → c.input ≡ (version ∷ length methods ∷ methods) ++ rest
    → c.writable ≡ true
    → read_greeting c ≡ (
        if offers_none methods
        then ok tt (record c { input = rest; output = c.output ++ version ∷ auth_none ∷ [] })
        else err no_acceptable_method
            (record c { input = rest; output = c.output ++ version ∷ auth_no_accept ∷ [] }))
unfolding read_greeting
read_greeting_lem methods rest c some_methods e w =
    let nonzero : (length methods == 0) ≡ false = ground arith in
    rw (read_full-append 2 (version ∷ length methods ∷ []) (methods ++ rest) c refl e) (
      rw nonzero (
        rw
          (read_full-append (length methods) methods rest (record c { input = methods ++ rest })
            refl refl)
          (elim (Bool-cases (offers_none methods)) [
            | inl yes_none ↦ rw yes_none (unfold write in rw w refl)
            | inr no_none ↦ rw no_none (unfold ignore in rw w refl)
          ])))
