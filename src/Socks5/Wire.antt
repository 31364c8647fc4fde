-- ===== src/Socks5/Wire.antt =====
-- Bytes, the protocol's constants, and a connection as the code reads and writes it: what the peer
-- will still send, what has been written to it, and whether a write succeeds. io.ReadFull fails on a
-- stream that ends early.
use mathlib.Core.Path.{ap₂}
use s5lb.Base.{
  ℕ, ◌+◌, ◌*◌, ◌/◌, ◌%◌, ◌<◌, ◌≡◌, Bool, false, ltb, if◌then◌else◌, List, [], ◌∷◌, ◌++◌, Option,
  some, arith, length, take, drop, length-append, take-length-append, drop-length-append, ap, subst,
  ◌∙◌,
}

-- A byte is a number below 256.
abbrev pub Bytes : Type 0
Bytes = List ℕ

module _ where
  abbrev pub version : ℕ
  version = 0x05

  abbrev pub auth_none : ℕ
  auth_none = 0x00

  abbrev pub auth_user_pass : ℕ
  auth_user_pass = 0x02

  abbrev pub auth_no_accept : ℕ
  auth_no_accept = 0xff

  abbrev pub cmd_connect : ℕ
  cmd_connect = 0x01

  abbrev pub cmd_bind : ℕ
  cmd_bind = 0x02

  abbrev pub cmd_udp_associate : ℕ
  cmd_udp_associate = 0x03

  abbrev pub atyp_ipv4 : ℕ
  atyp_ipv4 = 0x01

  abbrev pub atyp_domain : ℕ
  atyp_domain = 0x03

  abbrev pub atyp_ipv6 : ℕ
  atyp_ipv6 = 0x04

  abbrev pub rep_success : ℕ
  rep_success = 0x00

  abbrev pub rep_general_failure : ℕ
  rep_general_failure = 0x01

  abbrev pub rep_command_not_supported : ℕ
  rep_command_not_supported = 0x07

  abbrev pub rep_addr_type_not_supported : ℕ
  rep_addr_type_not_supported = 0x08

pub data Error : Type 0 where
  short_read bad_greeting no_acceptable_method write_failed bad_version reserved_nonzero : Error
  unsupported_cmd unsupported_atyp empty_domain no_credentials credential_too_long : Error
  bad_auth_version auth_rejected unsupported_method : Error

pub record Conn : Type 0 where
  pub input : Bytes
  pub output : Bytes
  pub writable : Bool

-- A call that reads and writes: its result and the connection after it.
pub data Outcome (A : Type 0) : Type 0 where
  ok : A → Conn → Outcome A
  err : Error → Conn → Outcome A

abbrev pub Io : Type 0 → Type 0
Io A = Conn → Outcome A

module _ {A B : Type 0} where
  abbrev pub and_then : Outcome A → (A → Io B) → Outcome B
  and_then (ok a c) f = f a c
  and_then (err e c) f = err e c

  infixl 5 ◌>>=◌ ◌>>◌
  abbrev pub ◌>>=◌ : Io A → (A → Io B) → Io B
  ◌>>=◌ m f c = and_then (m c) f

  abbrev pub ◌>>◌ : Io A → Io B → Io B
  ◌>>◌ m k c = and_then (m c) (λ _. k)

module _ {A : Type 0} where
  abbrev pub pure : A → Io A
  pure a c = ok a c

  abbrev pub fail : Error → Io A
  fail e c = err e c

-- io.ReadFull into a buffer of `n` bytes.
unfoldable pub read_full : ℕ → Io Bytes
read_full n c =
    if ltb (length c.input) n
    then err short_read (record c { input = [] })
    else ok (take n c.input) (record c { input = drop n c.input })

-- A Write whose error the code reads; `ignore` is one whose error it does not.
unfoldable pub write : Bytes → Io (Unit {0})
write bs c = if c.writable then ok tt (record c { output = c.output ++ bs }) else err write_failed c

unfoldable pub ignore : Bytes → Io (Unit {0})
ignore bs c = if c.writable then ok tt (record c { output = c.output ++ bs }) else ok tt c

-- The byte at an index that the code knows to be in range.
abbrev pub at : Bytes → ℕ → ℕ
at [] i = 0
at (b ∷ bs) ℕ.zero = b
at (b ∷ bs) (ℕ.suc i) = at bs i

-- binary.BigEndian.PutUint16 and Uint16.
unfoldable pub put_uint16 : ℕ → Bytes
put_uint16 p = (p / 256) % 256 ∷ p % 256 ∷ []

unfoldable pub uint16 : Bytes → ℕ
uint16 bs = at bs 0 * 256 + at bs 1

pub uint16-put_uint16 : (p : ℕ) → p < 65536 → uint16 (put_uint16 p) ≡ p
unfolding uint16 put_uint16
uint16-put_uint16 p h = omega arith

-- A read of exactly what stands in front of the rest.
pub read_full-append :
    (n : ℕ) (bs rest : Bytes) (c : Conn)
    → length bs ≡ n
    → c.input ≡ bs ++ rest
    → read_full n c ≡ ok bs (record c { input = rest })
unfolding read_full
read_full-append n bs rest c len e =
    subst (λ m. read_full m c ≡ ok bs (record c { input = rest })) len
      (rw fits (
        ap₂ (λ p q. ok p (record c { input = q }))
          (ap (take (length bs)) e ∙ take-length-append bs rest)
          (ap (drop (length bs)) e ∙ drop-length-append bs rest)))
  where
    fits : ltb (length c.input) (length bs) ≡ false
    fits = ground (arith, ap length e, length-append bs rest)

-- The net package's IP values (a slice of 4 or 16 bytes, or of no valid length).
pub record NetIp : Type 0 where
  pub to4 : Bytes → Option Bytes
  pub to16 : Bytes → Option Bytes
  pub text : Bytes → Bytes
  pub to4_length : (ip v : Bytes) → to4 ip ≡ some v → length v ≡ 4
  pub to16_length : (ip v : Bytes) → to16 ip ≡ some v → length v ≡ 16
