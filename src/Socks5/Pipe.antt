-- ===== src/Socks5/Pipe.antt =====
-- internal/socks5/pipe.go: copyDir with an idle timeout, one direction of a tunnel, and the half
-- closes of Pipe. The source and the destination are the results of their Read and Write calls, in
-- order; a list that ends is a call that has not returned yet. A Write takes at most what it is given.
pub mod Laws
use s5lb.Base.{
  ℕ, ◌+◌, Bool, true, false, ltb, ◌==◌, if◌then◌else◌, List, [], ◌∷◌, ◌++◌, length, take, drop,
}
use s5lb.Socks5.Wire.{Bytes}

-- A Read's bytes, with its error.
pub data ReadError : Type 0 where
  fine end_of_file broken : ReadError

-- How many bytes a Write is ready to take, and whether it fails behind them.
pub record Written : Type 0 where
  pub takes : ℕ
  pub fails : Bool

pub data End : Type 0 where
  waiting : End
  done : End
  read_failed write_failed short_write : End

-- `total` is the first result, `out` what has gone into the destination.
pub record Copy : Type 0 where
  pub total : ℕ
  pub out : Bytes
  pub end : End

-- Go on with what the writes have left, or stop.
pub data Flushed : Type 0 where
  flushed : Copy → List Written → Flushed
  stopped : Copy → Flushed

abbrev pub taken : Written → Bytes → Bytes
taken w bs = take w.takes bs

abbrev pub wrote : Bytes → End → Copy → Copy
wrote bs e c = record { total = c.total + length bs; out = c.out ++ bs; end = e }

-- The loop over one buffer: `buf[written:n]` is the second argument.
unfoldable pub flush : List Written → Bytes → Copy → Flushed
flush ws [] c = flushed c ws
flush [] (b ∷ bs) c = stopped c
flush (w ∷ ws) (b ∷ bs) c =
    let n = taken w (b ∷ bs) in
    let rest = flush ws (drop w.takes (b ∷ bs)) (wrote n c.end c) in
    if w.fails
    then stopped (wrote n write_failed c)
    else if length n == 0
    then stopped (wrote n short_write c)
    else rest

abbrev pub ends : End → Copy → Copy
ends e c = record c { end = e }

-- Behind the writes of one Read.
unfoldable pub after_flush : ReadError → (Copy → List Written → Copy) → Flushed → Copy
after_flush e next (stopped c) = c
after_flush fine next (flushed c ws) = next c ws
after_flush end_of_file next (flushed c ws) = ends done c
after_flush broken next (flushed c ws) = ends read_failed c

unfoldable pub copy : List (Bytes × ReadError) → List Written → Copy → Copy
unfolding flush after_flush
copy [] ws c = c
copy ((bs, e) ∷ reads) ws c = after_flush e (λ c' ws'. copy reads ws' c') (flush ws bs c)

unfoldable pub copy_dir : List (Bytes × ReadError) → List Written → Copy
unfolding copy
copy_dir reads ws = copy reads ws (record { total = 0; out = []; end = waiting })

-- The two connections of a tunnel.
pub data Side : Type 0 where
  client upstream : Side

-- What Pipe does to a connection behind the first copy that ends.
pub data Closing : Type 0 where
  closes_write closes : Side → Closing

unfoldable pub half_close : (half_closes : Bool) → Side → Closing
half_close half_closes s = if half_closes then closes_write s else closes s

-- Pipe. `first` is the destination of the copy that ends first; `half_closes` tells which connections can
-- be half-closed. Both copies have ended when it returns their byte counts, up and down.
unfoldable pub pipe : (half_closes : Side → Bool) → (first : Side) → Copy → Copy → Closing × ℕ × ℕ
unfolding half_close
pipe half_closes first up down = (half_close (half_closes first) first, up.total, down.total)
