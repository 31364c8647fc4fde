-- ===== src/Transport/Stream.antt =====
-- internal/transport/stream_conn.go: an exec or WebSocket stream as a net.Conn. A channel of chunks is
-- a list, oldest first, with its capacity and its closed flag; a channel that is only ever closed is a
-- flag. A select is one atomic step; the environment says which of its cases fires, and `none` says
-- that this case is not ready. A deadline's timer and its change are such cases.
pub mod Flow
pub mod Run
pub mod Ends
pub mod Captured
mod Tests
use s5lb.Base.{
  ℕ, zero, suc, ◌-◌, ◌<◌, Bool, true, false, not, ◌==◌, ltb, if◌then◌else◌, List, [], ◌∷◌, ◌++◌,
  Option, none, some, length, take, drop,
}
use s5lb.Socks5.Wire.{Bytes}

-- `net_closed` is net.ErrClosed and `stream_closed` errStreamClosed; `other` is any error of the remote.
pub data Error : Type 0 where
  eof net_closed stream_closed read_timeout write_timeout context_canceled : Error
  other : ℕ → Error

pub record Stream : Type 0 where
  pub pending : Bytes
  pub read_ch : List Bytes
  pub write_ch : List Bytes
  pub local_done : Bool
  pub remote_done : Bool
  pub read_closed : Bool
  pub canceled : Bool
  pub remote_err : Option Error
  pub finished : Bool

abbrev pub chan_cap : ℕ
chan_cap = 64

pub new_stream : Stream
new_stream = record {
  pending = [];
  read_ch = [];
  write_ch = [];
  local_done = false;
  remote_done = false;
  read_closed = false;
  canceled = false;
  remote_err = none;
  finished = false;
}

-- What Read returns: bytes, an error, or another round of its loop.
pub data Reading : Type 0 where
  got : Bytes → Reading
  failed : Error → Reading
  again : Reading

-- The case of a select that fires.
pub data Case : Type 0 where
  channel timer changed local remote context : Case

unfoldable pub remote_read_err : Option Error → Error
remote_read_err none = eof
remote_read_err (some context_canceled) = eof
remote_read_err (some e) = e

abbrev pub when {ℓ} : {A : Type ℓ} → Bool → A → Option A
when ready a = if ready then some a else none

-- `<-c.readCh`: the buffered chunks, and then the end of a closed channel.
unfoldable pub receive : ℕ → Stream → List Bytes → Option (Stream × Reading)
receive n s [] = when s.read_closed (s, failed (remote_read_err s.remote_err))
receive n s (b ∷ rest) =
    let taken = record s { read_ch = rest } in
    some (if ltb n (length b) then record taken { pending = drop n b } else taken, got (take n b))

unfoldable pub read_select : ℕ → Case → Stream → Option (Stream × Reading)
unfolding receive
read_select n channel s = receive n s s.read_ch
read_select n timer s = some (s, failed read_timeout)
read_select n changed s = some (s, again)
read_select n local s = when s.local_done (s, failed net_closed)
read_select n remote s = none
read_select n context s = when s.canceled (s, failed net_closed)

unfoldable pub read_pending : ℕ → Case → Stream → Bytes → Option (Stream × Reading)
unfolding read_select
read_pending n c s [] = read_select n c s
read_pending n c s (b ∷ bs) = some (record s { pending = drop n (b ∷ bs) }, got (take n (b ∷ bs)))

-- Read into a buffer of `n` bytes, up to its next select.
unfoldable pub read : ℕ → Case → Stream → Option (Stream × Reading)
unfolding read_pending
read zero c s = some (s, got [])
read (suc n) c s = read_pending (suc n) c s s.pending

pub data Writing : Type 0 where
  wrote : ℕ → Writing
  failed : Error → Writing
  again : Writing

unfoldable pub write_select : Bytes → Case → Stream → Option (Stream × Writing)
write_select p channel s =
    when (ltb (length s.write_ch) chan_cap)
      (record s { write_ch = s.write_ch ++ p ∷ [] }, wrote (length p))
write_select p timer s = some (s, failed write_timeout)
write_select p changed s = some (s, again)
write_select p local s = when s.local_done (s, failed net_closed)
write_select p remote s = when s.remote_done (s, failed stream_closed)
write_select p context s = when s.canceled (s, failed net_closed)

-- Write, up to its next select.
unfoldable pub write : Bytes → Case → Stream → Option (Stream × Writing)
unfolding write_select
write [] c s = some (s, wrote 0)
write (b ∷ bs) c s = write_select (b ∷ bs) c s

-- Close: the context, closeFn (which does not read the stream) and localDone.
unfoldable pub close_local : Stream → Stream
close_local s = if s.local_done then s else record s { canceled = true; local_done = true }

-- finishRemote in its parts, each of which other goroutines can see by itself. `finished` is the Once.
unfoldable pub finish_err : Option Error → Stream → Stream
finish_err e s = record s { finished = true; remote_err = e }

unfoldable pub finish_done : Stream → Stream
finish_done s = record s { remote_done = true }

unfoldable pub finish_read : Stream → Stream
finish_read s = record s { read_closed = true }

unfoldable pub finish_cancel : Stream → Stream
finish_cancel s = record s { canceled = true }

unfoldable pub finish_remote : Option Error → Stream → Stream
unfolding finish_err finish_done finish_read finish_cancel
finish_remote e s =
    if s.finished then s else finish_cancel (finish_read (finish_done (finish_err e s)))

-- What enqueueRead returns; a send on a closed channel panics.
pub data Enqueued : Type 0 where
  took : ℕ → Enqueued
  refused : Error → Enqueued
  panics : Enqueued

-- The look at readClosed, which gives up the lock before the select.
unfoldable pub enqueue_check : Stream → Bool
enqueue_check s = not s.read_closed

unfoldable pub enqueue_select : Bytes → Case → Stream → Option (Stream × Enqueued)
enqueue_select p channel s =
    if s.read_closed
    then some (s, panics)
    else when (ltb (length s.read_ch) chan_cap)
        (record s { read_ch = s.read_ch ++ p ∷ [] }, took (length p))
enqueue_select p timer s = none
enqueue_select p changed s = none
enqueue_select p local s = when s.local_done (s, refused net_closed)
enqueue_select p remote s = when s.remote_done (s, refused net_closed)
enqueue_select p context s = when s.canceled (s, refused net_closed)

-- enqueueRead with nothing between its check and its select.
unfoldable pub enqueue_read : Bytes → Case → Stream → Option (Stream × Enqueued)
unfolding enqueue_check enqueue_select
enqueue_read [] c s = some (s, took 0)
enqueue_read (b ∷ bs) c s =
    if enqueue_check s then enqueue_select (b ∷ bs) c s else some (s, refused net_closed)

-- writePump takes a chunk. `sends` is the error of `send`; a nil `send` is one that always returns
-- errStreamClosed, which is what the source reports then. An empty chunk is not sent.
pub data Pumped : Type 0 where
  sent : Bytes → Pumped
  dropped : Bytes → Error → Pumped

unfoldable pub pump_chunk : (Bytes → Option Error) → Stream → List Bytes → Option (Stream × Pumped)
pump_chunk sends s [] = none
pump_chunk sends s ([] ∷ rest) = some (record s { write_ch = rest }, sent [])
pump_chunk sends s ((b ∷ bs) ∷ rest) =
    let taken = record s { write_ch = rest } in
    elim (sends (b ∷ bs)) [
      | none ↦ some (taken, sent (b ∷ bs))
      | some e ↦ some (taken, dropped (b ∷ bs) e)
    ]

-- One round of writePump on the channel. Behind `dropped` it calls finishRemote and returns.
unfoldable pub pump : (Bytes → Option Error) → Stream → Option (Stream × Pumped)
unfolding pump_chunk
pump sends s = pump_chunk sends s s.write_ch

-- The stderr capture: limitedBuffer.Write keeps the first `limit` bytes, and reports all as written.
pub record LimitedBuffer : Type 0 where
  pub limit : ℕ
  pub buf : Bytes

unfoldable pub buffer_write : Bytes → LimitedBuffer → LimitedBuffer × ℕ
buffer_write p b =
    if ltb (length b.buf) b.limit
    then (
      record b {
        buf =
            b.buf
            ++ (if ltb (b.limit - length b.buf) (length p)
                then take (b.limit - length b.buf) p
                else p);
      },
      length p,
    )
    else (b, length p)

unfoldable pub new_limited_buffer : ℕ → LimitedBuffer
new_limited_buffer limit = record { limit = limit; buf = [] }
