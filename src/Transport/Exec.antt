-- ===== src/Transport/Exec.antt =====
-- rawWSSReadLoop in internal/transport/wsexec.go: the messages of an exec WebSocket are sorted by
-- channel. What ReadMessage and enqueueRead return is given with each message; a list that ends is a
-- ReadMessage that has not returned yet. `trim` is strings.TrimSpace.
pub mod Laws
pub mod Dial
mod Tests
use s5lb.Base.{ℕ, Bool, true, false, ◌==◌, if◌then◌else◌, List, [], ◌∷◌, ◌++◌, Option, none, some}
use s5lb.Socks5.Wire.{Bytes}
use s5lb.Transport.Stream.{Error, LimitedBuffer, buffer_write, new_limited_buffer}

pub data MsgType : Type 0 where
  binary_message text_message control_message : MsgType

-- `answer` is the error that enqueueRead returns, if this message is for it.
pub data Received : Type 0 where
  message : MsgType → (payload : Bytes) → (answer : Option Error) → Received
  failed : Error → Received

abbrev pub stdout_channel : ℕ
stdout_channel = 1

abbrev pub stderr_channel : ℕ
stderr_channel = 2

abbrev pub error_channel : ℕ
error_channel = 3

-- The argument of finishRemote.
pub data Ended : Type 0 where
  from_socket from_stream : Error → Ended
  exec_error_with_stderr : (msg stderr : Bytes) → Ended
  exec_error : (msg : Bytes) → Ended
  exec_stderr : (stderr : Bytes) → Ended
  error_channel_closed : Ended

-- `enqueued` is what enqueueRead took, `end` the call of finishRemote, behind which the loop returns.
pub record Loop : Type 0 where
  pub enqueued : List Bytes
  pub stderr : LimitedBuffer
  pub end : Option Ended

unfoldable pub exec_end : Bytes → Bytes → Ended
exec_end [] [] = error_channel_closed
exec_end [] (c ∷ cs) = exec_stderr (c ∷ cs)
exec_end (m ∷ ms) [] = exec_error (m ∷ ms)
exec_end (m ∷ ms) (c ∷ cs) = exec_error_with_stderr (m ∷ ms) (c ∷ cs)

abbrev pub finished : Ended → Loop → Loop
finished e l = record l { end = some e }

-- Behind enqueueRead.
unfoldable pub on_answer : Bytes → Option Error → Loop → Loop
on_answer bytes none l = record l { enqueued = l.enqueued ++ bytes ∷ [] }
on_answer bytes (some e) l = finished (from_stream e) l

-- The switch on the channel.
unfoldable pub on_channel : (Bytes → Bytes) → ℕ → Bytes → Option Error → Loop → Loop
unfolding on_answer exec_end
on_channel trim channel bytes answer l =
    if channel == stdout_channel
    then on_answer bytes answer l
    else if channel == stderr_channel
    then record l { stderr = (buffer_write bytes l.stderr).0 }
    else if channel == error_channel
    then finished (exec_end (trim bytes) (trim l.stderr.buf)) l
    else l

-- One message: control messages and empty ones are skipped.
unfoldable pub on_message : (Bytes → Bytes) → Received → Loop → Loop
unfolding on_channel
on_message trim (failed e) l = finished (from_socket e) l
on_message trim (message control_message payload answer) l = l
on_message trim (message t [] answer) l = l
on_message trim (message t (channel ∷ bytes) answer) l = on_channel trim channel bytes answer l

-- The loop returns where it has called finishRemote.
unfoldable pub unless_ended : Option Ended → Loop → Loop → Loop
unless_ended none next rest = rest
unless_ended (some e) next rest = next

unfoldable pub read_loop : (Bytes → Bytes) → List Received → Loop → Loop
unfolding on_message unless_ended
read_loop trim [] l = l
read_loop trim (m ∷ ms) l =
    let next = on_message trim m l in
    let rest = read_loop trim ms next in unless_ended next.end next rest

-- The stderr limit of the dialer is 32 KiB.
unfoldable pub start : ℕ → Loop
unfolding new_limited_buffer
start limit = record { enqueued = []; stderr = new_limited_buffer limit; end = none }
