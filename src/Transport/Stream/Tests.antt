-- ===== src/Transport/Stream/Tests.antt =====
-- A remote sends three bytes and ends; a reader takes them two at a time.
use s5lb.Base.{◌≡◌, ◌≢◌, refl, arith, Bool, true, false, List, [], ◌∷◌, none, some}
use s5lb.Socks5.Wire.{Bytes}
use s5lb.Transport.Stream.{
  remote_read_err, eof, failed, got, took, wrote, panics, Case, channel, Stream, new_stream, read,
  read_pending, read_select, receive, enqueue_select, enqueue_check, enqueue_read, finish_read,
  write, write_select,
}
use s5lb.Transport.Stream.Run.{
  Sys, Run, here, next, reads, writes, enqueues, ends_read, start, Fifo, Bounded, Run-Fifo,
}
use s5lb.Transport.Stream.Ends.{read_end, enqueue_race}

-- The stream, what arrived, what was delivered, what was written.
abbrev state : Bytes → List Bytes → List Bytes → Bool → Bytes → Bytes → Bytes → Sys
state pending read_ch write_ch closed arrived delivered written = record {
  conn = record {
    pending = pending;
    read_ch = read_ch;
    write_ch = write_ch;
    local_done = false;
    remote_done = false;
    read_closed = closed;
    canceled = false;
    remote_err = none;
    finished = false;
  };
  arrived = arrived;
  delivered = delivered;
  written = written;
  handed = [];
}

abbrev at_end : Sys
at_end = state [] [] ((9 ∷ []) ∷ []) true (1 ∷ 2 ∷ 3 ∷ []) (1 ∷ 2 ∷ 3 ∷ []) (9 ∷ [])

session : Run start at_end
unfolding start new_stream read read_pending read_select receive enqueue_select finish_read write
    write_select
session =
    next _ _ _
      (next _ _ _
        (next _ _ _
          (next _ _ _
            (next _ _ _ (here start) (enqueues (1 ∷ 2 ∷ 3 ∷ []) channel _ _ (took 3) refl))
            (reads 2 channel _ _ (got (1 ∷ 2 ∷ [])) refl))
          (writes (9 ∷ []) channel _ _ (wrote 1) refl))
        (ends_read _))
      (reads 2 channel _ _ (got (3 ∷ [])) refl)

Run-Fifo_example : Fifo at_end
Run-Fifo_example = Run-Fifo at_end session

start-Bounded : Bounded start
unfolding start new_stream
start-Bounded = (omega arith, omega arith)

end_read : read 2 channel at_end.conn ≡ some (at_end.conn, failed eof)
unfolding read read_pending read_select receive remote_read_err
end_read = refl

read_end_example : at_end.delivered ≡ at_end.arrived
read_end_example = read_end at_end 2 at_end.conn eof session end_read

open_stream : new_stream.read_closed ≡ false
unfolding new_stream
open_stream = refl

enqueue_race_example :
    (enqueue_check new_stream ≡ true)
    × (enqueue_select (1 ∷ []) channel (finish_read new_stream)
        ≡ some (finish_read new_stream, panics))
    × ((c : Case) (t : Stream) → enqueue_read (1 ∷ []) c new_stream ≢ some (t, panics))
enqueue_race_example = enqueue_race 1 [] new_stream open_stream
