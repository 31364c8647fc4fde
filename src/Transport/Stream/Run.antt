-- ===== src/Transport/Stream/Run.antt =====
-- Runs of stream_conn.go. The callers of Read and Write, the pump, the remote reader, Close and
-- finishRemote interleave; each select and each part of finishRemote is a step. enqueueRead's check
-- and its select are two, so the select may follow anything.
use s5lb.Base.{
  ℕ, ◌≤◌, ◌≡◌, refl, sym, ap, ◌∙◌, [], ◌++◌, Option, some, append_assoc, Bool-cases, inl, inr,
  arith, length,
}
use s5lb.Socks5.Wire.{Bytes}
use s5lb.Transport.Stream.{
  Error, Stream, Reading, Writing, Enqueued, Pumped, Case, chan_cap, read, write, enqueue_select,
  pump, close_local, finish_err, finish_done, finish_read, finish_cancel, new_stream,
}
use s5lb.Transport.Stream.Flow.{
  bytes_read, bytes_written, bytes_enqueued, bytes_pumped, unread, unsent, of_OnSome, ReadKept,
  WriteKept, EnqueueKept, PumpKept, read-ReadKept, write-WriteKept, enqueue_select-EnqueueKept,
  pump-PumpKept,
}

-- The stream and what has gone through it: from the remote, to Read's callers, from Write's callers,
-- and to the remote.
pub record Sys : Type 0 where
  pub conn : Stream
  pub arrived : Bytes
  pub delivered : Bytes
  pub written : Bytes
  pub handed : Bytes

pub data Step : Sys → Sys → Type 0 where
  reads :
      (n : ℕ) (c : Case) (y : Sys) (t : Stream) (r : Reading)
      → read n c y.conn ≡ some (t, r)
      → Step y (record y { conn = t; delivered = y.delivered ++ bytes_read r })
  writes :
      (p : Bytes) (c : Case) (y : Sys) (t : Stream) (w : Writing)
      → write p c y.conn ≡ some (t, w)
      → Step y (record y { conn = t; written = y.written ++ bytes_written p w })
  enqueues :
      (p : Bytes) (c : Case) (y : Sys) (t : Stream) (w : Enqueued)
      → enqueue_select p c y.conn ≡ some (t, w)
      → Step y (record y { conn = t; arrived = y.arrived ++ bytes_enqueued p w })
  pumps :
      (sends : Bytes → Option Error) (y : Sys) (t : Stream) (w : Pumped)
      → pump sends y.conn ≡ some (t, w)
      → Step y (record y { conn = t; handed = y.handed ++ bytes_pumped w })
  closes : (y : Sys) → Step y (record y { conn = close_local y.conn })
  ends_err : (e : Option Error) (y : Sys) → Step y (record y { conn = finish_err e y.conn })
  ends_done : (y : Sys) → Step y (record y { conn = finish_done y.conn })
  ends_read : (y : Sys) → Step y (record y { conn = finish_read y.conn })
  ends_cancel : (y : Sys) → Step y (record y { conn = finish_cancel y.conn })

pub data Run : Sys → Sys → Type 0 where
  here : (y : Sys) → Run y y
  next : (x y z : Sys) → Run x y → Step y z → Run x z

unfoldable pub start : Sys
start = record { conn = new_stream; arrived = []; delivered = []; written = []; handed = [] }

-- Both directions are queues: what has gone in is what has come out, and behind it what waits.
abbrev pub Fifo : Sys → Type 0
Fifo y = (y.delivered ++ unread y.conn ≡ y.arrived) × (y.handed ++ unsent y.conn ≡ y.written)

-- Neither channel holds more than its capacity.
abbrev pub Bounded : Sys → Type 0
Bounded y = (length y.conn.read_ch ≤ chan_cap) × (length y.conn.write_ch ≤ chan_cap)

module _ (out x rest queue inn : Bytes) where
  out_front : x ++ rest ≡ queue → out ++ queue ≡ inn → (out ++ x) ++ rest ≡ inn
  out_front e f = append_assoc out x rest ∙ ap (◌++◌ out) e ∙ f

  in_back : rest ≡ queue ++ x → out ++ queue ≡ inn → out ++ rest ≡ inn ++ x
  in_back e f = ap (◌++◌ out) e ∙ sym (append_assoc out queue x) ∙ ap (λ t. t ++ x) f

Step-Fifo : (y z : Sys) → Step y z → Fifo y → Fifo z
unfolding close_local finish_err finish_done finish_read finish_cancel
Step-Fifo _ _ (reads n c y t r e) (up, down) =
    let (kept, same, _) = of_OnSome (ReadKept y.conn) _ _ e (read-ReadKept n c y.conn) in
    (out_front _ _ _ _ _ kept up, rw same down)
Step-Fifo _ _ (writes p c y t w e) (up, down) =
    let (kept, same, same', _) =
      of_OnSome (WriteKept p y.conn) _ _ e (write-WriteKept p c y.conn) in
    (rw (same, same') up, in_back _ _ _ _ _ kept down)
Step-Fifo _ _ (enqueues p c y t w e) (up, down) =
    let (kept, same, _) =
      of_OnSome (EnqueueKept p y.conn) _ _ e (enqueue_select-EnqueueKept p c y.conn) in
    (in_back _ _ _ _ _ kept up, rw same down)
Step-Fifo _ _ (pumps sends y t w e) (up, down) =
    let (kept, same, same', _) = of_OnSome (PumpKept y.conn) _ _ e (pump-PumpKept sends y.conn) in
    (rw (same, same') up, out_front _ _ _ _ _ kept down)
Step-Fifo _ _ (closes y) held = elim (Bool-cases y.conn.local_done) [
  | inl h ↦ rw h held
  | inr h ↦ rw h held
]
Step-Fifo _ _ (ends_err e y) held = held
Step-Fifo _ _ (ends_done y) held = held
Step-Fifo _ _ (ends_read y) held = held
Step-Fifo _ _ (ends_cancel y) held = held

-- No byte is lost, repeated or reordered: however the goroutines interleave, what Read has returned
-- and behind it what waits in `pending` and `readCh` is what enqueueRead took, and what `send` was
-- given and behind it what waits in `writeCh` is what Write took.
pub Run-Fifo : (y : Sys) → Run start y → Fifo y
unfolding start new_stream
Run-Fifo y run = go y run
  where
    go : (z : Sys) → Run start z → Fifo z
    go _ (here _) = (refl, refl)
    go _ (next _ z w before step) = Step-Fifo z w step (go z before)

Step-Bounded : (y z : Sys) → Step y z → Bounded y → Bounded z
unfolding close_local finish_err finish_done finish_read finish_cancel
Step-Bounded _ _ (reads n c y t r e) (up, down) =
    let (_, same, fewer) = of_OnSome (ReadKept y.conn) _ _ e (read-ReadKept n c y.conn) in
    (omega arith, rw same down)
Step-Bounded _ _ (writes p c y t w e) (up, down) =
    let (_, _, same, room) = of_OnSome (WriteKept p y.conn) _ _ e (write-WriteKept p c y.conn) in
    (rw same up, room down)
Step-Bounded _ _ (enqueues p c y t w e) (up, down) =
    let (_, same, room) =
      of_OnSome (EnqueueKept p y.conn) _ _ e (enqueue_select-EnqueueKept p c y.conn) in
    (room up, rw same down)
Step-Bounded _ _ (pumps sends y t w e) (up, down) =
    let (_, _, same, fewer) = of_OnSome (PumpKept y.conn) _ _ e (pump-PumpKept sends y.conn) in
    (rw same up, omega arith)
Step-Bounded _ _ (closes y) held = elim (Bool-cases y.conn.local_done) [
  | inl h ↦ rw h held
  | inr h ↦ rw h held
]
Step-Bounded _ _ (ends_err e y) held = held
Step-Bounded _ _ (ends_done y) held = held
Step-Bounded _ _ (ends_read y) held = held
Step-Bounded _ _ (ends_cancel y) held = held

-- However the goroutines interleave, no more than 64 chunks wait in each of the two channels.
pub Run-Bounded : (y z : Sys) → Run y z → Bounded y → Bounded z
Run-Bounded _ _ (here y) held = held
Run-Bounded _ _ (next x y z before step) held = Step-Bounded y z step (Run-Bounded x y before held)
