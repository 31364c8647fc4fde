-- ===== src/Transport/Stream/Ends.antt =====
-- The ends of a stream in stream_conn.go: what Read and enqueueRead do about them.
use s5lb.Base.{
  OnSome, ℕ, zero, suc, ◌≡◌, ◌≢◌, refl, sym, ap, ◌∙◌, Bool-cases, inl, inr, true, false, ltb, List,
  [], ◌∷◌, ◌++◌, some, length, append_nil,
}
use s5lb.Socks5.Wire.{Bytes}
use s5lb.Transport.Stream.{
  Error, Stream, Reading, Enqueued, Case, took, refused, chan_cap, finish_read, read, read_pending,
  read_select, receive, channel, failed, again, got, enqueue_read, panics, local, remote, context,
  timer, changed, enqueue_select, enqueue_check,
}
use s5lb.Transport.Stream.Flow.{unread, of_OnSome, OnSome-when}
use s5lb.Transport.Stream.Run.{Sys, Run, start, Run-Fifo}

-- A result that ends the stream came behind the last byte.
abbrev EndKept : Stream → Stream × Reading → Type 0
EndKept s (t, got bs) = Unit
EndKept s (t, failed e) = unread s ≡ []
EndKept s (t, again) = Unit

receive-EndKept :
    (n : ℕ) (s : Stream) (chunks : List Bytes)
    → s.pending ≡ []
    → s.read_ch ≡ chunks
    → OnSome (EndKept s) (receive n s chunks)
unfolding receive OnSome
receive-EndKept n s [] e f = OnSome-when (EndKept s) s.read_closed _ (λ _. rw (e, f) refl)
receive-EndKept n s (b ∷ rest) e f = tt

pending-EndKept :
    (n : ℕ) (s : Stream) (bs : Bytes)
    → s.pending ≡ bs
    → OnSome (EndKept s) (read_pending n channel s bs)
unfolding read_pending read_select OnSome
pending-EndKept n s [] e = receive-EndKept n s s.read_ch e refl
pending-EndKept n s (b ∷ bs) e = tt

read-EndKept : (n : ℕ) (s : Stream) → OnSome (EndKept s) (read n channel s)
unfolding read OnSome
read-EndKept zero s = tt
read-EndKept (suc n) s = pending-EndKept (suc n) s s.pending refl

-- The end is not reported early by `readCh`: in every interleaving, when a Read gets an error (or EOF) from `readCh`, the callers of Read have been given all the bytes that enqueueRead took.
pub read_end :
    (y : Sys) (n : ℕ) (t : Stream) (e : Error)
    → Run start y
    → read n channel y.conn ≡ some (t, failed e)
    → y.delivered ≡ y.arrived
read_end y n t e run h =
    sym (append_nil y.delivered)
    ∙ ap (◌++◌ y.delivered) (sym (of_OnSome (EndKept y.conn) _ _ h (read-EndKept n y.conn)))
    ∙ (Run-Fifo y run).0

-- A result is not a panic.
abbrev Orderly : Stream × Enqueued → Type 0
Orderly (t, took n) = Unit
Orderly (t, refused e) = Unit
Orderly (t, panics) = ⊥

select-Orderly :
    (p : Bytes) (c : Case) (s : Stream)
    → s.read_closed ≡ false
    → OnSome Orderly (enqueue_select p c s)
unfolding enqueue_select OnSome
select-Orderly p channel s h =
    rw h (OnSome-when Orderly (ltb (length s.read_ch) chan_cap) _ (λ _. tt))
select-Orderly p timer s h = tt
select-Orderly p changed s h = tt
select-Orderly p local s h = OnSome-when Orderly s.local_done _ (λ _. tt)
select-Orderly p remote s h = OnSome-when Orderly s.remote_done _ (λ _. tt)
select-Orderly p context s h = OnSome-when Orderly s.canceled _ (λ _. tt)

enqueue_read-Orderly : (p : Bytes) (c : Case) (s : Stream) → OnSome Orderly (enqueue_read p c s)
unfolding enqueue_read enqueue_check OnSome
enqueue_read-Orderly [] c s = tt
enqueue_read-Orderly (b ∷ bs) c s = elim (Bool-cases s.read_closed) [
  | inl h ↦ simp h tt
  | inr h ↦ simp h (select-Orderly (b ∷ bs) c s h)
]

-- The send of enqueueRead is not guarded as its comment says: without another goroutine between its
-- check and its select enqueueRead never panics; but if the check has passed and finishRemote closes
-- `readCh` before the select, the select may send on the closed channel, which panics.
pub enqueue_race :
    (b : ℕ) (bs : Bytes) (s : Stream)
    → s.read_closed ≡ false
    → (enqueue_check s ≡ true)
      × (enqueue_select (b ∷ bs) channel (finish_read s) ≡ some (finish_read s, panics))
      × ((c : Case) (t : Stream) → enqueue_read (b ∷ bs) c s ≢ some (t, panics))
unfolding enqueue_check enqueue_select finish_read
enqueue_race b bs s h =
    (rw h refl, refl, λ c t. λ e. of_OnSome Orderly _ _ e (enqueue_read-Orderly (b ∷ bs) c s))
