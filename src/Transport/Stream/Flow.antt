-- ===== src/Transport/Stream/Flow.antt =====
-- stream_conn.go between the goroutines: each direction is a queue of bytes, first in and first out.
-- The callers of Read and Write, the pump, the remote reader, Close and finishRemote interleave, each
-- select and each part of finishRemote being one step. enqueueRead's check and its select are apart.
use s5lb.Base.{
  ℕ, zero, suc, ◌≤◌, ◌≡◌, refl, sym, ap, ◌∙◌, subst, Bool, true, false, List, [], ◌∷◌, ◌++◌, Option,
  none, some, arith, length, take, drop, length-append, take-all, take-drop, append_assoc,
  append_nil, OnSome, Bool-cases, ltb, inl, inr,
}
use s5lb.Socks5.Wire.{Bytes}
use s5lb.Transport.Stream.{
  Error, Stream, Reading, Writing, Enqueued, Pumped, Case, chan_cap, read, write, enqueue_select,
  pump, wrote, took, sent, dropped, got, channel, timer, changed, local, remote, context,
  read_select, read_pending, receive, when, write_select, pump_chunk,
}

abbrev pub joined : List Bytes → Bytes
joined [] = []
joined (b ∷ rest) = b ++ joined rest

-- The bytes a Read returned, a Write or an enqueueRead took, and the pump handed to `send`.
abbrev pub bytes_read : Reading → Bytes
bytes_read (got bs) = bs
bytes_read _ = []

abbrev pub bytes_written : Bytes → Writing → Bytes
bytes_written p (wrote n) = p
bytes_written p _ = []

abbrev pub bytes_enqueued : Bytes → Enqueued → Bytes
bytes_enqueued p (took n) = p
bytes_enqueued p _ = []

abbrev pub bytes_pumped : Pumped → Bytes
bytes_pumped (sent bs) = bs
bytes_pumped (dropped bs e) = bs

-- The abstract queues: what stands between the remote reader and Read, and between Write and the pump.
abbrev pub unread : Stream → Bytes
unread s = s.pending ++ joined s.read_ch

abbrev pub unsent : Stream → Bytes
unsent s = joined s.write_ch

joined-append : (xs : List Bytes) (b : Bytes) → joined (xs ++ b ∷ []) ≡ joined xs ++ b
joined-append [] b = append_nil b
joined-append (x ∷ xs) b = ap (◌++◌ x) (joined-append xs b) ∙ sym (append_assoc x (joined xs) b)

pub OnSome-when :
    {A : Type 0} (P : A → Type 0) (b : Bool) (a : A) → (b ≡ true → P a) → OnSome P (when b a)
unfolding OnSome
OnSome-when P false a h = tt
OnSome-when P true a h = h refl

pub of_OnSome : {A : Type 0} (P : A → Type 0) (o : Option A) (a : A) → o ≡ some a → OnSome P o → P a
unfolding OnSome
of_OnSome P o a e h = subst (OnSome P) e h

-- A Read takes what it returns off the front of its queue, and touches nothing else.
abbrev pub ReadKept : Stream → Stream × Reading → Type 0
ReadKept s (t, r) =
    (bytes_read r ++ unread t ≡ unread s)
    × (t.write_ch ≡ s.write_ch)
    × (length t.read_ch ≤ length s.read_ch)

receive-ReadKept :
    (n : ℕ) (s : Stream) (chunks : List Bytes)
    → s.pending ≡ []
    → s.read_ch ≡ chunks
    → OnSome (ReadKept s) (receive n s chunks)
unfolding receive OnSome
receive-ReadKept n s [] e f =
    OnSome-when (ReadKept s) s.read_closed _ (λ _. (refl, refl, omega arith))
receive-ReadKept n s (b ∷ rest) e f = elim (Bool-cases (ltb n (length b))) [
  | inl h ↦ rw h (
    sym (append_assoc (take n b) (drop n b) (joined rest))
        ∙ ap (λ t. t ++ joined rest) (take-drop n b)
        ∙ whole,
    refl,
    fewer,
  )
  | inr h ↦ rw h (
    ap (λ t. t ++ (s.pending ++ joined rest)) (take-all n b (ground arith))
        ∙ ap (λ t. b ++ (t ++ joined rest)) e
        ∙ whole,
    refl,
    fewer,
  )
]
  where
    whole : b ++ joined rest ≡ s.pending ++ joined s.read_ch
    whole = rw (e, f) refl

    fewer : length rest ≤ length s.read_ch
    fewer = rw f (omega arith)

select-ReadKept :
    (n : ℕ) (c : Case) (s : Stream) → s.pending ≡ [] → OnSome (ReadKept s) (read_select n c s)
unfolding read_select OnSome
select-ReadKept n channel s e = receive-ReadKept n s s.read_ch e refl
select-ReadKept n timer s e = (refl, refl, omega arith)
select-ReadKept n changed s e = (refl, refl, omega arith)
select-ReadKept n local s e =
    OnSome-when (ReadKept s) s.local_done _ (λ _. (refl, refl, omega arith))
select-ReadKept n remote s e = tt
select-ReadKept n context s e =
    OnSome-when (ReadKept s) s.canceled _ (λ _. (refl, refl, omega arith))

pending-ReadKept :
    (n : ℕ) (c : Case) (s : Stream) (bs : Bytes)
    → s.pending ≡ bs
    → OnSome (ReadKept s) (read_pending n c s bs)
unfolding read_pending OnSome
pending-ReadKept n c s [] e = select-ReadKept n c s e
pending-ReadKept n c s (b ∷ bs) e = (
  sym (append_assoc (take n (b ∷ bs)) (drop n (b ∷ bs)) (joined s.read_ch))
      ∙ ap (λ t. t ++ joined s.read_ch) (take-drop n (b ∷ bs) ∙ sym e),
  refl,
  omega arith,
)

pub read-ReadKept : (n : ℕ) (c : Case) (s : Stream) → OnSome (ReadKept s) (read n c s)
unfolding read OnSome
read-ReadKept zero c s = (refl, refl, omega arith)
read-ReadKept (suc n) c s = pending-ReadKept (suc n) c s s.pending refl

-- A Write puts what it takes at the back of its queue, if that has room.
abbrev pub WriteKept : Bytes → Stream → Stream × Writing → Type 0
WriteKept p s (t, w) =
    (unsent t ≡ unsent s ++ bytes_written p w)
    × (t.pending ≡ s.pending)
    × (t.read_ch ≡ s.read_ch)
    × (length s.write_ch ≤ chan_cap → length t.write_ch ≤ chan_cap)

write_nothing :
    (s : Stream)
    → (unsent s ≡ unsent s ++ [])
      × (s.pending ≡ s.pending)
      × (s.read_ch ≡ s.read_ch)
      × (length s.write_ch ≤ chan_cap → length s.write_ch ≤ chan_cap)
write_nothing s = (sym (append_nil (unsent s)), refl, refl, λ h. h)

pub write-WriteKept : (p : Bytes) (c : Case) (s : Stream) → OnSome (WriteKept p s) (write p c s)
unfolding write write_select OnSome
write-WriteKept [] c s = write_nothing s
write-WriteKept (b ∷ bs) channel s =
    OnSome-when (WriteKept (b ∷ bs) s) (ltb (length s.write_ch) chan_cap) _ (λ room. (
      joined-append s.write_ch (b ∷ bs),
      refl,
      refl,
      λ h. ground (arith, length-append s.write_ch ((b ∷ bs) ∷ [])),
    ))
write-WriteKept (b ∷ bs) timer s = write_nothing s
write-WriteKept (b ∷ bs) changed s = write_nothing s
write-WriteKept (b ∷ bs) local s =
    OnSome-when (WriteKept (b ∷ bs) s) s.local_done _ (λ _. write_nothing s)
write-WriteKept (b ∷ bs) remote s =
    OnSome-when (WriteKept (b ∷ bs) s) s.remote_done _ (λ _. write_nothing s)
write-WriteKept (b ∷ bs) context s =
    OnSome-when (WriteKept (b ∷ bs) s) s.canceled _ (λ _. write_nothing s)

-- The send of enqueueRead likewise.
abbrev pub EnqueueKept : Bytes → Stream → Stream × Enqueued → Type 0
EnqueueKept p s (t, w) =
    (unread t ≡ unread s ++ bytes_enqueued p w)
    × (t.write_ch ≡ s.write_ch)
    × (length s.read_ch ≤ chan_cap → length t.read_ch ≤ chan_cap)

enqueue_nothing :
    (s : Stream)
    → (unread s ≡ unread s ++ [])
      × (s.write_ch ≡ s.write_ch)
      × (length s.read_ch ≤ chan_cap → length s.read_ch ≤ chan_cap)
enqueue_nothing s = (sym (append_nil (unread s)), refl, λ h. h)

pub enqueue_select-EnqueueKept :
    (p : Bytes) (c : Case) (s : Stream) → OnSome (EnqueueKept p s) (enqueue_select p c s)
unfolding enqueue_select OnSome
enqueue_select-EnqueueKept p channel s = elim (Bool-cases s.read_closed) [
  | inl h ↦ rw h (enqueue_nothing s)
  | inr h ↦ rw h (
      OnSome-when (EnqueueKept p s) (ltb (length s.read_ch) chan_cap) _ (λ room. (
        ap (λ t. s.pending ++ t) (joined-append s.read_ch p)
            ∙ sym (append_assoc s.pending (joined s.read_ch) p),
        refl,
        λ h'. ground (arith, length-append s.read_ch (p ∷ [])),
      )))
]
enqueue_select-EnqueueKept p timer s = tt
enqueue_select-EnqueueKept p changed s = tt
enqueue_select-EnqueueKept p local s =
    OnSome-when (EnqueueKept p s) s.local_done _ (λ _. enqueue_nothing s)
enqueue_select-EnqueueKept p remote s =
    OnSome-when (EnqueueKept p s) s.remote_done _ (λ _. enqueue_nothing s)
enqueue_select-EnqueueKept p context s =
    OnSome-when (EnqueueKept p s) s.canceled _ (λ _. enqueue_nothing s)

-- The pump takes the chunk at the front of its queue.
abbrev pub PumpKept : Stream → Stream × Pumped → Type 0
PumpKept s (t, w) =
    (bytes_pumped w ++ unsent t ≡ unsent s)
    × (t.pending ≡ s.pending)
    × (t.read_ch ≡ s.read_ch)
    × (length t.write_ch ≤ length s.write_ch)

pump_chunk-PumpKept :
    (sends : Bytes → Option Error) (s : Stream) (chunks : List Bytes)
    → s.write_ch ≡ chunks
    → OnSome (PumpKept s) (pump_chunk sends s chunks)
unfolding pump_chunk OnSome
pump_chunk-PumpKept sends s [] e = tt
pump_chunk-PumpKept sends s ([] ∷ rest) e = (sym (ap joined e), refl, refl, rw e (omega arith))
pump_chunk-PumpKept sends s ((b ∷ bs) ∷ rest) e =
    elim (sends (b ∷ bs))
      as (λ o. OnSome (PumpKept s) (elim o [
        | none ↦ some (record s { write_ch = rest }, sent (b ∷ bs))
        | some f ↦ some (record s { write_ch = rest }, dropped (b ∷ bs) f)
      ])) [
        | none ↦ (sym (ap joined e), refl, refl, rw e (omega arith))
        | some f ↦ (sym (ap joined e), refl, refl, rw e (omega arith))
      ]

pub pump-PumpKept : (sends : Bytes → Option Error) (s : Stream) → OnSome (PumpKept s) (pump sends s)
unfolding pump
pump-PumpKept sends s = pump_chunk-PumpKept sends s s.write_ch refl
