-- ===== src/Transport/Exec/Laws.antt =====
-- rawWSSReadLoop sorts the messages by channel, up to the first that ends the stream.
use s5lb.Base.{
  ℕ, ◌≡◌, refl, sym, ap, ◌∙◌, subst, Bool, true, false, ◌||◌, ◌==◌, Bool-cases, inl, inr,
  if◌then◌else◌, List, [], ◌∷◌, ◌++◌, append_nil, append_assoc, Option, none, some, take, arith,
}
use s5lb.Socks5.Wire.{Bytes}
use s5lb.Transport.Stream.{Error, LimitedBuffer, buffer_write}
use s5lb.Transport.Stream.Flow.{joined}
use s5lb.Transport.Stream.Captured.{write_all, write_all_lem}
use s5lb.Transport.Exec.{
  binary_message, text_message, control_message, Received, message, failed, stdout_channel,
  stderr_channel, error_channel, Ended, from_socket, from_stream, exec_end, Loop, finished,
  on_answer, on_channel, on_message, unless_ended, read_loop, start,
}

-- The channel of a message and its bytes; none for a message that has no channel.
unfoldable pub content : Received → Option (ℕ × Bytes)
content (failed e) = none
content (message control_message payload answer) = none
content (message t [] answer) = none
content (message t (channel ∷ bytes) answer) = some (channel, bytes)

unfoldable pub bytes_on : ℕ → Option (ℕ × Bytes) → List Bytes → List Bytes
bytes_on channel none rest = rest
bytes_on channel (some (c, bytes)) rest = if c == channel then bytes ∷ rest else rest

-- The bytes of a channel, in order.
unfoldable pub payloads : ℕ → List Received → List Bytes
unfolding content bytes_on
payloads channel [] = []
payloads channel (m ∷ ms) = bytes_on channel (content m) (payloads channel ms)

-- A message ends the stream if it is on the error channel, or on that of stdout and refused.
unfoldable pub ends_at : Option (ℕ × Bytes) → Option Error → Bool
ends_at none answer = false
ends_at (some (c, bytes)) none = c == error_channel
ends_at (some (c, bytes)) (some e) = c == stdout_channel || c == error_channel

unfoldable pub is_end : Received → Bool
unfolding content ends_at
is_end (failed e) = true
is_end (message t payload answer) = ends_at (content (message t payload answer)) answer

-- What is in front of the first message that ends the stream.
unfoldable pub seen : List Received → List Received
unfolding is_end
seen [] = []
seen (m ∷ ms) = if is_end m then [] else m ∷ seen ms

module _ (trim : Bytes → Bytes) where
  unfoldable pub cause_at : Bytes → Option (ℕ × Bytes) → Option Error → Ended
  cause_at stderr none answer = exec_end [] (trim stderr)
  cause_at stderr (some (c, bytes)) none = exec_end (trim bytes) (trim stderr)
  cause_at stderr (some (c, bytes)) (some e) =
      if c == stdout_channel then from_stream e else exec_end (trim bytes) (trim stderr)

  -- What such a message reports, with the stderr that was captured.
  unfoldable pub cause : Bytes → Received → Ended
  unfolding content cause_at
  cause stderr (failed e) = from_socket e
  cause stderr (message t payload answer) =
      cause_at stderr (content (message t payload answer)) answer

  unfoldable pub end_of : Bytes → List Received → Option Ended
  unfolding is_end cause
  end_of stderr [] = none
  end_of stderr (m ∷ ms) = if is_end m then some (cause stderr m) else end_of stderr ms

  -- One message: the loop ends for its cause, or goes on with its bytes.
  record Sorted (c : Option (ℕ × Bytes)) (over : Bool) (why : Ended) (l n : Loop) : Type 0 where
    ended : over ≡ true → n ≡ finished why l
    enqueues : over ≡ false → n.enqueued ≡ l.enqueued ++ bytes_on stdout_channel c []
    captures : over ≡ false → n.stderr ≡ write_all (bytes_on stderr_channel c []) l.stderr
    goes_on : over ≡ false → n.end ≡ l.end

  on_channel-Sorted :
      (c : ℕ) (bytes : Bytes) (answer : Option Error) (l : Loop)
      → Sorted
          (some (c, bytes))
          (ends_at (some (c, bytes)) answer)
          (cause_at l.stderr.buf (some (c, bytes)) answer)
          l
          (on_channel trim c bytes answer l)
  unfolding on_channel on_answer ends_at cause_at bytes_on
  on_channel-Sorted c bytes none l = record {
    ended = ground arith;
    enqueues = ground (arith, append_nil l.enqueued);
    captures = ground arith;
    goes_on = ground arith;
  }
  on_channel-Sorted c bytes (some e) l = record {
    ended = ground arith;
    enqueues = ground (arith, append_nil l.enqueued);
    captures = ground arith;
    goes_on = ground arith;
  }

  skipped-Sorted :
      (answer : Option Error) (why : Ended) (l : Loop) → Sorted none (ends_at none answer) why l l
  unfolding ends_at bytes_on
  skipped-Sorted answer why l = record {
    ended = λ h. absurd (cc);
    enqueues = λ h. sym (append_nil l.enqueued);
    captures = λ h. refl;
    goes_on = λ h. refl;
  }

  on_message-Sorted :
      (m : Received) (l : Loop)
      → Sorted (content m) (is_end m) (cause l.stderr.buf m) l (on_message trim m l)
  unfolding on_message content is_end cause
  on_message-Sorted (failed e) l = record {
    ended = λ h. refl;
    enqueues = λ h. absurd (cc);
    captures = λ h. absurd (cc);
    goes_on = λ h. absurd (cc);
  }
  on_message-Sorted (message control_message p a) l = skipped-Sorted a _ l
  on_message-Sorted (message binary_message [] a) l = skipped-Sorted a _ l
  on_message-Sorted (message text_message [] a) l = skipped-Sorted a _ l
  on_message-Sorted (message binary_message (c ∷ bytes) a) l = on_channel-Sorted c bytes a l
  on_message-Sorted (message text_message (c ∷ bytes) a) l = on_channel-Sorted c bytes a l

  record Split (ms : List Received) (l r : Loop) : Type 0 where
    enqueued : r.enqueued ≡ l.enqueued ++ payloads stdout_channel (seen ms)
    captured : r.stderr ≡ write_all (payloads stderr_channel (seen ms)) l.stderr
    ended : r.end ≡ end_of r.stderr.buf ms

  bytes_on-append :
      (c : ℕ) (o : Option (ℕ × Bytes)) (rest : List Bytes)
      → bytes_on c o rest ≡ bytes_on c o [] ++ rest
  unfolding bytes_on
  bytes_on-append c none rest = refl
  bytes_on-append c (some (d, bytes)) rest = elim (Bool-cases (d == c)) [
    | inl h ↦ rw h refl
    | inr h ↦ rw h refl
  ]

  write_all-append :
      (xs ys : List Bytes) (b : LimitedBuffer)
      → write_all (xs ++ ys) b ≡ write_all ys (write_all xs b)
  write_all-append [] ys b = refl
  write_all-append (x ∷ xs) ys b = write_all-append xs ys (buffer_write x b).0

  end-Split :
      (m : Received) (ms : List Received) (l n : Loop)
      → is_end m ≡ true
      → n ≡ finished (cause l.stderr.buf m) l
      → Split (m ∷ ms) l n
  unfolding seen end_of payloads
  end-Split m ms l n h e = record {
    enqueued = rw h (ap (λ (x : Loop). x.enqueued) e ∙ sym (append_nil l.enqueued));
    captured = rw h (ap (λ (x : Loop). x.stderr) e);
    ended = rw (h, e) refl;
  }

  more-Split :
      (m : Received) (ms : List Received) (l n r : Loop)
      → is_end m ≡ false
      → Sorted (content m) false (cause l.stderr.buf m) l n
      → Split ms n r
      → Split (m ∷ ms) l r
  unfolding seen end_of payloads
  more-Split m ms l n r h s rest = record {
    enqueued =
        rw (h, bytes_on-append stdout_channel (content m) (payloads stdout_channel (seen ms)))
          (rest.enqueued
            ∙ ap (λ x. x ++ payloads stdout_channel (seen ms)) (s.enqueues refl)
            ∙ append_assoc l.enqueued (bytes_on stdout_channel (content m) []) _);
    captured =
        rw (h, bytes_on-append stderr_channel (content m) (payloads stderr_channel (seen ms)))
          (rest.captured
            ∙ ap (write_all (payloads stderr_channel (seen ms))) (s.captures refl)
            ∙ sym (write_all-append (bytes_on stderr_channel (content m) []) _ l.stderr));
    ended = rw h rest.ended;
  }

  read_loop-Split :
      (ms : List Received) (l : Loop) → l.end ≡ none → Split ms l (read_loop trim ms l)
  unfolding read_loop unless_ended seen end_of payloads
  read_loop-Split [] l h = record {
    enqueued = sym (append_nil l.enqueued);
    captured = refl;
    ended = h;
  }
  read_loop-Split (m ∷ ms) l h =
      let n = on_message trim m l in
      let s = on_message-Sorted m l in
      elim (Bool-cases (is_end m)) [
        | inl e ↦
            let over : n.end ≡ some (cause l.stderr.buf m) = ap (λ (x : Loop). x.end) (s.ended e) in
            subst (λ o. Split (m ∷ ms) l (unless_ended o n (read_loop trim ms n))) (sym over)
              (end-Split m ms l n e (s.ended e))
        | inr e ↦
            let open_still : n.end ≡ none = s.goes_on e ∙ h in
            subst (λ o. Split (m ∷ ms) l (unless_ended o n (read_loop trim ms n))) (sym open_still)
              (more-Split m ms l n (read_loop trim ms n) e
                (subst (λ b. Sorted (content m) b (cause l.stderr.buf m) l n) e s)
                (read_loop-Split ms n open_still))
      ]

  -- Up to the first message that ends the stream, the bytes of stdout go to the reader in order and
  -- none is lost, and of those of stderr the front part that fits the limit is captured; the stream is
  -- finished exactly if there is such a message, for its cause and with the captured stderr.
  pub read_loop_lem :
      (limit : ℕ) (ms : List Received)
      → let r = read_loop trim ms (start limit) in
        (r.enqueued ≡ payloads stdout_channel (seen ms))
        × (r.stderr.buf ≡ take limit (joined (payloads stderr_channel (seen ms))))
        × (r.end ≡ end_of r.stderr.buf ms)
  unfolding start
  read_loop_lem limit ms =
      let s = read_loop-Split ms (start limit) refl in
      (
        s.enqueued,
        ap (λ (b : LimitedBuffer). b.buf) s.captured
            ∙ (write_all_lem limit (payloads stderr_channel (seen ms))).0,
        s.ended,
      )
