-- ===== src/Transport/Stream/Captured.antt =====
-- limitedBuffer in stream_conn.go: the bounded capture of a remote command's stderr.
use s5lb.Base.{
  ℕ, ◌-◌, ◌≤◌, ◌≡◌, refl, sym, ap, ◌∙◌, Bool-cases, inl, inr, false, if◌then◌else◌, ltb, List, [],
  ◌∷◌, ◌++◌, arith, length, take, append_nil, append_assoc, take-all, length-take, length-take_le,
  take-append_within, take-append_beyond,
}
use s5lb.Socks5.Wire.{Bytes}
use s5lb.Transport.Stream.{LimitedBuffer, buffer_write, new_limited_buffer}
use s5lb.Transport.Stream.Flow.{joined}

abbrev pub write_all : List Bytes → LimitedBuffer → LimitedBuffer
write_all [] b = b
write_all (p ∷ rest) b = write_all rest (buffer_write p b).0

buffer_write-take :
    (p xs : Bytes) (b : LimitedBuffer)
    → b.buf ≡ take b.limit xs
    → (buffer_write p b).0 ≡ record b { buf = take b.limit (xs ++ p) }
unfolding buffer_write
buffer_write-take p xs b e = elim (Bool-cases (ltb (length xs) b.limit)) [
  | inl h ↦
      let whole : b.buf ≡ xs = e ∙ take-all b.limit xs (ground arith) in
      rw (whole, h)
        (ap (λ q. record b { buf = q })
          (ap (λ q. xs ++ q) (cut (b.limit - length xs))
            ∙ sym (take-append_beyond b.limit xs p (ground arith))))
  | inr h ↦
      let full : ltb (length b.buf) b.limit ≡ false =
        rw e (ground (arith, length-take b.limit xs)) in
      rw full
        (ap (λ q. record b { buf = q }) (e ∙ sym (take-append_within b.limit xs p (ground arith))))
]
  where
    cut : (room : ℕ) → (if ltb room (length p) then take room p else p) ≡ take room p
    cut room = elim (Bool-cases (ltb room (length p))) [
      | inl h ↦ rw h refl
      | inr h ↦ rw h (sym (take-all room p (ground arith)))
    ]

write_all-take :
    (chunks : List Bytes) (xs : Bytes) (b : LimitedBuffer)
    → b.buf ≡ take b.limit xs
    → (write_all chunks b).buf ≡ take b.limit (xs ++ joined chunks)
write_all-take [] xs b e = e ∙ ap (take b.limit) (sym (append_nil xs))
write_all-take (p ∷ rest) xs b e =
    ap (λ c. (write_all rest c).buf) (buffer_write-take p xs b e)
    ∙ write_all-take rest (xs ++ p) (record b { buf = take b.limit (xs ++ p) }) refl
    ∙ ap (take b.limit) (append_assoc xs p (joined rest))

-- The captured stderr is the first `limit` bytes of what was written, however it was cut in chunks,
-- and never more than that; each Write reports its whole chunk as written.
pub write_all_lem :
    (limit : ℕ) (chunks : List Bytes)
    → let captured = (write_all chunks (new_limited_buffer limit)).buf in
      (captured ≡ take limit (joined chunks))
      × (length captured ≤ limit)
      × ((p : Bytes) (b : LimitedBuffer) → (buffer_write p b).1 ≡ length p)
unfolding new_limited_buffer buffer_write
write_all_lem limit chunks =
    let e =
      write_all-take chunks [] (new_limited_buffer limit) (sym (take-all limit [] (omega arith))) in
    (e, rw e (length-take_le limit (joined chunks)), λ p b. written p b)
  where
    written : (p : Bytes) (b : LimitedBuffer) → (buffer_write p b).1 ≡ length p
    written p b = elim (Bool-cases (ltb (length b.buf) b.limit)) [
      | inl h ↦ simp h refl
      | inr h ↦ simp h refl
    ]
