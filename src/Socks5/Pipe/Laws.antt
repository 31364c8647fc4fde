-- ===== src/Socks5/Pipe/Laws.antt =====
-- What one direction of a tunnel (pipe.go, copyDir) delivers.
use s5lb.Base.{
  ◌≡◌, ◌≢◌, refl, sym, ap, subst, ◌∙◌, ◌==◌, if-elim, List, [], ◌∷◌, ◌++◌, length, take, drop,
  arith, length-append, append_assoc, append_nil, take-drop,
}
use s5lb.Socks5.Wire.{Bytes}
use s5lb.Socks5.Pipe.{
  ReadError, fine, end_of_file, broken, Written, End, waiting, done, write_failed, short_write,
  Copy, Flushed, flushed, stopped, wrote, flush, after_flush, copy, copy_dir,
}

-- What the source has to give: the bytes of its reads, up to the first that returns an error.
abbrev pub source : List (Bytes × ReadError) → Bytes
source [] = []
source ((bs, fine) ∷ reads) = bs ++ source reads
source ((bs, end_of_file) ∷ reads) = bs
source ((bs, broken) ∷ reads) = bs

-- Under way: the total counts what went out.
abbrev Counts : Copy → Type 0
Counts c = c.total ≡ length c.out

-- `r` has sent the front of `all`, and all of it if the copy is done.
abbrev pub Sent : Bytes → Copy → Type 0
Sent all r = (left : Bytes) × (r.out ++ left ≡ all) × (r.end ≡ done → left ≡ []) × Counts r

-- What the writes of one buffer `bs` do.
abbrev Flushes : Bytes → Copy → Flushed → Type 0
Flushes bs c (flushed d ws) = (d.out ≡ c.out ++ bs) × Counts d × (d.end ≡ c.end)
Flushes bs c (stopped d) =
    (left : Bytes) × (d.out ++ left ≡ c.out ++ bs) × (d.end ≢ done) × Counts d

wrote-Counts : (bs : Bytes) (e : End) (c : Copy) → Counts c → Counts (wrote bs e c)
wrote-Counts bs e c h = omega (arith, length-append c.out bs)

later-Flushes :
    (n rest : Bytes) (c : Copy) (r : Flushed)
    → Flushes rest (wrote n c.end c) r
    → Flushes (n ++ rest) c r
later-Flushes n rest c (flushed d ws) (out, count, e) = (out ∙ append_assoc c.out n rest, count, e)
later-Flushes n rest c (stopped d) (left, out, unended, count) =
    (left, out ∙ append_assoc c.out n rest, unended, count)

flush-Flushes :
    (ws : List Written) (bs : Bytes) (c : Copy)
    → Counts c
    → c.end ≡ waiting
    → Flushes bs c (flush ws bs c)
unfolding flush
flush-Flushes ws [] c count unended = (sym (append_nil c.out), count, refl)
flush-Flushes [] (b ∷ bs) c count unended = (b ∷ bs, refl, λ e. absurd (cc), count)
flush-Flushes (w ∷ ws) (b ∷ bs) c count unended =
    let n = take w.takes (b ∷ bs) in
    let rest = drop w.takes (b ∷ bs) in
    let split : n ++ rest ≡ b ∷ bs = take-drop w.takes (b ∷ bs) in
    let joined : (c.out ++ n) ++ rest ≡ c.out ++ (b ∷ bs) =
      append_assoc c.out n rest ∙ ap (◌++◌ c.out) split in
    if-elim (Flushes (b ∷ bs) c) w.fails _ _
      (λ h. (rest, joined, (λ e. absurd (cc)), wrote-Counts n write_failed c count))
      (λ h.
        if-elim (Flushes (b ∷ bs) c) (length n == 0) _ _
          (λ h'. (rest, joined, (λ e. absurd (cc)), wrote-Counts n short_write c count))
          (λ h'.
            subst (λ l. Flushes l c (flush ws rest (wrote n c.end c))) split
              (later-Flushes n rest c (flush ws rest (wrote n c.end c))
                (flush-Flushes ws rest (wrote n c.end c) (wrote-Counts n c.end c count) unended))))

-- Behind a flushed buffer, by how its Read ended.
after-Sent :
    (bs : Bytes) (e : ReadError) (reads : List (Bytes × ReadError)) (c : Copy) (r : Flushed)
    → c.end ≡ waiting
    → Flushes bs c r
    → ((d : Copy) (ws : List Written)
        → Counts d
        → d.end ≡ waiting
        → Sent (d.out ++ source reads) (copy reads ws d))
    → Sent (c.out ++ source ((bs, e) ∷ reads)) (after_flush e (λ d ws. copy reads ws d) r)
unfolding after_flush
after-Sent bs fine reads c (flushed d ws) unended (out, count, e) next =
    let whole : d.out ++ source reads ≡ c.out ++ (bs ++ source reads) =
      ap (λ l. l ++ source reads) out ∙ append_assoc c.out bs (source reads) in
    subst (λ l. Sent l (copy reads ws d)) whole (next d ws count (e ∙ unended))
after-Sent bs end_of_file reads c (flushed d ws) unended (out, count, e) next =
    ([], append_nil d.out ∙ out, (λ _. refl), count)
after-Sent bs broken reads c (flushed d ws) unended (out, count, e) next =
    ([], append_nil d.out ∙ out, (λ _. refl), count)
after-Sent bs fine reads c (stopped d) unended (left, out, cut, count) next = (
  left ++ source reads,
  sym (append_assoc d.out left (source reads))
      ∙ ap (λ l. l ++ source reads) out
      ∙ append_assoc c.out bs (source reads),
  (λ h. absurd (cut h)),
  count,
)
after-Sent bs end_of_file reads c (stopped d) unended (left, out, cut, count) next =
    (left, out, (λ h. absurd (cut h)), count)
after-Sent bs broken reads c (stopped d) unended (left, out, cut, count) next =
    (left, out, (λ h. absurd (cut h)), count)

copy-Sent :
    (reads : List (Bytes × ReadError)) (ws : List Written) (c : Copy)
    → Counts c
    → c.end ≡ waiting
    → Sent (c.out ++ source reads) (copy reads ws c)
unfolding copy
copy-Sent [] ws c count unended = ([], refl, (λ h. absurd (cc)), count)
copy-Sent ((bs, e) ∷ reads) ws c count unended =
    after-Sent bs e reads c (flush ws bs c) unended (flush-Flushes ws bs c count unended)
      (λ d ws' count' unended'. copy-Sent reads ws' d count' unended')

-- However the reads and writes go, the destination gets a front part of the source's bytes, in order
-- and without a gap, and the count that copyDir returns is its length; if it returns without an error,
-- at the source's end, the destination has got all of them.
pub copy_dir-Sent :
    (reads : List (Bytes × ReadError)) (ws : List Written) → Sent (source reads) (copy_dir reads ws)
unfolding copy_dir
copy_dir-Sent reads ws =
    copy-Sent reads ws (record { total = 0; out = []; end = waiting }) refl refl
