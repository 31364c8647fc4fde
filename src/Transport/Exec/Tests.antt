-- ===== src/Transport/Exec/Tests.antt =====
-- An exec WebSocket with all three channels.
use s5lb.Base.{◌≡◌, refl, List, [], ◌∷◌, none, some, take}
use s5lb.Socks5.Wire.{Bytes}
use s5lb.Transport.Stream.{buffer_write}
use s5lb.Transport.Stream.Flow.{joined}
use s5lb.Transport.Exec.{
  Received, message, binary_message, control_message, Loop, exec_error_with_stderr, stdout_channel,
  stderr_channel, read_loop, start,
}
use s5lb.Transport.Exec.Laws.{payloads, seen, end_of, read_loop_lem}

abbrev keep : Bytes → Bytes
keep bs = bs

abbrev frames : List Received
frames =
    message binary_message (1 ∷ 10 ∷ 11 ∷ []) none
    ∷ message control_message (1 ∷ 99 ∷ []) none
    ∷ message binary_message (2 ∷ 20 ∷ 21 ∷ 22 ∷ []) none
    ∷ message binary_message (4 ∷ 98 ∷ []) none
    ∷ message binary_message (1 ∷ 12 ∷ []) none
    ∷ message binary_message (3 ∷ 30 ∷ []) none
    ∷ message binary_message (1 ∷ 13 ∷ []) none
    ∷ []

abbrev result : Loop
result = read_loop keep frames (start 2)

sorted : (result.enqueued ≡ (10 ∷ 11 ∷ []) ∷ (12 ∷ []) ∷ []) × (result.stderr.buf ≡ 20 ∷ 21 ∷ [])
unfolding read_loop start buffer_write
sorted = (refl, refl)

reported : result.end ≡ some (exec_error_with_stderr (30 ∷ []) (20 ∷ 21 ∷ []))
unfolding read_loop start buffer_write
reported = refl

read_loop_lem_example :
    (result.enqueued ≡ payloads stdout_channel (seen frames))
    × (result.stderr.buf ≡ take 2 (joined (payloads stderr_channel (seen frames))))
    × (result.end ≡ end_of keep result.stderr.buf frames)
read_loop_lem_example = read_loop_lem keep 2 frames
