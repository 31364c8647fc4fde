-- ===== src/Balancer/Frontend.antt =====
-- internal/balancer/balancer.go: the accept loop of Serve and what the goroutine of a session does
-- around handleClient; the table of connections; Shutdown. The gate and the tracker are those of Admission; a reload, which may
-- replace the gate while no session is tracked, is not among the steps.
pub mod Steps
mod Tests
use s5lb.Base.{
  ℕ, Bool, false, not, ◌==◌, if◌then◌else◌, List, [], ◌∷◌, ◌++◌, length, Option, none, some,
}
use s5lb.Socks5.Wire.{Bytes, rep_general_failure}
use s5lb.Socks5.Server.{reply_bytes}
use s5lb.Admission.Gate.{Outcome, admitted, rejected, evicted}

-- What the loop does with an accepted connection: the reply to a client that is turned away, the close,
-- or a session, which is added to the tracker and handed to its goroutine.
pub data Action : Type 0 where
  replies : Bytes → Action
  closes adds starts : Action

unfoldable pub on_decision : Outcome → List Action
on_decision admitted = adds ∷ starts ∷ []
on_decision evicted = adds ∷ starts ∷ []
on_decision rejected = replies (reply_bytes rep_general_failure) ∷ closes ∷ []

-- One accepted connection; `none` is a missing gate.
unfoldable pub serve_one : Option Outcome → List Action
unfolding on_decision
serve_one none = closes ∷ []
serve_one (some outcome) = on_decision outcome

-- An error of Accept: of a listener that is closed, behind a canceled context, or another one, and
-- whether the context is canceled in the pause behind it. The result says whether the loop goes on.
pub data AcceptError : Type 0 where
  closed canceled : AcceptError
  timeout other : (during_pause : Bool) → AcceptError

unfoldable pub on_accept_error : AcceptError → Bool
on_accept_error closed = false
on_accept_error canceled = false
on_accept_error (timeout during_pause) = not during_pause
on_accept_error (other during_pause) = not during_pause

-- The table of connections: track and untrack. `open_conns` are the keys of the map.
pub record Table : Type 0 where
  pub open_conns : List ℕ
  pub closed : List ℕ

unfoldable pub without : ℕ → List ℕ → List ℕ
without c [] = []
without c (x ∷ xs) = let rest = without c xs in if x == c then rest else x ∷ rest

unfoldable pub track : ℕ → Table → Table
unfolding without
track c t = record t { open_conns = c ∷ without c t.open_conns }

unfoldable pub untrack : ℕ → Table → Table
unfolding without
untrack c t = record t { open_conns = without c t.open_conns }

-- closeAllConns: the connections stay in the table until their sessions untrack them.
unfoldable pub close_all_conns : Table → Table × ℕ
close_all_conns t = (record t { closed = t.open_conns ++ t.closed }, length t.open_conns)

-- How Shutdown ends: its sessions are over in the soft or in the hard phase, or not at all.
pub data Drained : Type 0 where
  softly forced unfinished : Drained

-- Shutdown behind the cancel, from the table when the soft timeout passes: whether the
-- sessions end before the soft and before the hard timeout.
unfoldable pub shutdown : (soft hard : Bool) → Table → Table × Drained
unfolding close_all_conns
shutdown soft hard t =
    if soft then (t, softly) else ((close_all_conns t).0, (if hard then forced else unfinished))
