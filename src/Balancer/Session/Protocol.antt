-- ===== src/Balancer/Session/Protocol.antt =====
-- What a session may do and when: the abstract protocol of the slot, of the connections and sockets,
-- of the reply and of the breaker's report. It knows nothing of the handlers.
use s5lb.Base.{
  Bool, true, false, not, ◌&&◌, if◌then◌else◌, List, [], ◌∷◌, ◌++◌, Option, none, some, ◌≡◌, refl,
}
use s5lb.Balancer.Session.{
  Effect, Party, client, upstream, client_udp, upstream_udp, acquires, releases, updates, opens,
  closes, tracks, untracks, fails, succeeds, observes, pipes, relays, replies,
}

-- What is held (open or tracked), whether the SOCKS5 reply has been sent, and whether the breaker has
-- been told how the upstream did. The sockets are not tracked.
pub record Held : Type 0 where
  pub slot : Bool
  pub up_open : Bool
  pub up_tracked : Bool
  pub client_sock : Bool
  pub up_sock : Bool
  pub replied : Bool
  pub told : Bool

abbrev pub allow : Bool → Held → Option Held
allow ok h = if ok then some h else none

abbrev pub open_party : Party → Held → Option Held
open_party client h = none
open_party upstream h = allow (h.slot && not h.up_open) (record h { up_open = true })
open_party client_udp h =
    allow (h.up_tracked && not h.client_sock) (record h { client_sock = true })
open_party upstream_udp h = allow (h.client_sock && not h.up_sock) (record h { up_sock = true })

abbrev pub close_party : Party → Held → Option Held
close_party client h = none
close_party upstream h = allow (h.up_open && not h.client_sock) (record h { up_open = false })
close_party client_udp h = allow (h.client_sock && not h.up_sock) (record h { client_sock = false })
close_party upstream_udp h = allow h.up_sock (record h { up_sock = false })

abbrev pub track_party : Party → Bool → Held → Option Held
track_party upstream true h = allow (h.up_open && not h.up_tracked) (record h { up_tracked = true })
track_party upstream false h =
    allow (h.up_tracked && not h.up_open) (record h { up_tracked = false })
track_party _ _ h = none

-- One effect, `none` where it is out of order. The slot goes back last, with everything closed; the
-- client gets one reply; the breaker is told at most once, while the slot is held; data moves only
-- behind the reply and the report, on open connections.
unfoldable pub allowed : Effect → Held → Option Held
allowed acquires h = allow (not h.slot) (record h { slot = true })
allowed releases h =
    allow (h.slot && not h.up_open && not h.up_tracked && not h.client_sock && not h.up_sock)
      (record h { slot = false })
allowed (updates id p) h = allow h.slot h
allowed (opens p) h = open_party p h
allowed (closes p) h = close_party p h
allowed (tracks p) h = track_party p true h
allowed (untracks p) h = track_party p false h
allowed (fails s) h = allow (h.slot && not h.told) (record h { told = true })
allowed succeeds h = allow (h.up_tracked && not h.told) (record h { told = true })
allowed observes h = allow h.up_open h
allowed pipes h = allow (h.up_tracked && h.replied && h.told) h
allowed relays h = allow (h.up_sock && h.client_sock && h.replied && h.told) h
allowed (replies b) h = allow (not h.replied) (record h { replied = true })

abbrev pub and_then : Option Held → (Held → Option Held) → Option Held
and_then none f = none
and_then (some h) f = f h

unfoldable pub follow : List Effect → Held → Option Held
unfolding allowed
follow [] h = some h
follow (e ∷ es) h = and_then (allowed e h) (follow es)

abbrev pub fresh : Held
fresh = record {
  slot = false;
  up_open = false;
  up_tracked = false;
  client_sock = false;
  up_sock = false;
  replied = false;
  told = false;
}

-- Nothing is held, and the client has its one reply.
abbrev pub done : Bool → Held
done told = record fresh { replied = true; told = told }

onward :
    (xs ys : List Effect)
    → ((h : Held) → follow (xs ++ ys) h ≡ and_then (follow xs h) (follow ys))
    → (o : Option Held)
    → and_then o (follow (xs ++ ys)) ≡ and_then (and_then o (follow xs)) (follow ys)
onward xs ys ih none = refl
onward xs ys ih (some h) = ih h

pub follow-append :
    (xs ys : List Effect) (h : Held) → follow (xs ++ ys) h ≡ and_then (follow xs h) (follow ys)
unfolding follow
follow-append [] ys h = refl
follow-append (x ∷ xs) ys h = onward xs ys (follow-append xs ys) (allowed x h)
