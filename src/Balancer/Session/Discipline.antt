-- ===== src/Balancer/Session/Discipline.antt =====
-- The handlers of session_connect.go and session_udp.go keep to the protocol of a session, on every
-- answer of the dialer, the upstream, the sockets and the client.
use s5lb.Base.{
  ◌≡◌, refl, ap, ◌∙◌, inl, inr, Bool, true, false, ◌==◌, if◌then◌else◌, Bool-cases, List, [], ◌∷◌,
  ◌++◌, Option, none, some,
}
use s5lb.Socks5.Wire.{Conn, Outcome, ok, err, rep_success}
use s5lb.Socks5.Server.{Request}
use s5lb.Socks5.Client.{client_handshake, client_connect, Reply}
use s5lb.Upstream.{Upstream}
use s5lb.Config.Types.{Config}
use s5lb.Balancer.Session.{
  Effect, World, opens, upstream, releases, closes, untracks, select_ctx, handle_connect,
  with_upstream, on_upstream, shaken, dialed, connected, dial_and_handshake_upstream, dialer_of,
}
use s5lb.Balancer.Session.Protocol.{Held, fresh, done, follow, allowed, and_then, follow-append}

-- Where `body` starts: on a tracked connection.
abbrev pub on_conn : Held
on_conn = record fresh { slot = true; up_open = true; up_tracked = true }

abbrev pub served : Bool → Held
served told = record on_conn { replied = true; told = told }

abbrev pub is_some : {A : Type 0} → Option A → Bool
is_some none = false
is_some (some a) = true

pub follow_then :
    (xs ys : List Effect) (h m : Held) → follow xs h ≡ some m → follow (xs ++ ys) h ≡ follow ys m
follow_then xs ys h m e = follow-append xs ys h ∙ ap (λ o. and_then o (follow ys)) e

-- `Ends es b`: from a tracked connection `es` answers the client, and the breaker is told if `b`.
abbrev pub Ends : List Effect → Bool → Type 0
Ends es told = follow es on_conn ≡ some (served told)

-- `Told` is what is known of the report to the breaker. A failed dial or handshake has told it.
module _ (Told : Bool → Type 0) (dial_told : Told true) (body : Conn → List Effect)
    (ends : (c : Conn) → (told : Bool) × Told told × Ends (body c) told) where
  abbrev Served : List Effect → Type 0
  Served es =
      (told : Bool) × Told told
      × (follow es (record fresh { slot = true })
          ≡ some (record fresh { slot = true; replied = true; told = told }))

  shaken-Served :
      (o : Outcome (Unit {0}))
      → Served (on_upstream body (opens upstream ∷ (shaken o).0, (shaken o).1))
  unfolding on_upstream shaken follow allowed
  shaken-Served (err e c) = (true, dial_told, refl)
  shaken-Served (ok _ c) =
      let (told, known, e) = ends c in
      (told, known, follow_then (body c) (closes upstream ∷ untracks upstream ∷ []) on_conn _ e)

  dialed-Served :
      (w : World) (up : Upstream) (d : Option Conn) → Served (on_upstream body (dialed w up d))
  unfolding on_upstream dialed follow allowed
  dialed-Served w up none = (true, dial_told, refl)
  dialed-Served w up (some c) =
      shaken-Served (client_handshake (w.bytes up.username) (w.bytes up.password) c)

-- A handler that ends so: with a slot, as `Told` says; without one the breaker hears nothing.
abbrev pub Handled : (Bool → Type 0) → List Effect → Bool → Type 0
Handled Told es acquired =
    (told : Bool) × (if acquired then Told told else told ≡ false)
    × (follow es fresh ≡ some (done told))

pub with_upstream-Handled :
    (Told : Bool → Type 0) (w : World) (body : Upstream → Conn → List Effect) (o : Option Upstream)
    → Told true
    → ((up : Upstream) (c : Conn) → (told : Bool) × Told told × Ends (body up c) told)
    → Handled Told (with_upstream w body o) (is_some o)
unfolding with_upstream dial_and_handshake_upstream follow allowed
with_upstream-Handled Told w body none dial_told ends = (false, refl, refl)
with_upstream-Handled Told w body (some up) dial_told ends =
    let (told, known, e) =
      dialed-Served Told dial_told (body up) (ends up) w up
        (dialer_of w.dialer w.tcp_dialer (w.addr up)) in
    (
      told,
      known,
      follow_then (on_upstream (body up) (dial_and_handshake_upstream w up)) (releases ∷ [])
          (record fresh { slot = true }) _ e,
    )

connected-Ends : (o : Outcome Reply) → Ends (connected o) true
unfolding connected follow allowed
connected-Ends (err e c) = refl
connected-Ends (ok reply c) = elim (Bool-cases (reply.rep == rep_success)) [
  | inl h ↦ rw h refl
  | inr h ↦ rw h refl
]

told_of :
    (es : List Effect) (acquired : Bool)
    → Handled (λ t. t ≡ true) es acquired
    → follow es fresh ≡ some (done acquired)
told_of es true (told, known, e) = e ∙ ap (λ t. some (done t)) known
told_of es false (told, known, e) = e ∙ ap (λ t. some (done t)) known

-- handleConnect keeps to the protocol whatever the dialer, the upstream and the client do: one SOCKS5
-- reply, every connection that was opened is closed, those tracked are untracked, the slot, if one was
-- given, goes back last, and then the breaker has been told exactly once how the upstream did.
pub handle_connect-Followed :
    (w : World) (cfg : Config) (req : Request)
    → follow (handle_connect w cfg req) fresh
      ≡ some (done (is_some (w.acquire (select_ctx w cfg req))))
unfolding handle_connect
handle_connect-Followed w cfg req = told_of (handle_connect w cfg req) _ (
    with_upstream-Handled (λ t. t ≡ true) w
      (λ up c. connected (client_connect req.atyp req.raw_addr req.port c))
      (w.acquire (select_ctx w cfg req)) refl
      (λ up c. (true, refl, connected-Ends (client_connect req.atyp req.raw_addr req.port c))))
