-- ===== src/Balancer/Session/Relay/Steps.antt =====
-- Interleavings of the rounds of both relay loops.
use s5lb.Base.{
  ℕ, ◌+◌, ◌≡◌, refl, inl, inr, Bool, false, Bool-cases, List, [], ◌∷◌, ◌++◌, Option, none, some,
  length, arith, All, All-imp, All-append, length-append,
}
use s5lb.Socks5.Wire.{Bytes, NetIp}
use s5lb.Socks5.Udp.{Datagram, UdpResult, ok, err, decode}
use s5lb.Balancer.Session.Relay.{
  Drop, dropped, foreign_client_ip, foreign_src, foreign_upstream_src, Endpoint, Relay, new_relay,
  Written, sent, closed, failed, udp_addr_equal, foreign_ip, count_up, forward_up, pinned,
  udp_client_to_upstream, count_down, to_pin, forward_down, udp_upstream_to_client,
}

module _ (net : NetIp) (same_ip : Bytes → Bytes → Bool) (allowed : Option Bytes)
    (up_addr : Endpoint) where
  pub data Step : Relay → Relay → Type 0 where
    client_round :
        (src : Endpoint) (pkt : Bytes) (wr : Written) (r : Relay)
        → Step r (udp_client_to_upstream net same_ip allowed up_addr src pkt wr r).0
    upstream_round :
        (src : Endpoint) (pkt : Bytes) (wr : Written) (r : Relay)
        → Step r (udp_upstream_to_client net same_ip allowed up_addr src pkt wr r).0

  pub data Run : Relay → Relay → Type 0 where
    here : (r : Relay) → Run r r
    next : (r s t : Relay) → Run r s → Step s t → Run r t

  abbrev pub Decodes : Bytes → Type 0
  Decodes pkt = (dg : Datagram) × (decode net pkt ≡ ok dg)

  abbrev pub payload_of : UdpResult Datagram → ℕ
  payload_of (ok dg) = length dg.payload
  payload_of (err e) = 0

  -- The payload bytes of the datagrams of a list.
  abbrev pub payloads : List (Endpoint × Bytes) → ℕ
  payloads [] = 0
  payloads ((to, pkt) ∷ rest) = payload_of (decode net pkt) + payloads rest

  abbrev pub PinAllowed : Option Endpoint → Type 0
  PinAllowed none = Unit
  PinAllowed (some p) = foreign_ip net same_ip allowed up_addr p ≡ false

  -- The pin is from the client's IP; what was sent is well formed and went to the upstream's endpoint
  -- or to the pin; the counters count it.
  unfoldable pub Sound : Relay → Type 0
  Sound r =
      PinAllowed r.pin
      × All (λ (d : Endpoint × Bytes). (d.0 ≡ up_addr) × Decodes d.1) r.sent_up
      × All (λ (d : Endpoint × Bytes). (r.pin ≡ some d.0) × Decodes d.1) r.sent_down
      × (r.pkts_up ≡ length r.sent_up)
      × (r.pkts_down ≡ length r.sent_down)
      × (r.bytes_up ≡ payloads r.sent_up)
      × (r.bytes_down ≡ payloads r.sent_down)

  payloads-snoc :
      (ds : List (Endpoint × Bytes)) (to : Endpoint) (pkt : Bytes) (dg : Datagram)
      → decode net pkt ≡ ok dg
      → payloads (ds ++ (to, pkt) ∷ []) ≡ payloads ds + length dg.payload
  payloads-snoc [] to pkt dg e = rw e (omega arith)
  payloads-snoc ((_, p) ∷ ds) to pkt dg e = omega (arith, payloads-snoc ds to pkt dg e)

  dropped-Sound : (d : Drop) (r : Relay) → Sound r → Sound (dropped net same_ip allowed up_addr d r)
  unfolding Sound
  dropped-Sound d r held = held

  count_up-Sound :
      (pkt : Bytes) (dg : Datagram) (wr : Written) (r : Relay)
      → decode net pkt ≡ ok dg
      → Sound r
      → Sound (count_up net same_ip allowed up_addr pkt dg wr r).0
  unfolding count_up Sound
  count_up-Sound pkt dg sent r e (pin, up, down, pu, pd, bu, bd) = (
    pin,
    All-append _ r.sent_up (up_addr, pkt) up (refl, (dg, e)),
    down,
    omega (arith, length-append r.sent_up ((up_addr, pkt) ∷ [])),
    pd,
    omega (arith, payloads-snoc r.sent_up up_addr pkt dg e),
    bd,
  )
  count_up-Sound pkt dg closed r e held = held
  count_up-Sound pkt dg failed r e held = held

  forward_up-Sound :
      (pkt : Bytes) (wr : Written) (o : UdpResult Datagram) (r : Relay)
      → decode net pkt ≡ o
      → Sound r
      → Sound (forward_up net same_ip allowed up_addr pkt wr o r).0
  unfolding forward_up Sound
  forward_up-Sound pkt wr (err e) r d held = held
  forward_up-Sound pkt wr (ok dg) r d held = count_up-Sound pkt dg wr r d held

  count_down-Sound :
      (to : Endpoint) (pkt : Bytes) (dg : Datagram) (wr : Written) (r : Relay)
      → decode net pkt ≡ ok dg
      → r.pin ≡ some to
      → Sound r
      → Sound (count_down net same_ip allowed up_addr to pkt dg wr r).0
  unfolding count_down Sound
  count_down-Sound to pkt dg sent r e p (pin, up, down, pu, pd, bu, bd) = (
    pin,
    up,
    All-append _ r.sent_down (to, pkt) down (p, (dg, e)),
    pu,
    omega (arith, length-append r.sent_down ((to, pkt) ∷ [])),
    bu,
    omega (arith, payloads-snoc r.sent_down to pkt dg e),
  )
  count_down-Sound to pkt dg closed r e p held = held
  count_down-Sound to pkt dg failed r e p held = held

  to_pin-Sound :
      (pkt : Bytes) (dg : Datagram) (wr : Written) (r : Relay) (o : Option Endpoint)
      → decode net pkt ≡ ok dg
      → r.pin ≡ o
      → Sound r
      → Sound (to_pin net same_ip allowed up_addr pkt dg wr r o).0
  unfolding to_pin Sound
  to_pin-Sound pkt dg wr r none e p held = held
  to_pin-Sound pkt dg wr r (some to) e p held = count_down-Sound to pkt dg wr r e p held

  forward_down-Sound :
      (pkt : Bytes) (wr : Written) (o : UdpResult Datagram) (r : Relay)
      → decode net pkt ≡ o
      → Sound r
      → Sound (forward_down net same_ip allowed up_addr pkt wr o r).0
  unfolding forward_down Sound
  forward_down-Sound pkt wr (err e) r d held = held
  forward_down-Sound pkt wr (ok dg) r d held = to_pin-Sound pkt dg wr r r.pin d refl held

  -- Setting the pin: until then nothing was sent down.
  pin_set-Sound :
      (src : Endpoint) (r : Relay)
      → r.pin ≡ none
      → foreign_ip net same_ip allowed up_addr src ≡ false
      → Sound r
      → Sound (record r { pin = some src })
  unfolding Sound
  pin_set-Sound src r unset own (pin, up, down, pu, pd, bu, bd) =
      (own, up, All-imp r.sent_down (λ d (p, dec). absurd (cc)) down, pu, pd, bu, bd)

  pinned-Sound :
      (src : Endpoint) (pkt : Bytes) (wr : Written) (r : Relay) (o : Option Endpoint)
      → r.pin ≡ o
      → foreign_ip net same_ip allowed up_addr src ≡ false
      → Sound r
      → Sound (pinned net same_ip allowed up_addr src pkt wr r o).0
  unfolding pinned
  pinned-Sound src pkt wr r none p own held =
      forward_up-Sound pkt wr (decode net pkt) (record r { pin = some src }) refl
        (pin_set-Sound src r p own held)
  pinned-Sound src pkt wr r (some cur) p own held =
      elim (Bool-cases (udp_addr_equal net same_ip allowed up_addr cur src)) [
        | inl h ↦ rw h (forward_up-Sound pkt wr (decode net pkt) r refl held)
        | inr h ↦ simp h (dropped-Sound foreign_src r held)
      ]

  Step-Sound : (r s : Relay) → Step r s → Sound r → Sound s
  unfolding udp_client_to_upstream udp_upstream_to_client
  Step-Sound _ _ (client_round src pkt wr r) held =
      elim (Bool-cases (foreign_ip net same_ip allowed up_addr src)) [
        | inl h ↦ simp h (dropped-Sound foreign_client_ip r held)
        | inr h ↦ simp h (pinned-Sound src pkt wr r r.pin refl h held)
      ]
  Step-Sound _ _ (upstream_round src pkt wr r) held =
      elim (Bool-cases (udp_addr_equal net same_ip allowed up_addr src up_addr)) [
        | inl h ↦ rw h (forward_down-Sound pkt wr (decode net pkt) r refl held)
        | inr h ↦ rw h (dropped-Sound foreign_upstream_src r held)
      ]

  -- However the rounds of both loops interleave, from the start of the relay: the pin is from the
  -- client's own IP, every datagram that went out decodes and went to the upstream's endpoint or to
  -- the pin, and the counters are the number of these datagrams and of their payload bytes.
  pub Run-Sound : (r : Relay) → Run new_relay r → Sound r
  unfolding new_relay Sound
  Run-Sound r run = along r run
    where
      along : (s : Relay) → Run new_relay s → Sound s
      along _ (here _) = (tt, tt, tt, refl, refl, refl, refl)
      along _ (next _ s u before step) = Step-Sound s u step (along s before)
