-- ===== src/Balancer/Session/Relay/Origin.antt =====
-- Where the datagrams that the relay forwards come from, one round at a time.
use s5lb.Base.{
  ◌≡◌, ◌⊎◌, refl, ap, ◌∙◌, inl, inr, Bool, true, false, not, if-elim, not-false, List, [], ◌∷◌,
  ◌++◌, Option, none, some,
}
use s5lb.Socks5.Wire.{Bytes, NetIp}
use s5lb.Socks5.Udp.{Datagram, UdpResult, ok, err, decode}
use s5lb.Balancer.Session.Relay.{
  Endpoint, Relay, Written, sent, closed, failed, udp_addr_equal, foreign_ip, count_up, forward_up,
  pinned, udp_client_to_upstream, count_down, to_pin, forward_down, udp_upstream_to_client,
}

module _ (net : NetIp) (same_ip : Bytes → Bytes → Bool) (allowed : Option Bytes)
    (up_addr : Endpoint) (src : Endpoint) (pkt : Bytes) (wr : Written) where
  -- What a round sends is this datagram, or nothing.
  abbrev pub Adds : Endpoint → List (Endpoint × Bytes) → List (Endpoint × Bytes) → Type 0
  Adds to before after = (after ≡ before) ⊎ (after ≡ before ++ (to, pkt) ∷ [])

  abbrev UpKept : Relay → Relay → Type 0
  UpKept r s = (s.pin ≡ r.pin) × (s.sent_down ≡ r.sent_down) × Adds up_addr r.sent_up s.sent_up

  count_up-UpKept :
      (dg : Datagram) (how : Written) (r : Relay)
      → UpKept r (count_up net same_ip allowed up_addr pkt dg how r).0
  unfolding count_up
  count_up-UpKept dg sent r = (refl, refl, inr refl)
  count_up-UpKept dg closed r = (refl, refl, inl refl)
  count_up-UpKept dg failed r = (refl, refl, inl refl)

  forward_up-UpKept :
      (o : UdpResult Datagram) (r : Relay)
      → UpKept r (forward_up net same_ip allowed up_addr pkt wr o r).0
  unfolding forward_up
  forward_up-UpKept (err e) r = (refl, refl, inl refl)
  forward_up-UpKept (ok dg) r = count_up-UpKept dg wr r

  -- `p` is where this datagram came from.
  abbrev pub IsSource : Endpoint → Type 0
  IsSource p = (p ≡ src) ⊎ (udp_addr_equal net same_ip allowed up_addr p src ≡ true)

  -- A round of the client's loop: a datagram goes up only from the pin.
  abbrev pub ClientRound : Relay → Relay → Type 0
  ClientRound r s =
      (s.sent_down ≡ r.sent_down)
      × ((p : Endpoint) → r.pin ≡ some p → s.pin ≡ some p)
      × ((s.sent_up ≡ r.sent_up)
          ⊎ ((s.sent_up ≡ r.sent_up ++ (up_addr, pkt) ∷ [])
              × (foreign_ip net same_ip allowed up_addr src ≡ false)
              × ((p : Endpoint) × (s.pin ≡ some p) × IsSource p)))

  of_UpKept :
      (r r' s : Relay) (p : Endpoint)
      → foreign_ip net same_ip allowed up_addr src ≡ false
      → ((q : Endpoint) → r.pin ≡ some q → r'.pin ≡ some q)
      → r'.sent_down ≡ r.sent_down
      → r'.sent_up ≡ r.sent_up
      → r'.pin ≡ some p
      → IsSource p
      → UpKept r' s
      → ClientRound r s
  of_UpKept r r' s p own stays down up pin source (pin', down', added) = (
    down' ∙ down,
    λ q h. pin' ∙ stays q h,
    elim added [
      | inl e ↦ inl (e ∙ up)
      | inr e ↦ inr (e ∙ ap (λ l. l ++ (up_addr, pkt) ∷ []) up, own, (p, pin' ∙ pin, source))
    ],
  )

  pinned-ClientRound :
      (r : Relay) (o : Option Endpoint)
      → r.pin ≡ o
      → foreign_ip net same_ip allowed up_addr src ≡ false
      → ClientRound r (pinned net same_ip allowed up_addr src pkt wr r o).0
  unfolding pinned
  pinned-ClientRound r none e own =
      let set = record r { pin = some src } in
      of_UpKept r set (forward_up net same_ip allowed up_addr pkt wr (decode net pkt) set).0 src own
        (λ q h. absurd (cc)) refl refl refl (inl refl) (forward_up-UpKept (decode net pkt) set)
  pinned-ClientRound r (some cur) e own =
      if-elim (λ (t : Relay × Bool). ClientRound r t.0)
        (not (udp_addr_equal net same_ip allowed up_addr cur src)) _ _
        (λ h. (refl, λ p h'. h', inl refl))
        (λ h.
          of_UpKept r r (forward_up net same_ip allowed up_addr pkt wr (decode net pkt) r).0 cur own
            (λ q h'. h') refl refl e (inr (not-false _ h)) (forward_up-UpKept (decode net pkt) r))

  -- A round of udpClientToUpstream sends nothing down and leaves a pin that is set. It sends at most
  -- this datagram, unchanged, to the upstream's endpoint, and only if its source has the client's IP
  -- (where that is known) and is the pin, which it has set where there was none.
  pub client_round_lem :
      (r : Relay)
      → ClientRound r (udp_client_to_upstream net same_ip allowed up_addr src pkt wr r).0
  unfolding udp_client_to_upstream
  client_round_lem r =
      if-elim (λ (t : Relay × Bool). ClientRound r t.0) (foreign_ip net same_ip allowed up_addr src)
        _ _ (λ h. (refl, λ p h'. h', inl refl)) (pinned-ClientRound r r.pin refl)

  -- A round of the upstream's loop: a datagram goes down only to the pin.
  abbrev pub UpstreamRound : Relay → Relay → Type 0
  UpstreamRound r s =
      (s.sent_up ≡ r.sent_up)
      × (s.pin ≡ r.pin)
      × ((s.sent_down ≡ r.sent_down)
          ⊎ ((p : Endpoint) × (r.pin ≡ some p)
              × (s.sent_down ≡ r.sent_down ++ (p, pkt) ∷ [])
              × (udp_addr_equal net same_ip allowed up_addr src up_addr ≡ true)))

  count_down-UpstreamRound :
      (p : Endpoint) (dg : Datagram) (how : Written) (r : Relay)
      → r.pin ≡ some p
      → udp_addr_equal net same_ip allowed up_addr src up_addr ≡ true
      → UpstreamRound r (count_down net same_ip allowed up_addr p pkt dg how r).0
  unfolding count_down
  count_down-UpstreamRound p dg sent r e own = (refl, refl, inr (p, e, refl, own))
  count_down-UpstreamRound p dg closed r e own = (refl, refl, inl refl)
  count_down-UpstreamRound p dg failed r e own = (refl, refl, inl refl)

  to_pin-UpstreamRound :
      (o : Option Endpoint) (dg : Datagram) (r : Relay)
      → r.pin ≡ o
      → udp_addr_equal net same_ip allowed up_addr src up_addr ≡ true
      → UpstreamRound r (to_pin net same_ip allowed up_addr pkt dg wr r o).0
  unfolding to_pin
  to_pin-UpstreamRound none dg r e own = (refl, refl, inl refl)
  to_pin-UpstreamRound (some p) dg r e own = count_down-UpstreamRound p dg wr r e own

  forward_down-UpstreamRound :
      (o : UdpResult Datagram) (r : Relay)
      → udp_addr_equal net same_ip allowed up_addr src up_addr ≡ true
      → UpstreamRound r (forward_down net same_ip allowed up_addr pkt wr o r).0
  unfolding forward_down
  forward_down-UpstreamRound (err e) r own = (refl, refl, inl refl)
  forward_down-UpstreamRound (ok dg) r own = to_pin-UpstreamRound r.pin dg r refl own

  -- A round of udpUpstreamToClient sends nothing up and leaves the pin. It sends at most this
  -- datagram, unchanged, to the pin, and only if its source is the upstream's endpoint.
  pub upstream_round_lem :
      (r : Relay)
      → UpstreamRound r (udp_upstream_to_client net same_ip allowed up_addr src pkt wr r).0
  unfolding udp_upstream_to_client
  upstream_round_lem r =
      if-elim (λ (t : Relay × Bool). UpstreamRound r t.0)
        (not (udp_addr_equal net same_ip allowed up_addr src up_addr)) _ _
        (λ h. (refl, refl, inl refl))
        (λ h. forward_down-UpstreamRound (decode net pkt) r (not-false _ h))
