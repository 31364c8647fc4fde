-- ===== src/Balancer/Queue/Dispatch.antt =====
-- dispatch with nobody else running.
use s5lb.Base.{
  ℕ, zero, suc, ◌<◌, ◌≡◌, refl, sym, ◌∙◌, ap, subst, ◌⊎◌, inl, inr, true, false, String, List, [],
  ◌∷◌, Option, none, some, arith, length, get_elem?, get_elem?_total, All, Option-cases, Bool-cases,
  if◌then◌else◌,
}
use s5lb.Upstream.{Upstream, Snapshot}
use s5lb.Strategy.{SelectCtx}
use s5lb.Balancer.Pool.{current_pool}
use s5lb.Balancer.Pool.Laws.{pick_slot-refused}
use s5lb.Balancer.Queue.{
  Waiter, Balancer, pick, dropped, serve, head_of, peek, give_ticket, deliver_to, deliver, dispatch,
  update_at, set_ticket,
}
use s5lb.Balancer.Queue.Cells.{Free}
use s5lb.Balancer.Queue.Steps.Orderly.{Orderly, tail-Orderly, given-Orderly}

pick-refused : (id : String) (lb : Balancer) → (pick id lb).1 ≡ none → (pick id lb).0 ≡ lb
unfolding pick
pick-refused id lb e =
    ap (λ ms. record lb { members = ms }) (pick_slot-refused lb.max_per id lb.members e)

pick-queue :
    (id : String) (lb : Balancer)
    → ((pick id lb).0.queue ≡ lb.queue) × ((pick id lb).0.waiters ≡ lb.waiters)
unfolding pick
pick-queue id lb = (refl, refl)

-- The head of the queue, when the cell exists.
head_of-cons :
    (lb : Balancer) (h : ℕ) (q : List ℕ) (w : Waiter)
    → get_elem? lb.waiters h ≡ some w
    → head_of lb (h ∷ q) ≡ (if w.canceled then dropped (record lb { queue = q }) else serve h w.sc)
unfolding head_of
head_of-cons lb h q w found = ground (arith, found)

peek-cons :
    (lb : Balancer) (h : ℕ) (q : List ℕ) (w : Waiter)
    → lb.queue ≡ h ∷ q
    → get_elem? lb.waiters h ≡ some w
    → peek lb ≡ (if w.canceled then dropped (record lb { queue = q }) else serve h w.sc)
unfolding peek
peek-cons lb h q w e found = ap (head_of lb) e ∙ head_of-cons lb h q w found

deliver_to-cons :
    (h : ℕ) (id : String) (lb : Balancer) (q : List ℕ) (w : Waiter)
    → get_elem? lb.waiters h ≡ some w
    → w.canceled ≡ false
    → w.ticket ≡ none
    → deliver_to h id lb (h ∷ q)
      ≡ (record lb { queue = q; waiters = update_at h (set_ticket (some id)) lb.waiters }, true)
unfolding deliver_to give_ticket
deliver_to-cons h id lb q w found live free = ground (arith, found, live, free)

deliver-cons :
    (h : ℕ) (id : String) (lb : Balancer) (q : List ℕ) (w : Waiter)
    → lb.queue ≡ h ∷ q
    → get_elem? lb.waiters h ≡ some w
    → w.canceled ≡ false
    → w.ticket ≡ none
    → deliver h id lb
      ≡ (record lb { queue = q; waiters = update_at h (set_ticket (some id)) lb.waiters }, true)
unfolding deliver
deliver-cons h id lb q w e found live free =
    ap (deliver_to h id lb) e ∙ deliver_to-cons h id lb q w found live free

-- The slot that a pick has taken for a live head reaches it.
hand-deliver :
    (answer id : String) (lb : Balancer) (h : ℕ) (q : List ℕ) (w : Waiter)
    → lb.queue ≡ h ∷ q
    → get_elem? lb.waiters h ≡ some w
    → w.canceled ≡ false
    → Orderly lb
    → deliver h id (pick answer lb).0 ≡ (
      record (pick answer lb).0 {
        queue = q;
        waiters = update_at h (set_ticket (some id)) (pick answer lb).0.waiters;
      },
      true,
    )
unfolding pick
hand-deliver answer id lb h q w e found live v =
    let unserved : Free lb.waiters h = (subst (All (Free lb.waiters)) e v.free).0 in
    deliver-cons h id (pick answer lb).0 q w e found live (ground (arith, found, unserved))

hand-Orderly :
    (answer id : String) (lb : Balancer) (h : ℕ) (q : List ℕ) (w : Waiter)
    → lb.queue ≡ h ∷ q
    → get_elem? lb.waiters h ≡ some w
    → w.canceled ≡ false
    → Orderly lb
    → Orderly (record (pick answer lb).0 {
      queue = q;
      waiters = update_at h (set_ticket (some id)) (pick answer lb).0.waiters;
    })
unfolding pick
hand-Orderly answer id lb h q w e found live v =
    let ready : Orderly (pick answer lb).0 = record {
      exists = v.exists;
      free = v.free;
      apart = v.apart;
      clean = v.clean;
    } in
    let (tail, others) = tail-Orderly (pick answer lb).0 h q e ready in
    given-Orderly h id (record (pick answer lb).0 { queue = q }) tail others
      (ground (arith, found, live))

module _ (addr : Upstream → String) (choose : ℕ → SelectCtx → List Snapshot → ℕ → String) where
  -- The queue is empty, or its head is a live waiter for which the selector finds no slot in a round.
  abbrev pub Stopped : ℕ → Balancer → Type 0
  Stopped fuel lb =
      (lb.queue ≡ [])
      ⊎ ((h : ℕ) × (sc : SelectCtx) × (peek lb ≡ serve h sc)
          × (k : ℕ) × (k < fuel)
          × ((pick (choose k sc (current_pool addr lb.members) lb.max_per) lb).1 ≡ none))

  Stopped-suc : (fuel : ℕ) (lb : Balancer) → Stopped fuel lb → Stopped (suc fuel) lb
  Stopped-suc fuel lb (inl e) = inl e
  Stopped-suc fuel lb (inr (h, sc, e, k, lt, none_free)) =
      inr (h, sc, e, k, omega (arith, lt), none_free)

  Ends : ℕ → Balancer → Type 0
  Ends fuel lb =
      (lb' : Balancer) × (dispatch addr choose fuel lb ≡ some lb') × Stopped fuel lb' × Orderly lb'

  dispatch-empty : (fuel : ℕ) (lb : Balancer) → lb.queue ≡ [] → Orderly lb → Ends (suc fuel) lb
  unfolding Ends dispatch peek head_of
  dispatch-empty fuel lb e v = (lb, rw e refl, inl e, v)

  dispatch-drop :
      (fuel : ℕ) (lb lb' : Balancer) → peek lb ≡ dropped lb' → Ends fuel lb' → Ends (suc fuel) lb
  unfolding Ends dispatch
  dispatch-drop fuel lb lb' e (end, run, rest, v) =
      (end, rw (e, dispatch) run, Stopped-suc fuel end rest, v)

  dispatch-none :
      (fuel : ℕ) (lb : Balancer) (h : ℕ) (sc : SelectCtx)
      → peek lb ≡ serve h sc
      → (pick (choose fuel sc (current_pool addr lb.members) lb.max_per) lb).1 ≡ none
      → Orderly lb
      → Ends (suc fuel) lb
  unfolding Ends dispatch pick
  dispatch-none fuel lb h sc e refused v = (
    lb,
    rw (e, dispatch, refused)
        (ap some
          (pick-refused (choose fuel sc (current_pool addr lb.members) lb.max_per) lb refused)),
    inr (h, sc, e, fuel, omega arith, refused),
    v,
  )

  dispatch-hand :
      (fuel : ℕ) (lb lb' : Balancer) (h : ℕ) (sc : SelectCtx) (id : String)
      → peek lb ≡ serve h sc
      → (pick (choose fuel sc (current_pool addr lb.members) lb.max_per) lb).1 ≡ some id
      → deliver h id (pick (choose fuel sc (current_pool addr lb.members) lb.max_per) lb).0
        ≡ (lb', true)
      → Ends fuel lb'
      → Ends (suc fuel) lb
  unfolding Ends dispatch
  dispatch-hand fuel lb lb' h sc id e taken handed (end, run, rest, v) =
      let there =
        subst (λ x. dispatch addr choose fuel x ≡ some end) (sym (ap (λ p. p.0) handed)) run in
      (end, rw (e, dispatch, taken, handed) there, Stopped-suc fuel end rest, v)

  abbrev pick_for : ℕ → SelectCtx → Balancer → Balancer × Option String
  pick_for fuel sc lb = pick (choose fuel sc (current_pool addr lb.members) lb.max_per) lb

  -- A live head: it gets a slot, or there is none.
  dispatch-live :
      (fuel : ℕ) (lb : Balancer) (h : ℕ) (q : List ℕ) (w : Waiter)
      → lb.queue ≡ h ∷ q
      → get_elem? lb.waiters h ≡ some w
      → w.canceled ≡ false
      → Orderly lb
      → ((lb' : Balancer) → lb'.queue ≡ q → Orderly lb' → Ends fuel lb')
      → Ends (suc fuel) lb
  dispatch-live fuel lb h q w e found live v later =
      let head : peek lb ≡ serve h w.sc = peek-cons lb h q w e found ∙ rw live refl in
      elim (Option-cases (pick_for fuel w.sc lb).1) [
        | inl refused ↦ dispatch-none fuel lb h w.sc head refused v
        | inr (id, taken) ↦
            let picked = (pick_for fuel w.sc lb).0 in
            let next = record picked {
              queue = q;
              waiters = update_at h (set_ticket (some id)) picked.waiters;
            } in
            dispatch-hand fuel lb next h w.sc id head taken
              (hand-deliver (choose fuel w.sc (current_pool addr lb.members) lb.max_per) id lb h q w
                e found live v)
              (later next refl (
                hand-Orderly (choose fuel w.sc (current_pool addr lb.members) lb.max_per) id lb h q
                  w e found live v))
      ]

  dispatch-on :
      (fuel : ℕ) (lb : Balancer) (q : List ℕ)
      → lb.queue ≡ q
      → length q < fuel
      → Orderly lb
      → Ends fuel lb
  dispatch-on zero lb q e enough v = absurd (omega (arith, enough))
  dispatch-on (suc fuel) lb [] e enough v = dispatch-empty fuel lb e v
  dispatch-on (suc fuel) lb (h ∷ q) e enough v =
      let (tail, others) = tail-Orderly lb h q e v in
      let (w, found) =
        get_elem?_total lb.waiters h (subst (All (λ i. i < length lb.waiters)) e v.exists).0 in
      elim (Bool-cases w.canceled) [
        | inl gone ↦
            dispatch-drop fuel lb (record lb { queue = q })
              (peek-cons lb h q w e found ∙ rw gone refl)
              (dispatch-on fuel (record lb { queue = q }) q refl (omega (arith, enough)) tail)
        | inr live ↦
            dispatch-live fuel lb h q w e found live v
              (λ lb' e' v'. dispatch-on fuel lb' q e' (omega (arith, enough)) v')
      ]

  -- From an orderly state, with fuel above the length of the queue and nobody else running, dispatch
  -- ends; then the queue is empty, or its head is not canceled and the selector, which may have a state or
  -- be random, finds no slot for it in one of the rounds.
  pub dispatch-Stopped :
      (fuel : ℕ) (lb : Balancer)
      → Orderly lb
      → length lb.queue < fuel
      → (lb' : Balancer) × (dispatch addr choose fuel lb ≡ some lb')
        × Stopped fuel lb'
        × Orderly lb'
  unfolding Ends
  dispatch-Stopped fuel lb v enough = dispatch-on fuel lb lb.queue refl enough v
