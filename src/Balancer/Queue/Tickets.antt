-- ===== src/Balancer/Queue/Tickets.antt =====
-- The delivered tickets of each upstream, and how every section of the queue changes their number.
use s5lb.Base.{
  ℕ, zero, suc, ◌+◌, ◌≤◌, ◌≡◌, refl, inl, inr, true, String, str_eq, List, [], ◌∷◌, ◌++◌, Option,
  none, some, if◌then◌else◌, arith, Option-cases, eq_iff, get_elem?,
}
use s5lb.Balancer.Pool.{pick_slot}
use s5lb.Balancer.Pool.Laws.{active_of, active_of-pick_slot, pick_slot-refused}
use s5lb.Balancer.Queue.{
  Waiter, Balancer, update_at, pick, receive, cancel_waiter, dropped, head_of, peek, give_ticket,
  deliver_to, deliver,
}

abbrev pub same : String → String → ℕ
same x id = if str_eq x id then 1 else 0

-- The sections of the queue leave the pool and the cap alone.
abbrev pub SamePool : Balancer → Balancer → Type 0
SamePool lb lb' = (lb'.members ≡ lb.members) × (lb'.max_per ≡ lb.max_per)

abbrev pub held_by : Option String → String → ℕ
held_by none id = 0
held_by (some t) id = same t id

-- The delivered tickets that nobody has taken yet.
unfoldable pub tickets_of : String → List Waiter → ℕ
tickets_of id [] = 0
tickets_of id (w ∷ ws) = held_by w.ticket id + tickets_of id ws

pub tickets_of-append :
    (id : String) (ws : List Waiter) (w : Waiter)
    → tickets_of id (ws ++ w ∷ []) ≡ tickets_of id ws + held_by w.ticket id
unfolding tickets_of
tickets_of-append id [] w = omega arith
tickets_of-append id (x ∷ ws) w = ground (arith, tickets_of-append id ws w)

tickets_of-take :
    (id : String) (i : ℕ) (ws : List Waiter)
    → tickets_of id (update_at i (λ w. record w { ticket = none }) ws)
        + elim (get_elem? ws i) [ none ↦ 0 | some w ↦ held_by w.ticket id ]
      ≡ tickets_of id ws
unfolding tickets_of update_at
tickets_of-take id i [] = refl
tickets_of-take id zero (w ∷ ws) = omega arith
tickets_of-take id (suc i) (w ∷ ws) = ground (arith, tickets_of-take id i ws)

tickets_of-mark :
    (id : String) (i : ℕ) (ws : List Waiter)
    → tickets_of id (update_at i (λ w. record w { canceled = true }) ws) ≡ tickets_of id ws
unfolding tickets_of update_at
tickets_of-mark id i [] = refl
tickets_of-mark id zero (w ∷ ws) = refl
tickets_of-mark id (suc i) (w ∷ ws) = ground (arith, tickets_of-mark id i ws)

tickets_of-give :
    (id t : String) (h : ℕ) (ws : List Waiter) (w : Waiter)
    → get_elem? ws h ≡ some w
    → w.ticket ≡ none
    → tickets_of id (update_at h (λ w. record w { ticket = some t }) ws)
      ≡ tickets_of id ws + same t id
unfolding tickets_of update_at
tickets_of-give id t h [] w e free = absurd (cc)
tickets_of-give id t zero (x ∷ ws) w e free = ground arith
tickets_of-give id t (suc h) (x ∷ ws) w e free = ground (arith, tickets_of-give id t h ws w)

pub members-pick :
    (id j : String) (lb : Balancer)
    → active_of j (pick id lb).0.members ≡ active_of j lb.members + held_by (pick id lb).1 j
unfolding pick
members-pick id j lb = elim (Option-cases (pick_slot lb.max_per id lb.members).1) [
  | inl none_left ↦ ground (arith, none_left, pick_slot-refused lb.max_per id lb.members none_left)
  | inr (t, taken) ↦ ground (arith, taken, active_of-pick_slot lb.max_per id j t lb.members taken)
]

pub pick-waiters : (id : String) (lb : Balancer) → (pick id lb).0.waiters ≡ lb.waiters
unfolding pick
pick-waiters id lb = refl

give_ticket-count :
    (id t : String) (h : ℕ) (lb : Balancer) (o : Option Waiter)
    → get_elem? lb.waiters h ≡ o
    → tickets_of id (give_ticket h t lb o).0.waiters
      ≡ tickets_of id lb.waiters + (if (give_ticket h t lb o).1 then same t id else 0)
unfolding give_ticket
give_ticket-count id t h lb none e = ground arith
give_ticket-count id t h lb (some w) e = elim (Option-cases w.ticket) [
  | inl free ↦ ground (arith, tickets_of-give id t h lb.waiters w e free)
  | inr (x, full) ↦ ground (arith, full)
]

give_ticket-members :
    (t : String) (h : ℕ) (lb : Balancer) (o : Option Waiter) → SamePool lb (give_ticket h t lb o).0
unfolding give_ticket
give_ticket-members t h lb none = (refl, refl)
give_ticket-members t h lb (some w) = ground arith

deliver_to-count :
    (id t : String) (h : ℕ) (lb : Balancer) (queue : List ℕ)
    → (tickets_of id (deliver_to h t lb queue).0.waiters
        ≡ tickets_of id lb.waiters + (if (deliver_to h t lb queue).1 then same t id else 0))
      × SamePool lb (deliver_to h t lb queue).0
unfolding deliver_to
deliver_to-count id t h lb [] = (omega arith, (refl, refl))
deliver_to-count id t h lb (x ∷ queue) =
    let popped = record lb { queue = queue } in
    ground (
      arith,
      give_ticket-count id t h popped (get_elem? lb.waiters h) refl,
      give_ticket-members t h popped (get_elem? lb.waiters h),
    )

pub deliver-count :
    (id t : String) (h : ℕ) (lb : Balancer)
    → (tickets_of id (deliver h t lb).0.waiters
        ≡ tickets_of id lb.waiters + (if (deliver h t lb).1 then same t id else 0))
      × SamePool lb (deliver h t lb).0
unfolding deliver
deliver-count id t h lb = deliver_to-count id t h lb lb.queue

pub receive-count :
    (id : String) (i : ℕ) (lb : Balancer)
    → (tickets_of id (receive i lb).0.waiters + held_by (receive i lb).1 id
        ≡ tickets_of id lb.waiters)
      × SamePool lb (receive i lb).0
unfolding receive
receive-count id i lb = (
  elim (Option-cases (get_elem? lb.waiters i)) [
    | inl missing ↦ ground (arith, missing, tickets_of-take id i lb.waiters)
    | inr (w, found) ↦ ground (arith, found, tickets_of-take id i lb.waiters)
  ],
  (refl, refl),
)

pub cancel_waiter-count :
    (id : String) (i : ℕ) (lb : Balancer)
    → (tickets_of id (cancel_waiter i lb).0.waiters + held_by (cancel_waiter i lb).1 id
        ≡ tickets_of id lb.waiters)
      × SamePool lb (cancel_waiter i lb).0
unfolding cancel_waiter
cancel_waiter-count id i lb =
    let marked = record lb {
      waiters = update_at i (λ w. record w { canceled = true }) lb.waiters;
    } in
    ground (arith, tickets_of-mark id i lb.waiters, receive-count id i marked)

head_of-same :
    (lb lb' : Balancer) (queue : List ℕ)
    → head_of lb queue ≡ dropped lb'
    → (lb'.waiters ≡ lb.waiters) × SamePool lb lb'
unfolding head_of
head_of-same lb lb' [] e = absurd (cc)
head_of-same lb lb' (h ∷ queue) e = elim (Option-cases (get_elem? lb.waiters h)) [
  | inl missing ↦ absurd (ground (arith, missing))
  | inr (w, found) ↦ (ground (arith, found), (ground (arith, found), ground (arith, found)))
]

pub peek-same :
    (lb lb' : Balancer) → peek lb ≡ dropped lb' → (lb'.waiters ≡ lb.waiters) × SamePool lb lb'
unfolding peek
peek-same lb lb' e = head_of-same lb lb' lb.queue e

pub pick-bounded :
    (cap : ℕ) (id : String) (lb : Balancer)
    → lb.max_per ≡ cap
    → ((j : String) → active_of j lb.members ≤ cap)
    → ((pick id lb).0.max_per ≡ cap) × ((j : String) → active_of j (pick id lb).0.members ≤ cap)
unfolding pick
pick-bounded cap id lb e held = (
  e,
  λ j. elim (Option-cases (pick_slot lb.max_per id lb.members).1) [
    | inl refused ↦
        ground (arith, held j, refused, pick_slot-refused lb.max_per id lb.members refused)
    | inr (t, taken) ↦ ground (
      arith,
      e,
      taken,
      held j,
      eq_iff id j,
      active_of-pick_slot lb.max_per id j t lb.members taken,
    )
  ],
)
