-- ===== src/Balancer/Queue/Steps/Orderly.antt =====
-- Cancellation against delivery (cancelWaiter and dispatch): who can hold a ticket.
use s5lb.Base.{
  All-append, ℕ, ◌+◌, ◌<◌, ◌≡◌, refl, sym, ◌∙◌, subst, ◌≢◌, inl, inr, true, false, ◌==◌, String,
  List, [], ◌∷◌, ◌++◌, Option, none, some, arith, All, All-imp, get_elem?, length, length-append,
  Option-cases, Bool-cases,
}
use s5lb.Strategy.{SelectCtx}
use s5lb.Balancer.Queue.{
  Waiter, Balancer, update_at, pick, release, enqueue, receive, is_in, remove, cancel_waiter,
  dropped, head_of, peek, give_ticket, deliver_to, deliver, canceled_at, set_ticket,
}
use s5lb.Balancer.Queue.Steps.{
  Sys, Step, Run, here, next, picks, queues, drops, delivers, misses, receives, cancels, releases,
}
use s5lb.Balancer.Queue.Cells.{
  Free, Apart, length-update_at, taken_at, marked_at, fresh, appended_at, update-Free, same_length,
  remove-All, remove-Apart, is_in-Free, given_at, Apart-append,
}

-- A queued waiter exists and has no ticket, none is queued twice, and a canceled one has no ticket.
pub record Orderly (lb : Balancer) : Type 0 where
  pub exists : All (λ i. i < length lb.waiters) lb.queue
  pub free : All (Free lb.waiters) lb.queue
  pub apart : Apart lb.queue
  pub clean : (i : ℕ) → canceled_at lb.waiters i ≡ true → Free lb.waiters i

receive-Orderly : (i : ℕ) (lb : Balancer) → Orderly lb → Orderly (receive i lb).0
unfolding receive
receive-Orderly i lb v = record {
  exists =
      same_length lb.waiters (update_at i (set_ticket none) lb.waiters) lb.queue
        (length-update_at (set_ticket none) i lb.waiters) v.exists;
  free = All-imp lb.queue (λ j h. (taken_at i j lb.waiters).0 h) v.free;
  apart = v.apart;
  clean = λ j c. let at_j = taken_at i j lb.waiters in at_j.0 (v.clean j (sym at_j.1 ∙ c));
}

marked-Orderly :
    (i : ℕ) (lb : Balancer) (q : List ℕ)
    → Orderly lb
    → All (λ j. j < length lb.waiters) q
    → All (Free lb.waiters) q
    → Apart q
    → Free lb.waiters i
    → Orderly (record lb {
      waiters = update_at i (λ w. record w { canceled = true }) lb.waiters;
      queue = q;
    })
marked-Orderly i lb q v exists free apart own = record {
  exists =
      same_length lb.waiters _ q (length-update_at (λ w. record w { canceled = true }) i lb.waiters)
        exists;
  free = All-imp q (λ j h. (marked_at i j lb.waiters).0 ∙ h) free;
  apart = apart;
  clean = λ j c. elim (Bool-cases (j == i)) [
    | inl same ↦ (marked_at i j lb.waiters).0 ∙ subst (Free lb.waiters) (ground (arith, same)) own
    | inr other ↦
        (marked_at i j lb.waiters).0
        ∙ v.clean j (sym ((marked_at i j lb.waiters).1 (λ e. ground (arith, other, e))) ∙ c)
  ];
}

taken_back :
    (i : ℕ) (lb : Balancer)
    → Orderly lb
    → Orderly (record lb {
      waiters =
          update_at i
            (set_ticket none)
            (update_at i (λ w. record w { canceled = true }) lb.waiters);
    })
taken_back i lb v =
    let marked = update_at i (λ w. record w { canceled = true }) lb.waiters in
    record {
      exists =
          same_length lb.waiters _ lb.queue
            (length-update_at (set_ticket none) i marked
              ∙ length-update_at (λ w. record w { canceled = true }) i lb.waiters)
            v.exists;
      free =
          All-imp lb.queue (λ j h. (taken_at i j marked).0 ((marked_at i j lb.waiters).0 ∙ h))
            v.free;
      apart = v.apart;
      clean = λ j c. elim (Bool-cases (j == i)) [
        | inl same ↦
            subst (Free (update_at i (set_ticket none) marked)) (ground (arith, same))
              (taken_at i i marked).2
        | inr other ↦ (taken_at i j marked).0 (
            (marked_at i j lb.waiters).0
            ∙ v.clean j (
                sym ((marked_at i j lb.waiters).1 (λ e. ground (arith, other, e)))
                ∙ (sym (taken_at i j marked).1 ∙ c)))
      ];
    }

cancel_waiter-Orderly : (i : ℕ) (lb : Balancer) → Orderly lb → Orderly (cancel_waiter i lb).0
unfolding cancel_waiter
cancel_waiter-Orderly i lb v = elim (Bool-cases (is_in i lb.queue)) [
  | inl queued ↦ rw queued (
      marked-Orderly i lb (remove i lb.queue) v
        (remove-All (λ j. j < length lb.waiters) i lb.queue v.exists)
        (remove-All (Free lb.waiters) i lb.queue v.free) (remove-Apart i lb.queue v.apart).0
        (is_in-Free lb.waiters i lb.queue queued v.free))
  | inr gone ↦ rw gone (taken_back i lb v)
]

-- The queue without its head.
pub tail-Orderly :
    (lb : Balancer) (h : ℕ) (q : List ℕ)
    → lb.queue ≡ h ∷ q
    → Orderly lb
    → Orderly (record lb { queue = q }) × All (λ j. j ≢ h) q
tail-Orderly lb h q e v =
    let exists = subst (All (λ i. i < length lb.waiters)) e v.exists in
    let free = subst (All (Free lb.waiters)) e v.free in
    let apart = subst Apart e v.apart in
    (record { exists = exists.1; free = free.1; apart = apart.1; clean = v.clean }, apart.0)

pub given-Orderly :
    (h : ℕ) (id : String) (lb : Balancer)
    → Orderly lb
    → All (λ j. j ≢ h) lb.queue
    → canceled_at lb.waiters h ≡ false
    → Orderly (record lb { waiters = update_at h (set_ticket (some id)) lb.waiters })
given-Orderly h id lb v others live = record {
  exists =
      same_length lb.waiters _ lb.queue (length-update_at (set_ticket (some id)) h lb.waiters)
        v.exists;
  free = update-Free (set_ticket (some id)) h lb.waiters lb.queue others v.free;
  apart = v.apart;
  clean = λ j c.
      let at_j = given_at h j id lb.waiters in
      let was : canceled_at lb.waiters j ≡ true = sym at_j.1 ∙ c in
      at_j.0 (λ same. ground (arith, live, was, same)) ∙ v.clean j was;
}

give_ticket-Orderly :
    (h : ℕ) (id : String) (lb : Balancer) (o : Option Waiter)
    → Orderly lb
    → All (λ j. j ≢ h) lb.queue
    → canceled_at lb.waiters h ≡ false
    → Orderly (give_ticket h id lb o).0
unfolding give_ticket
give_ticket-Orderly h id lb none v others live = v
give_ticket-Orderly h id lb (some w) v others live = elim (Option-cases w.ticket) [
  | inl e ↦ rw e (given-Orderly h id lb v others live)
  | inr (t, e) ↦ rw e v
]

deliver_to-Orderly :
    (h : ℕ) (id : String) (lb : Balancer) (q : List ℕ)
    → lb.queue ≡ q
    → Orderly lb
    → Orderly (deliver_to h id lb q).0
unfolding deliver_to
deliver_to-Orderly h id lb [] e v = v
deliver_to-Orderly h id lb (x ∷ q) e v = elim (Bool-cases (x == h)) [
  | inr other ↦ rw other v
  | inl same ↦ elim (Bool-cases (canceled_at lb.waiters h)) [
    | inl gone ↦ rw (same, gone) v
    | inr live ↦
        let (tail, others) = tail-Orderly lb x q e v in
        rw (same, live)
          (give_ticket-Orderly h id (record lb { queue = q }) (get_elem? lb.waiters h) tail
            (subst (λ y. All (λ j. j ≢ y) q) (ground (arith, same)) others) live)
  ]
]

head_of-Orderly :
    (lb lb' : Balancer) (q : List ℕ)
    → lb.queue ≡ q
    → head_of lb q ≡ dropped lb'
    → Orderly lb
    → Orderly lb'
unfolding head_of
head_of-Orderly lb lb' [] eq e v = absurd (cc)
head_of-Orderly lb lb' (h ∷ q) eq e v =
    let tail : lb' ≡ record lb { queue = q } = elim (Option-cases (get_elem? lb.waiters h)) [
      | inl missing ↦ absurd (ground (arith, missing))
      | inr (w, found) ↦ ground (arith, found)
    ] in
    subst Orderly (sym tail) (tail-Orderly lb h q eq v).0

enqueue-Orderly : (sc : SelectCtx) (lb : Balancer) → Orderly lb → Orderly (enqueue sc lb).0
unfolding enqueue
enqueue-Orderly sc lb v =
    let n = length lb.waiters in
    let longer : length (lb.waiters ++ fresh sc ∷ []) ≡ n + 1 =
      length-append lb.waiters (fresh sc ∷ []) in
    record {
      exists =
          All-append (λ i. i < length (lb.waiters ++ fresh sc ∷ [])) lb.queue n
            (All-imp lb.queue (λ i h. omega (arith, h, longer)) v.exists) (omega (arith, longer));
      free =
          All-append (Free (lb.waiters ++ fresh sc ∷ [])) lb.queue n
            (All-imp lb.queue (λ i h. (appended_at sc i lb.waiters).0 h) v.free)
            (appended_at sc 0 lb.waiters).2;
      apart = Apart-append lb.queue n v.apart v.exists;
      clean = λ i c. let at_i = appended_at sc i lb.waiters in at_i.0 (v.clean i (sym at_i.1 ∙ c));
    }

Step-Orderly : (s t : Sys) → Step s t → Orderly s.lb → Orderly t.lb
unfolding pick release peek deliver
Step-Orderly _ _ (picks id s) v = record {
  exists = v.exists;
  free = v.free;
  apart = v.apart;
  clean = v.clean;
}
Step-Orderly _ _ (queues sc s) v = enqueue-Orderly sc s.lb v
Step-Orderly _ _ (drops lb' s e) v = head_of-Orderly s.lb lb' s.lb.queue refl e v
Step-Orderly _ _ (delivers h id xs ys lb e) v = deliver_to-Orderly h id lb lb.queue refl v
Step-Orderly _ _ (misses h id xs ys lb e) v = deliver_to-Orderly h id lb lb.queue refl v
Step-Orderly _ _ (receives i s) v = receive-Orderly i s.lb v
Step-Orderly _ _ (cancels i s) v = cancel_waiter-Orderly i s.lb v
Step-Orderly _ _ (releases id xs ys lb) v = record {
  exists = v.exists;
  free = v.free;
  apart = v.apart;
  clean = v.clean;
}

-- From such a state, every interleaving keeps the queue in order: the queued waiters exist, are queued
-- once and have no ticket, and a canceled waiter holds no ticket, so its slot is not stuck with it.
pub Run-Orderly : (s t : Sys) → Run s t → Orderly s.lb → Orderly t.lb
Run-Orderly _ _ (here s) v = v
Run-Orderly _ _ (next s t u run step) v = Step-Orderly t u step (Run-Orderly s t run v)
