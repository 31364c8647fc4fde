-- ===== src/Balancer/Queue/Steps.antt =====
-- Interleavings of the critical sections of queue.go. Any number of goroutines run; a slot that is
-- not a ticket is in the hands of one: a session that was served, a dispatch before its delivery, or
-- a canceller that is about to release. Each step is one function of the queue.
pub mod Orderly
use s5lb.Base.{
  ℕ, ◌+◌, ◌≤◌, ◌≡◌, refl, true, false, String, List, [], ◌∷◌, ◌++◌, Option, none, some, arith,
}
use s5lb.Strategy.{SelectCtx}
use s5lb.Balancer.Pool.Laws.{active_of, active_of-release_state}
use s5lb.Balancer.Queue.{
  Balancer, pick, release, enqueue, receive, cancel_waiter, dropped, peek, deliver,
}
use s5lb.Balancer.Queue.Tickets.{
  same, held_by, tickets_of, tickets_of-append, pick-waiters, members-pick, deliver-count,
  receive-count, cancel_waiter-count, peek-same, SamePool, pick-bounded,
}

unfoldable pub count_in : String → List String → ℕ
count_in id [] = 0
count_in id (x ∷ xs) = same x id + count_in id xs

pub record Sys : Type 0 where
  pub lb : Balancer
  pub hands : List String

abbrev pub give : Option String → List String → List String
give none xs = xs
give (some t) xs = t ∷ xs

pub data Step : Sys → Sys → Type 0 where
  picks :
      (id : String) (s : Sys)
      → Step s (record { lb = (pick id s.lb).0; hands = give (pick id s.lb).1 s.hands })
  queues : (sc : SelectCtx) (s : Sys) → Step s (record s { lb = (enqueue sc s.lb).0 })
  drops : (lb' : Balancer) (s : Sys) → peek s.lb ≡ dropped lb' → Step s (record s { lb = lb' })
  delivers :
      (h : ℕ) (id : String) (xs ys : List String) (lb : Balancer)
      → (deliver h id lb).1 ≡ true
      → Step
          (record { lb = lb; hands = xs ++ id ∷ ys })
          (record { lb = (deliver h id lb).0; hands = xs ++ ys })
  misses :
      (h : ℕ) (id : String) (xs ys : List String) (lb : Balancer)
      → (deliver h id lb).1 ≡ false
      → Step
          (record { lb = lb; hands = xs ++ id ∷ ys })
          (record { lb = (deliver h id lb).0; hands = xs ++ id ∷ ys })
  receives :
      (i : ℕ) (s : Sys)
      → Step s (record { lb = (receive i s.lb).0; hands = give (receive i s.lb).1 s.hands })
  cancels :
      (i : ℕ) (s : Sys)
      → Step s
          (record { lb = (cancel_waiter i s.lb).0; hands = give (cancel_waiter i s.lb).1 s.hands })
  releases :
      (id : String) (xs ys : List String) (lb : Balancer)
      → Step
          (record { lb = lb; hands = xs ++ id ∷ ys })
          (record { lb = release id lb; hands = xs ++ ys })

pub data Run : Sys → Sys → Type 0 where
  here : (s : Sys) → Run s s
  next : (s t u : Sys) → Run s t → Step t u → Run s u

-- The active count of every upstream is the number of its slots in hands and in tickets.
unfoldable pub Conserved : Sys → Type 0
Conserved s =
    (id : String) → active_of id s.lb.members ≡ count_in id s.hands + tickets_of id s.lb.waiters

count_in-split :
    (id x : String) (xs ys : List String)
    → count_in id (xs ++ x ∷ ys) ≡ same x id + count_in id (xs ++ ys)
unfolding count_in
count_in-split id x [] ys = refl
count_in-split id x (z ∷ xs) ys = ground (arith, count_in-split id x xs ys)

count_in-give :
    (id : String) (o : Option String) (xs : List String)
    → count_in id (give o xs) ≡ held_by o id + count_in id xs
unfolding count_in
count_in-give id none xs = omega arith
count_in-give id (some t) xs = refl

Step-Conserved : (s t : Sys) → Step s t → Conserved s → Conserved t
unfolding enqueue release Conserved
Step-Conserved _ _ (picks id s) held j = ground (
  arith,
  held j,
  members-pick id j s.lb,
  count_in-give j (pick id s.lb).1 s.hands,
  pick-waiters id s.lb,
)
Step-Conserved _ _ (queues sc s) held j = ground (
  arith,
  held j,
  tickets_of-append j s.lb.waiters (record { ticket = none; sc = sc; canceled = false }),
)
Step-Conserved _ _ (drops lb' s e) held j = ground (arith, held j, peek-same s.lb lb' e)
Step-Conserved _ _ (delivers h id xs ys lb e) held j =
    ground (arith, held j, e, deliver-count j id h lb, count_in-split j id xs ys)
Step-Conserved _ _ (misses h id xs ys lb e) held j =
    ground (arith, held j, e, deliver-count j id h lb)
Step-Conserved _ _ (receives i s) held j =
    ground (arith, held j, receive-count j i s.lb, count_in-give j (receive i s.lb).1 s.hands)
Step-Conserved _ _ (cancels i s) held j =
    ground (
      arith,
      held j,
      cancel_waiter-count j i s.lb,
      count_in-give j (cancel_waiter i s.lb).1 s.hands,
    )
Step-Conserved _ _ (releases id xs ys lb) held j =
    ground (arith, held j, active_of-release_state id j lb.members, count_in-split j id xs ys)

-- No slot is lost or made up: from a state in which the active count of every upstream is the number
-- of its slots in somebody's hands or in a ticket, every interleaving leads to such states.
pub Run-Conserved : (s t : Sys) → Run s t → Conserved s → Conserved t
Run-Conserved _ _ (here s) held = held
Run-Conserved _ _ (next s t u run step) held = Step-Conserved t u step (Run-Conserved s t run held)

-- No upstream serves more than max_per sessions.
unfoldable pub Within : ℕ → Sys → Type 0
Within cap s = (s.lb.max_per ≡ cap) × ((id : String) → active_of id s.lb.members ≤ cap)

within-SamePool :
    (cap : ℕ) (lb lb' : Balancer)
    → SamePool lb lb'
    → lb.max_per ≡ cap
    → ((id : String) → active_of id lb.members ≤ cap)
    → (lb'.max_per ≡ cap) × ((id : String) → active_of id lb'.members ≤ cap)
within-SamePool cap lb lb' (m, c') c held =
    (ground (arith, c, c'), λ id. ground (arith, m, held id))

Step-Within : (cap : ℕ) (s t : Sys) → Step s t → Within cap s → Within cap t
unfolding Within enqueue release
Step-Within cap _ _ (picks id s) (c, held) = pick-bounded cap id s.lb c held
Step-Within cap _ _ (queues sc s) held = held
Step-Within cap _ _ (drops lb' s e) (c, held) =
    within-SamePool cap s.lb lb' (peek-same s.lb lb' e).1 c held
Step-Within cap _ _ (delivers h id xs ys lb e) (c, held) =
    within-SamePool cap lb (deliver h id lb).0 (deliver-count id id h lb).1 c held
Step-Within cap _ _ (misses h id xs ys lb e) (c, held) =
    within-SamePool cap lb (deliver h id lb).0 (deliver-count id id h lb).1 c held
Step-Within cap _ _ (receives i s) (c, held) =
    within-SamePool cap s.lb (receive i s.lb).0 (receive-count "" i s.lb).1 c held
Step-Within cap _ _ (cancels i s) (c, held) =
    within-SamePool cap s.lb (cancel_waiter i s.lb).0 (cancel_waiter-count "" i s.lb).1 c held
Step-Within cap _ _ (releases id xs ys lb) (c, held) =
    (c, λ j. ground (arith, held j, active_of-release_state id j lb.members))

-- From a state in which no upstream has more than max_per active sessions, every interleaving keeps the active sessions of every upstream at max_per or below.
pub Run-Within : (cap : ℕ) (s t : Sys) → Run s t → Within cap s → Within cap t
Run-Within cap _ _ (here s) held = held
Run-Within cap _ _ (next s t u run step) held =
    Step-Within cap t u step (Run-Within cap s t run held)
