-- ===== src/Balancer/Queue.antt =====
-- internal/balancer/queue.go: the requests that wait for a slot, first come first served. A waiter is
-- a cell of `waiters`, named by its place; its `ticket` is the channel of capacity 1. Each function is
-- one critical section of `qmu`, or one step outside it; the metrics and the log are left out.
pub mod Cells
pub mod Tickets
pub mod Steps
pub mod Dispatch
use s5lb.Base.{
  ℕ, zero, suc, Bool, true, false, not, ◌||◌, ◌==◌, String, List, [], ◌∷◌, ◌++◌, Option, none, some,
  if◌then◌else◌, length, get_elem?,
}
use s5lb.Upstream.{Upstream}
use s5lb.Strategy.{SelectCtx}
use s5lb.Upstream.{Snapshot}
use s5lb.Balancer.Pool.{Member, pick_slot, release_state, current_pool}

pub record Waiter : Type 0 where
  pub ticket : Option String
  pub sc : SelectCtx
  pub canceled : Bool

pub record Balancer : Type 0 where
  pub members : List Member
  pub max_per : ℕ
  pub waiters : List Waiter
  pub queue : List ℕ

unfoldable pub update_at : ℕ → (Waiter → Waiter) → List Waiter → List Waiter
update_at i f [] = []
update_at zero f (w ∷ ws) = f w ∷ ws
update_at (suc i) f (w ∷ ws) = w ∷ update_at i f ws

abbrev set_ticket : Option String → Waiter → Waiter
set_ticket t w = record w { ticket = t }

-- pick, for a selector's answer `id`.
unfoldable pub pick : String → Balancer → Balancer × Option String
pick id lb =
    let (ms, taken) = pick_slot lb.max_per id lb.members in (record lb { members = ms }, taken)

-- The DecActive of releaseSlot; dispatch follows it.
unfoldable pub release : String → Balancer → Balancer
release id lb = record lb { members = release_state id lb.members }

-- The section of acquireSlot that queues a new waiter.
unfoldable pub enqueue : SelectCtx → Balancer → Balancer × ℕ
enqueue sc lb = (
  record lb {
    waiters = lb.waiters ++ record { ticket = none; sc = sc; canceled = false } ∷ [];
    queue = lb.queue ++ length lb.waiters ∷ [];
  },
  length lb.waiters,
)

abbrev canceled_at : List Waiter → ℕ → Bool
canceled_at ws i = elim (get_elem? ws i) [ none ↦ false | some w ↦ w.canceled ]

abbrev ticket_at : List Waiter → ℕ → Option String
ticket_at ws i = elim (get_elem? ws i) [ none ↦ none | some w ↦ w.ticket ]

-- `case u := <-w.ticket`.
unfoldable pub receive : ℕ → Balancer → Balancer × Option String
receive i lb =
    (record lb { waiters = update_at i (set_ticket none) lb.waiters }, ticket_at lb.waiters i)

abbrev is_in : ℕ → List ℕ → Bool
is_in i [] = false
is_in i (x ∷ xs) = x == i || is_in i xs

unfoldable pub remove : ℕ → List ℕ → List ℕ
remove i [] = []
remove i (x ∷ xs) = if x == i then xs else x ∷ remove i xs

-- cancelWaiter, up to its unlock: the ticket that was already delivered, if any, is taken back, and
-- its upstream is the result, to be released.
unfoldable pub cancel_waiter : ℕ → Balancer → Balancer × Option String
unfolding receive
cancel_waiter i lb =
    let marked = record lb {
      waiters = update_at i (λ w. record w { canceled = true }) lb.waiters;
    } in
    if is_in i lb.queue
    then (record marked { queue = remove i lb.queue }, none)
    else receive i marked

-- The first section of the loop of dispatch.
pub data Head : Type 0 where
  empty : Head
  dropped : Balancer → Head
  serve : ℕ → SelectCtx → Head

head_of : Balancer → List ℕ → Head
head_of lb [] = empty
head_of lb (h ∷ queue) = elim (get_elem? lb.waiters h) [
  | none ↦ empty
  | some w ↦ if w.canceled then dropped (record lb { queue = queue }) else serve h w.sc
]

unfoldable pub peek : Balancer → Head
unfolding head_of
peek lb = head_of lb lb.queue

give_ticket : ℕ → String → Balancer → Option Waiter → Balancer × Bool
give_ticket h id lb none = (lb, false)
give_ticket h id lb (some w) = elim w.ticket [
  | none ↦ (record lb { waiters = update_at h (set_ticket (some id)) lb.waiters }, true)
  | some t ↦ (lb, false)
]

deliver_to : ℕ → String → Balancer → List ℕ → Balancer × Bool
unfolding give_ticket
deliver_to h id lb [] = (lb, false)
deliver_to h id lb (x ∷ queue) =
    if x == h
    then (if canceled_at lb.waiters h
        then (lb, false)
        else give_ticket h id (record lb { queue = queue }) (get_elem? lb.waiters h))
    else (lb, false)

-- The second section: hand the slot of `id` to the waiter `h`, if it is still the head.
unfoldable pub deliver : ℕ → String → Balancer → Balancer × Bool
unfolding deliver_to
deliver h id lb = deliver_to h id lb lb.queue

abbrev then_run : Option Balancer → (Balancer → Option Balancer) → Option Balancer
then_run none f = none
then_run (some lb) f = f lb

-- dispatch with nobody else running. `choose k` is the selector in the round that leaves `k` fuel: it may
-- have a state or be random. `none` says that the fuel ran out.
unfoldable pub dispatch :
    (Upstream → String)
    → (ℕ → SelectCtx → List Snapshot → ℕ → String)
    → ℕ
    → Balancer
    → Option Balancer
unfolding deliver peek pick release
dispatch addr choose zero lb = none
dispatch addr choose (suc fuel) lb = elim (peek lb) [
  | empty ↦ some lb
  | dropped lb' ↦ dispatch addr choose fuel lb'
  | serve h sc ↦
      let (picked, taken) = pick (choose fuel sc (current_pool addr lb.members) lb.max_per) lb in
      elim taken [
        | none ↦ some picked
        | some id ↦
            let (handed, delivered) = deliver h id picked in
            elim delivered [
              | true ↦ dispatch addr choose fuel handed
              | false ↦
                  then_run (dispatch addr choose fuel (release id handed))
                    (dispatch addr choose fuel)
            ]
      ]
]
