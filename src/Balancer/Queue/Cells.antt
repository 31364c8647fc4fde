-- ===== src/Balancer/Queue/Cells.antt =====
-- The cells of the waiters, and the queue of their numbers, under the changes that queue.go makes.
use s5lb.Base.{
  All-append, ℕ, zero, suc, ◌<◌, ◌≡◌, refl, ap, subst, ◌≢◌, inl, inr, true, false, ◌==◌, String,
  List, [], ◌∷◌, ◌++◌, none, some, arith, All, All-imp, get_elem?, length, Bool-cases,
}
use s5lb.Strategy.{SelectCtx}
use s5lb.Balancer.Queue.{Waiter, update_at, is_in, remove, canceled_at, ticket_at, set_ticket}

-- No ticket, or nobody to hold one.
abbrev pub Free : List Waiter → ℕ → Type 0
Free ws i = ticket_at ws i ≡ none

abbrev pub Apart : List ℕ → Type 0
Apart [] = Unit {0}
Apart (x ∷ xs) = All (λ y. y ≢ x) xs × Apart xs

module _ (f : Waiter → Waiter) where
  pub length-update_at : (i : ℕ) (ws : List Waiter) → length (update_at i f ws) ≡ length ws
  unfolding update_at
  length-update_at i [] = refl
  length-update_at zero (w ∷ ws) = refl
  length-update_at (suc i) (w ∷ ws) = ground (arith, length-update_at i ws)

  pub get_elem?-update_at_other :
      (i j : ℕ) (ws : List Waiter) → j ≢ i → get_elem? (update_at i f ws) j ≡ get_elem? ws j
  unfolding update_at
  get_elem?-update_at_other i j [] ne = refl
  get_elem?-update_at_other zero zero (w ∷ ws) ne = absurd (ne refl)
  get_elem?-update_at_other zero (suc j) (w ∷ ws) ne = refl
  get_elem?-update_at_other (suc i) zero (w ∷ ws) ne = refl
  get_elem?-update_at_other (suc i) (suc j) (w ∷ ws) ne =
      get_elem?-update_at_other i j ws (λ e. ne (ap suc e))

  pub get_elem?-update_at :
      (i : ℕ) (ws : List Waiter)
      → get_elem? (update_at i f ws) i ≡ elim (get_elem? ws i) [ none ↦ none | some w ↦ some (f w) ]
  unfolding update_at
  get_elem?-update_at i [] = refl
  get_elem?-update_at zero (w ∷ ws) = refl
  get_elem?-update_at (suc i) (w ∷ ws) = get_elem?-update_at i ws

-- What a waiter is after the ticket of one is taken, or one is marked.
pub taken_at :
    (i j : ℕ) (ws : List Waiter)
    → (Free ws j → Free (update_at i (set_ticket none) ws) j)
      × (canceled_at (update_at i (set_ticket none) ws) j ≡ canceled_at ws j)
      × Free (update_at i (set_ticket none) ws) i
unfolding update_at
taken_at i j [] = ((λ h. refl), refl, refl)
taken_at zero zero (w ∷ ws) = ((λ h. refl), refl, refl)
taken_at zero (suc j) (w ∷ ws) = ((λ h. h), refl, refl)
taken_at (suc i) zero (w ∷ ws) = ((λ h. h), refl, (taken_at i 0 ws).2)
taken_at (suc i) (suc j) (w ∷ ws) = taken_at i j ws

pub marked_at :
    (i j : ℕ) (ws : List Waiter)
    → (ticket_at (update_at i (λ w. record w { canceled = true }) ws) j ≡ ticket_at ws j)
      × (j ≢ i
          → canceled_at (update_at i (λ w. record w { canceled = true }) ws) j ≡ canceled_at ws j)
unfolding update_at
marked_at i j [] = (refl, λ n. refl)
marked_at zero zero (w ∷ ws) = (refl, λ n. absurd (n refl))
marked_at zero (suc j) (w ∷ ws) = (refl, λ n. refl)
marked_at (suc i) zero (w ∷ ws) = (refl, λ n. refl)
marked_at (suc i) (suc j) (w ∷ ws) =
    ((marked_at i j ws).0, λ n. (marked_at i j ws).1 (λ e. n (ap suc e)))

abbrev pub fresh : SelectCtx → Waiter
fresh sc = record { ticket = none; sc = sc; canceled = false }

pub appended_at :
    (sc : SelectCtx) (i : ℕ) (ws : List Waiter)
    → (Free ws i → Free (ws ++ fresh sc ∷ []) i)
      × (canceled_at (ws ++ fresh sc ∷ []) i ≡ canceled_at ws i)
      × Free (ws ++ fresh sc ∷ []) (length ws)
appended_at sc zero [] = ((λ h. refl), refl, refl)
appended_at sc (suc i) [] = ((λ h. refl), refl, refl)
appended_at sc zero (w ∷ ws) = ((λ h. h), refl, (appended_at sc 0 ws).2)
appended_at sc (suc i) (w ∷ ws) = appended_at sc i ws

-- A change of one waiter that keeps every ticket but its own, and its own only where it is not queued.
pub update-Free :
    (f : Waiter → Waiter) (i : ℕ) (ws : List Waiter) (q : List ℕ)
    → All (λ j. j ≢ i) q
    → All (Free ws) q
    → All (Free (update_at i f ws)) q
update-Free f i ws [] ne h = tt
update-Free f i ws (j ∷ q) (n, ne) (h, hs) =
    (ground (arith, h, get_elem?-update_at_other f i j ws n), update-Free f i ws q ne hs)

pub same_length :
    (ws vs : List Waiter) (q : List ℕ)
    → length vs ≡ length ws
    → All (λ i. i < length ws) q
    → All (λ i. i < length vs) q
same_length ws vs q e h = All-imp q (λ i p. omega (arith, e, p)) h

pub remove-All : (P : ℕ → Type 0) (i : ℕ) (q : List ℕ) → All P q → All P (remove i q)
unfolding remove
remove-All P i [] h = tt
remove-All P i (x ∷ q) (h, hs) = elim (Bool-cases (x == i)) [
  | inl e ↦ rw e hs
  | inr e ↦ rw e (h, remove-All P i q hs)
]

pub remove-Apart :
    (i : ℕ) (q : List ℕ) → Apart q → Apart (remove i q) × All (λ j. j ≢ i) (remove i q)
unfolding remove
remove-Apart i [] a = (tt, tt)
remove-Apart i (x ∷ q) (n, a) = elim (Bool-cases (x == i)) [
  | inl e ↦ rw e (a, All-imp q (λ y h same. h (ground (arith, e, same))) n)
  | inr e ↦ rw e (
    (remove-All (λ y. y ≢ x) i q n, (remove-Apart i q a).0),
    ((λ same. ground (arith, e, same)), (remove-Apart i q a).1),
  )
]

pub is_in-Free :
    (ws : List Waiter) (i : ℕ) (q : List ℕ) → is_in i q ≡ true → All (Free ws) q → Free ws i
is_in-Free ws i [] e h = absurd (cc)
is_in-Free ws i (x ∷ q) e (h, hs) = elim (Bool-cases (x == i)) [
  | inl same ↦ subst (Free ws) (ground (arith, same)) h
  | inr other ↦ is_in-Free ws i q (ground (arith, other)) hs
]

pub not_in-apart : (i : ℕ) (q : List ℕ) → is_in i q ≡ false → All (λ j. j ≢ i) q
not_in-apart i [] e = tt
not_in-apart i (x ∷ q) e = ((λ same. ground (arith, same)), not_in-apart i q (ground arith))

pub given_at :
    (i j : ℕ) (id : String) (ws : List Waiter)
    → (j ≢ i → ticket_at (update_at i (set_ticket (some id)) ws) j ≡ ticket_at ws j)
      × (canceled_at (update_at i (set_ticket (some id)) ws) j ≡ canceled_at ws j)
unfolding update_at
given_at i j id [] = ((λ n. refl), refl)
given_at zero zero id (w ∷ ws) = ((λ n. absurd (n refl)), refl)
given_at zero (suc j) id (w ∷ ws) = ((λ n. refl), refl)
given_at (suc i) zero id (w ∷ ws) = ((λ n. refl), refl)
given_at (suc i) (suc j) id (w ∷ ws) =
    ((λ n. (given_at i j id ws).0 (λ e. n (ap suc e))), (given_at i j id ws).1)

pub Apart-append : (q : List ℕ) (x : ℕ) → Apart q → All (λ i. i < x) q → Apart (q ++ x ∷ [])
Apart-append [] x a h = (tt, tt)
Apart-append (y ∷ q) x (n, a) (h, hs) =
    (All-append (λ z. z ≢ y) q x n (λ same. omega (arith, h, same)), Apart-append q x a hs)
