-- ===== src/Admission/Tracker/Victims/Laws.antt =====
-- Which session is evicted, and what the session list shows.
use s5lb.Base.{
  ℕ, zero, suc, ◌<◌, ◌≡◌, refl, sym, ap, subst, ◌∙◌, ◌≢◌, ◌⊎◌, inl, inr, true, String, eq_iff, List,
  [], ◌∷◌, ◌++◌, Option, none, some, arith, All, map, length, ℤ, ltb_ℤ, ◌≤ℤ◌,
}
use s5lb.Admission.Tracker.{Tracker}
use s5lb.Admission.Tracker.Chain.{Store, Seg, Tracks}
use s5lb.Admission.Tracker.Victims.{
  victim_from_session, session_snapshot, snapshots, sessions, pick_at, pick_oldest_victim, consider,
  scan, or_head, lowest, pick_lowest_priority_victim,
}

snapshots-Seg :
    (remote : ℕ → String) (fuel : ℕ) (st : Store) (before cur : Option ℕ) (xs : List ℕ)
    (last : Option ℕ)
    → length xs < fuel
    → Seg st before cur xs last none
    → snapshots remote fuel st cur ≡ some (map (λ x. session_snapshot remote (st x)) xs)
unfolding snapshots
snapshots-Seg remote zero st before cur xs last h g = elim h [ ]
snapshots-Seg remote (suc fuel) st before cur [] last h g = rw (g.0, snapshots)
snapshots-Seg remote (suc fuel) st before cur (x ∷ xs) last h g =
    rw (g.0, snapshots)
      (rw (snapshots-Seg remote fuel st (some x) (st x).next xs last (omega arith) g.3) refl)

-- Sessions lists every tracked session once, oldest first, for any fuel above their number.
pub sessions-Tracks :
    (remote : ℕ → String) (fuel : ℕ) (t : Tracker) (xs : List ℕ)
    → Tracks t xs
    → length xs < fuel
    → sessions remote fuel t ≡ some (map (λ x. session_snapshot remote (t.store x)) xs)
unfolding sessions
sessions-Tracks remote fuel t xs v h =
    snapshots-Seg remote fuel t.store none t.head xs t.tail h v.linked

module _ (st : Store) where
  abbrev pub Assigned : ℕ → Type 0
  Assigned x = (st x).upstream_id ≢ ""

  abbrev pub prio : ℕ → ℤ
  prio x = (st x).upstream_prio

  -- `w` has an upstream, no session has one of numerically higher priority, and every one in front of
  -- it has a lower: it is the oldest on the least important upstream.
  pub record Worst (xs : List ℕ) (w : ℕ) : Type 0 where
    pub front : List ℕ
    pub behind : List ℕ
    pub splits : xs ≡ front ++ w ∷ behind
    pub assigned : Assigned w
    pub older : All (λ y. Assigned y → ltb_ℤ (prio y) (prio w) ≡ true) front
    pub newer : All (λ y. Assigned y → prio y ≤ℤ prio w) behind

  worst_from : Option ℕ → List ℕ → Option ℕ
  worst_from worst [] = worst
  worst_from worst (x ∷ xs) = worst_from (consider st x worst) xs

  scan-worst_from :
      (fuel : ℕ) (before cur : Option ℕ) (xs : List ℕ) (last worst : Option ℕ)
      → length xs < fuel
      → Seg st before cur xs last none
      → scan fuel st cur worst ≡ some (worst_from worst xs)
  unfolding scan worst_from
  scan-worst_from zero before cur xs last worst h g = elim h [ ]
  scan-worst_from (suc fuel) before cur [] last worst h g = rw (g.0, scan)
  scan-worst_from (suc fuel) before cur (x ∷ xs) last worst h g =
      rw (g.0, scan)
        (scan-worst_from fuel (some x) (st x).next xs last (consider st x worst) (omega arith) g.3)

  -- From a session `w` on: `w` stays, or a later one takes over.
  abbrev From : ℕ → List ℕ → Option ℕ → Type 0
  From w xs r =
      ((r ≡ some w) × All (λ y. Assigned y → prio y ≤ℤ prio w) xs)
      ⊎ ((v : ℕ) × (r ≡ some v) × (ltb_ℤ (prio w) (prio v) ≡ true) × Worst xs v)

  Worst-cons :
      (x : ℕ) (xs : List ℕ) (v : ℕ)
      → (Assigned x → ltb_ℤ (prio x) (prio v) ≡ true)
      → Worst xs v
      → Worst (x ∷ xs) v
  Worst-cons x xs v h r = record {
    front = x ∷ r.front;
    behind = r.behind;
    splits = ap (◌∷◌ x) r.splits;
    assigned = r.assigned;
    older = (h, r.older);
    newer = r.newer;
  }

  Worst-head :
      (x : ℕ) (xs : List ℕ)
      → Assigned x
      → All (λ y. Assigned y → prio y ≤ℤ prio x) xs
      → Worst (x ∷ xs) x
  Worst-head x xs a all = record {
    front = [];
    behind = xs;
    splits = refl;
    assigned = a;
    older = tt;
    newer = all;
  }

  consider-some :
      (x w : ℕ)
      → ((consider st x (some w) ≡ some w) × (Assigned x → prio x ≤ℤ prio w))
        ⊎ ((consider st x (some w) ≡ some x) × Assigned x × (ltb_ℤ (prio w) (prio x) ≡ true))
  unfolding consider
  consider-some x w = ground (arith, eq_iff (st x).upstream_id "")

  worst_from-From : (w : ℕ) (xs : List ℕ) → From w xs (worst_from (some w) xs)
  unfolding worst_from
  worst_from-From w [] = inl (refl, tt)
  worst_from-From w (x ∷ xs) = elim (consider-some x w) [
    | inl keeps ↦
        subst (λ o. From w (x ∷ xs) (worst_from o xs)) (sym keeps.0)
          (elim (worst_from-From w xs) [
            | inl h ↦ inl (h.0, (keeps.1, h.1))
            | inr h ↦
                inr (h.0, h.1, h.2, Worst-cons x xs h.0 (λ a. ground (arith, keeps.1 a, h.2)) h.3)
          ])
    | inr takes ↦
        subst (λ o. From w (x ∷ xs) (worst_from o xs)) (sym takes.0)
          (elim (worst_from-From x xs) [
            | inl h ↦ inr (x, h.0, takes.2, Worst-head x xs takes.1 h.1)
            | inr h ↦
                inr (h.0, h.1, ground (arith, takes.2, h.2), Worst-cons x xs h.0 (λ a. h.2) h.3)
          ])
  ]

  consider-none :
      (x : ℕ)
      → ((consider st x none ≡ none) × ¬ Assigned x) ⊎ ((consider st x none ≡ some x) × Assigned x)
  unfolding consider
  consider-none x = ground (arith, eq_iff (st x).upstream_id "")

  worst_from-none :
      (xs : List ℕ)
      → ((worst_from none xs ≡ none) × All (λ y. ¬ Assigned y) xs)
        ⊎ ((v : ℕ) × (worst_from none xs ≡ some v) × Worst xs v)
  unfolding worst_from
  worst_from-none [] = inl (refl, tt)
  worst_from-none (x ∷ xs) = elim (consider-none x) [
    | inl keeps ↦ subst Goal (sym keeps.0) (elim (worst_from-none xs) [
      | inl h ↦ inl (h.0, (keeps.1, h.1))
      | inr h ↦ inr (h.0, h.1, Worst-cons x xs h.0 (λ a. absurd (keeps.1 a)) h.2)
    ])
    | inr takes ↦ subst Goal (sym takes.0) (elim (worst_from-From x xs) [
      | inl h ↦ inr (x, h.0, Worst-head x xs takes.1 h.1)
      | inr h ↦ inr (h.0, h.1, Worst-cons x xs h.0 (λ a. h.2) h.3)
    ])
  ]
    where
      Goal : Option ℕ → Type 0
      Goal o =
          ((worst_from o xs ≡ none) × All (λ y. ¬ Assigned y) (x ∷ xs))
          ⊎ ((v : ℕ) × (worst_from o xs ≡ some v) × Worst (x ∷ xs) v)

  -- The session that the drop-lowest-priority strategy evicts from a list that is not empty.
  abbrev pub Evicted : ℕ → List ℕ → ℕ → Type 0
  Evicted x xs v = Worst (x ∷ xs) v ⊎ (All (λ y. ¬ Assigned y) (x ∷ xs) × (v ≡ x))

pub pick_lowest_priority_victim-nil :
    (fuel : ℕ) (t : Tracker) → Tracks t [] → pick_lowest_priority_victim fuel t ≡ some none
unfolding pick_lowest_priority_victim
pick_lowest_priority_victim-nil fuel t v = rw (v.linked.0, lowest) refl

-- With sessions tracked and any fuel above their number, the victim is the oldest session on the
-- least important upstream, counting sessions that have an upstream; if none has one, it is the
-- oldest session.
pub pick_lowest_priority_victim-Tracks :
    (fuel : ℕ) (t : Tracker) (x : ℕ) (xs : List ℕ)
    → Tracks t (x ∷ xs)
    → length (x ∷ xs) < fuel
    → (v : ℕ) × (pick_lowest_priority_victim fuel t ≡ some (some (victim_from_session (t.store v))))
      × Evicted t.store x xs v
unfolding pick_lowest_priority_victim pick_at or_head
pick_lowest_priority_victim-Tracks fuel t x xs v h =
    let scanned =
      scan-worst_from t.store fuel none (some x) (x ∷ xs) t.tail none h
        (refl, v.linked.1, v.linked.2, v.linked.3) in
    elim (worst_from-none t.store (x ∷ xs)) [
      | inl unassigned ↦ (
        x,
        rw (v.linked.0, lowest) (rw (scanned ∙ ap some unassigned.0, or_head) refl),
        inr (unassigned.1, refl),
      )
      | inr found ↦ (
        found.0,
        rw (v.linked.0, lowest) (rw (scanned ∙ ap some found.1, or_head) refl),
        inl found.2,
      )
    ]

-- With no session tracked there is no victim; otherwise drop-oldest evicts the one that was added
-- first of those tracked.
pub pick_oldest_victim-Tracks :
    (t : Tracker) (xs : List ℕ)
    → Tracks t xs
    → pick_oldest_victim t ≡ elim xs [ [] ↦ none | x ∷ r ↦ some (victim_from_session (t.store x)) ]
unfolding pick_oldest_victim
pick_oldest_victim-Tracks t [] v = rw (v.linked.0, pick_at) refl
pick_oldest_victim-Tracks t (x ∷ xs) v = rw (v.linked.0, pick_at) refl
