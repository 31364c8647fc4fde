-- ===== src/Strategy/RoundRobin.antt =====
-- internal/strategy/round_robin.go: a shared uint64 counter walks the pool.
use native.Mathlib.Decide.{dec_le}
use native.Mathlib.Nat.{mod-add-mod, mod-eq_of_lt, add-mod_right}
use s5lb.Base.{
  ℕ, zero, suc, ◌+◌, ◌-◌, ◌%◌, ◌^◌, ◌≤◌, ◌<◌, ◌≡◌, refl, sym, ap, ◌∙◌, ◌⊎◌, inl, inr, ◌&&◌, ltb,
  if◌then◌else◌, String, List, [], ◌∷◌, Option, none, some, arith, length, get_elem?, Bool-cases,
  get_elem?_total, All-of_index,
}
use s5lb.Upstream.{Snapshot, u64}
use s5lb.Strategy.{CanTake, NoneTakes}

-- One round: the counter moves on, and its old value modulo the length indexes the pool. `pool[i]`
-- panics out of range, which is `none`.
pub data Round : Type 0 where
  panics : Round
  takes : String → Round
  moves_on : Round

try_slot : Option Snapshot → ℕ → Round
try_slot none max_per = panics
try_slot (some u) max_per = if u.healthy && ltb u.active max_per then takes u.id else moves_on

-- The loop, by the attempts left. Every Add is a step of its own: `others k` is how often other picks
-- move the counter on before the Add of the attempt `k`. The result is the counter behind the last Add
-- and the ID, `none` for a panic.
attempt : (ℕ → ℕ) → List Snapshot → ℕ → ℕ → ℕ → ℕ × Option String
attempt others pool max_per zero idx = (idx, some "")
attempt others pool max_per (suc left) idx =
    let old = u64 (idx + others 0) in
    elim (try_slot (get_elem? pool (old % length pool)) max_per) [
      | panics ↦ (u64 (old + 1), none)
      | takes id ↦ (u64 (old + 1), some id)
      | moves_on ↦ attempt (λ k. others (suc k)) pool max_per left (u64 (old + 1))
    ]

unfoldable pub pick : (ℕ → ℕ) → ℕ → List Snapshot → ℕ → ℕ × Option String
unfolding attempt try_slot
pick others idx [] max_per = (idx, some "")
pick others idx (u ∷ pool) max_per = attempt others (u ∷ pool) max_per (length (u ∷ pool)) idx

-- The counter value that the attempt `k` gets, from `idx` on.
unfoldable pub seen : (ℕ → ℕ) → ℕ → ℕ → ℕ
seen others idx zero = idx + others 0
seen others idx (suc k) = seen (λ i. others (suc i)) (idx + others 0 + 1) k

-- The slot that the counter value `c` stands for can take a session.
abbrev pub SlotTakes : List Snapshot → ℕ → ℕ → String → Type 0
SlotTakes pool max_per c id =
    (u : Snapshot) × (get_elem? pool (c % length pool) ≡ some u) × CanTake max_per u × (u.id ≡ id)

-- It cannot.
abbrev pub SlotRefuses : List Snapshot → ℕ → ℕ → Type 0
SlotRefuses pool max_per c =
    (u : Snapshot) → get_elem? pool (c % length pool) ≡ some u → ¬ CanTake max_per u

-- The slots of the first `skipped` of at most `left` counter values refuse, and the next one is taken.
pub record Rotation (others : ℕ → ℕ) (pool : List Snapshot) (max_per left idx : ℕ)
    (result : ℕ × Option String) : Type 0 where
  pub skipped : ℕ
  pub id : String
  pub within : skipped < left
  pub refused : (j : ℕ) → j < skipped → SlotRefuses pool max_per (seen others idx j)
  pub taken : SlotTakes pool max_per (seen others idx skipped) id
  pub next : result ≡ (seen others idx skipped + 1, some id)

module _ (pool : List Snapshot) (max_per : ℕ) (nonempty : 0 < length pool) where
  abbrev Walk : (ℕ → ℕ) → ℕ → ℕ → ℕ × Option String → Type 0
  Walk others left idx result =
      (((j : ℕ) → j < left → SlotRefuses pool max_per (seen others idx j)) × (result.1 ≡ some ""))
      ⊎ Rotation others pool max_per left idx result

  try_slot-cases :
      (c : ℕ)
      → ((id : String) × (try_slot (get_elem? pool (c % length pool)) max_per ≡ takes id)
          × SlotTakes pool max_per c id)
        ⊎ ((try_slot (get_elem? pool (c % length pool)) max_per ≡ moves_on)
            × SlotRefuses pool max_per c)
  unfolding try_slot
  try_slot-cases c =
      let (u, e) = get_elem?_total pool (c % length pool) (omega arith) in
      elim (Bool-cases (u.healthy && ltb u.active max_per)) [
        | inl h ↦ inl (u.id, rw (e, try_slot, h), (u, e, ground arith, refl))
        | inr h ↦ inr (rw (e, try_slot, h), λ v e' t. ground arith)
      ]

  shift_refused :
      (others : ℕ → ℕ) (left idx : ℕ)
      → SlotRefuses pool max_per (idx + others 0)
      → ((j : ℕ)
          → j < left
          → SlotRefuses pool max_per (seen (λ k. others (suc k)) (idx + others 0 + 1) j))
      → (j : ℕ) → j < suc left
      → SlotRefuses pool max_per (seen others idx j)
  unfolding seen
  shift_refused others left idx h rest zero lt = h
  shift_refused others left idx h rest (suc j) lt = rest j (omega arith)

  extend :
      (others : ℕ → ℕ) (left idx : ℕ) {result : ℕ × Option String}
      → SlotRefuses pool max_per (idx + others 0)
      → Walk (λ k. others (suc k)) left (idx + others 0 + 1) result
      → Walk others (suc left) idx result
  unfolding seen
  extend others left idx h (inl (rest, e)) = inl (shift_refused others left idx h rest, e)
  extend others left idx h (inr r) = inr (record {
    skipped = suc r.skipped;
    id = r.id;
    within = omega (arith, r.within);
    refused = shift_refused others r.skipped idx h r.refused;
    taken = r.taken;
    next = r.next;
  })

  seen-above : (others : ℕ → ℕ) (idx k : ℕ) → idx + others 0 ≤ seen others idx k
  unfolding seen
  seen-above others idx zero = omega arith
  seen-above others idx (suc k) =
      omega (arith, seen-above (λ i. others (suc i)) (idx + others 0 + 1) k)

  attempt-Walk :
      (others : ℕ → ℕ) (left idx : ℕ)
      → seen others idx left < 2 ^ 64
      → Walk others left idx (attempt others pool max_per left idx)
  unfolding attempt seen
  attempt-Walk others zero idx bound = inl ((λ j h. elim h [ ]), refl)
  attempt-Walk others (suc left) idx bound =
      let above = seen-above (λ i. others (suc i)) (idx + others 0 + 1) left in
      let old_fits : u64 (idx + others 0) ≡ idx + others 0 = omega arith in
      let fits : u64 (u64 (idx + others 0) + 1) ≡ idx + others 0 + 1 = omega arith in
      elim (try_slot-cases (idx + others 0)) [
        | inl (id, e, t) ↦
            rw (old_fits, e, attempt)
              (inr (record {
                skipped = 0;
                id = id;
                within = omega arith;
                refused = λ j h. elim h [ ];
                taken = t;
                next = ap (λ n. (n, some id)) fits;
              }))
        | inr (e, refuses) ↦
            rw (old_fits, e, attempt)
              (rw fits (
                extend others left idx refuses
                  (attempt-Walk (λ k. others (suc k)) left (idx + others 0 + 1) bound)))
      ]

-- Any n consecutive counter values index every slot.
cover : (idx i n : ℕ) → i < n → (j : ℕ) × (j < n) × ((idx + j) % n ≡ i)
cover idx i n h = elim (dec_le (idx % n) i) [
  | yes le ↦ (
    i - idx % n,
    omega arith,
    sym (mod-add-mod idx n (i - idx % n)) ∙ ap (λ t. t % n) (omega arith) ∙ mod-eq_of_lt h,
  )
  | no gt ↦
      let below : idx % n < n = omega arith in
      (
        i + n - idx % n,
        omega arith,
        sym (mod-add-mod idx n (i + n - idx % n))
            ∙ ap (λ t. t % n) (omega arith)
            ∙ add-mod_right i n
            ∙ mod-eq_of_lt h,
      )
]

seen_alone : (others : ℕ → ℕ) (idx k : ℕ) → ((i : ℕ) → others i ≡ 0) → seen others idx k ≡ idx + k
unfolding seen
seen_alone others idx zero alone = omega (arith, alone 0)
seen_alone others idx (suc k) alone =
    omega
      (arith, alone 0, seen_alone (λ i. others (suc i)) (idx + others 0 + 1) k (λ i. alone (suc i)))

-- While the counter does not wrap, and however other picks move it in between: the pick takes the first
-- slot that can take a session, of those that the counter values it gets stand for, and its last Add has
-- left the counter just behind that value; or it has tried as many slots as the pool has and none could,
-- and returns "". If no other pick comes in between it tries the slots from the counter's on, cyclically,
-- and returns "" only if no upstream of the pool can take a session. It never indexes out of range.
pub pick-Rotation :
    (others : ℕ → ℕ) (pool : List Snapshot) (max_per idx : ℕ)
    → 0 < length pool
    → seen others idx (length pool) < 2 ^ 64
    → let r = pick others idx pool max_per in
      ((((j : ℕ) → j < length pool → SlotRefuses pool max_per (seen others idx j))
          × (r.1 ≡ some "")
          × (((i : ℕ) → others i ≡ 0) → NoneTakes max_per pool))
        ⊎ Rotation others pool max_per (length pool) idx r)
      × (((i : ℕ) → others i ≡ 0) → (k : ℕ) → seen others idx k ≡ idx + k)
unfolding pick
pick-Rotation others [] max_per idx nonempty bound = elim nonempty [ ]
pick-Rotation others (u ∷ us) max_per idx nonempty bound = (
  elim (attempt-Walk (u ∷ us) max_per nonempty others (length (u ∷ us)) idx bound) [
    | inl h ↦ inl (h.0, h.1, λ alone. All-of_index _ (u ∷ us) (slot alone h.0))
    | inr r ↦ inr r
  ],
  λ alone k. seen_alone others idx k alone,
)
  where
    slot :
        ((i : ℕ) → others i ≡ 0)
        → ((j : ℕ) → j < length (u ∷ us) → SlotRefuses (u ∷ us) max_per (seen others idx j))
        → (i : ℕ) (v : Snapshot) → i < length (u ∷ us)
        → get_elem? (u ∷ us) i ≡ some v
        → ¬ CanTake max_per v
    slot alone all i v h e =
        let (j, lt, at) = cover idx i (length (u ∷ us)) h in
        all j lt v (
          ap (λ c. get_elem? (u ∷ us) (c % length (u ∷ us))) (seen_alone others idx j alone)
          ∙ ap (get_elem? (u ∷ us)) at
          ∙ e)
