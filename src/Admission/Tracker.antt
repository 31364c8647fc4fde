-- ===== src/Admission/Tracker.antt =====
-- internal/admission/tracker.go: live sessions in an intrusive doubly linked list, oldest first. The
-- sessions are cells of a store, addressed by numbers; a nil pointer is `none`. Each method holds
-- `mu` throughout. The list is shared between the cells, so aliasing is the store's.
pub mod Chain
pub mod Add
pub mod Release
pub mod Victims
use s5lb.Base.{
  ℕ, zero, suc, ◌+◌, ◌-◌, ◌≡◌, refl, Bool, true, false, not, ltb, leb, ◌==◌, if◌then◌else◌, String,
  str_eq, List, [], ◌∷◌, Option, none, some, ℤ, ltb_ℤ,
}

-- A Session. `conn` is its client connection (nil: `none`), and AdmittedAt a time.
pub record Session : Type 0 where
  pub conn : Option ℕ
  pub upstream_id : String
  pub upstream_prio : ℤ
  pub admitted_at : ℕ
  pub prev : Option ℕ
  pub next : Option ℕ
  pub released : Bool

pub record Tracker : Type 0 where
  pub store : ℕ → Session
  pub head : Option ℕ
  pub tail : Option ℕ
  pub count : ℕ

-- Write a field of the session at `p`; through a nil pointer nothing is written, since every write
-- below stands behind its own test for nil.
abbrev pub update : (ℕ → Session) → ℕ → (Session → Session) → ℕ → Session
update store p f q = if q == p then f (store q) else store q

abbrev pub set_next : (ℕ → Session) → Option ℕ → Option ℕ → ℕ → Session
set_next store none q = store
set_next store (some p) q = update store p (λ s. record s { next = q })

abbrev pub set_prev : (ℕ → Session) → Option ℕ → Option ℕ → ℕ → Session
set_prev store none q = store
set_prev store (some p) q = update store p (λ s. record s { prev = q })

-- `t.tail.next = s` where there is a tail, `t.head = s` where there is none.
unfoldable pub add : Tracker → ℕ → Tracker
add t s =
    let fresh = update t.store s (λ x. record x { released = false; prev = t.tail; next = none }) in
    record t {
      store = set_next fresh t.tail (some s);
      head = elim t.tail [ none ↦ some s | some p ↦ t.head ];
      tail = some s;
      count = t.count + 1;
    }

-- The pointers are read again where the source reads them again.
unlink : Tracker → ℕ → Tracker
unlink t s =
    let marked = update t.store s (λ x. record x { released = true }) in
    let ahead = set_next marked (marked s).prev (marked s).next in
    let behind = set_prev ahead (ahead s).next (ahead s).prev in
    record t {
      store = update behind s (λ x. record x { prev = none; next = none });
      head = elim (marked s).prev [ none ↦ (marked s).next | some p ↦ t.head ];
      tail = elim (ahead s).next [ none ↦ (ahead s).prev | some n ↦ t.tail ];
      count = t.count - 1;
    }

-- Idempotent by the `released` flag; with no session tracked only the flag is set.
unfoldable pub release : Tracker → ℕ → Tracker
unfolding unlink
release t s =
    if (t.store s).released
    then t
    else if not (ltb 0 t.count)
    then record t { store = update t.store s (λ x. record x { released = true }) }
    else unlink t s

unfoldable pub assign : Tracker → ℕ → String → ℤ → Tracker
assign t s up_id prio = record t {
  store = update t.store s (λ x. record x { upstream_id = up_id; upstream_prio = prio });
}
