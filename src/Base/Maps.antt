-- ===== src/Base/Maps.antt =====
-- A Go map as an association list: a key is looked up from the front, and a write replaces it in place;
-- and what holds of a result that may be missing.
use mathlib.Core.Path.{◌≡◌, refl, sym, ap, ◌∙◌}
use mathlib.Core.Logic.{◌≢◌, inl, inr}
use mathlib.Core.Bool.{false}
use mathlib.Core.List.{List, [], ◌∷◌}
use mathlib.Core.Option.{Option, none, some}
use native.Mathlib.Omega.{arith}
use Prim.Native.String.{String}
use text.Mathlib.Text.{◌==◌ as str_eq}
use text.Mathlib.TextEquality.{eq_iff}
use s5lb.Base.Tests.{if◌then◌else◌, Bool-cases}

unfoldable pub lookup : {A : Type 0} → String → List (String × A) → Option A
lookup name [] = none
lookup name ((n, e) ∷ rest) = if str_eq n name then some e else lookup name rest

-- `m[name] = e`.
unfoldable pub put : {A : Type 0} → String → A → List (String × A) → List (String × A)
put name e [] = (name, e) ∷ []
put name e ((n, x) ∷ rest) = if str_eq n name then (n, e) ∷ rest else (n, x) ∷ put name e rest

pub str_eq-ne : (a b : String) → a ≢ b → str_eq a b ≡ false
str_eq-ne a b ne = elim (Bool-cases (str_eq a b)) [
  | inl h ↦ absurd (ne (ground (arith, h, eq_iff a b)))
  | inr h ↦ h
]

pub lookup-put :
    {A : Type 0} (name : String) (e : A) (m : List (String × A))
    → lookup name (put name e m) ≡ some e
unfolding lookup put
lookup-put name e [] = ground (arith, eq_iff name name)
lookup-put name e ((n, x) ∷ rest) = elim (Bool-cases (str_eq n name)) [
  | inl h ↦ rw h (rw h refl)
  | inr h ↦ rw h (rw h (lookup-put name e rest))
]

pub lookup-put_other :
    {A : Type 0} (name other : String) (e : A) (m : List (String × A))
    → other ≢ name
    → lookup other (put name e m) ≡ lookup other m
unfolding lookup put
lookup-put_other name other e [] ne =
    let apart : str_eq name other ≡ false = str_eq-ne name other (λ h. ne (sym h)) in rw apart refl
lookup-put_other name other e ((n, x) ∷ rest) ne = elim (Bool-cases (str_eq n name)) [
  | inl h ↦
      let same : n ≡ name = ground (arith, h, eq_iff n name) in
      let apart : str_eq n other ≡ false = str_eq-ne n other (λ k. ne (sym k ∙ same)) in
      rw h (rw apart refl)
  | inr h ↦
      rw h (ap (λ o. if str_eq n other then some x else o) (lookup-put_other name other e rest ne))
]

-- What holds of a result, if there is one.
unfoldable pub OnSome : {A : Type 0} → (A → Type 0) → Option A → Type 0
OnSome P none = Unit
OnSome P (some a) = P a
