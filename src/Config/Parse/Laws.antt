-- ===== src/Config/Parse/Laws.antt =====
-- What upstream_parse.go promises on every upstream that it accepts.
use s5lb.Base.{
  OnSome, ℕ, ◌≤◌, ◌≡◌, refl, false, ◌||◌, if-elim, String, str_eq, List, [], ◌∷◌, Option, none,
  some, ℤ, pos, negsuc, ltb_ℤ, leb_ℤ, arith,
}
use s5lb.Upstream.{Upstream}
use s5lb.Config.Parse.{
  Text, Url, blank, and_then, in_range, parse_port, normalize_id, set_weight, set_priority,
  apply_pair, apply_pairs, apply_shorthand, unless_empty, apply_query, with_user, with_creds,
  with_host, parse_url_form, plain, parse_spec, parts, parse_upstream,
}

abbrev Weighty : Upstream → Type 0
Weighty u = leb_ℤ u.weight (pos 0) ≡ false

abbrev PortRange : ℕ → Type 0
PortRange n = (1 ≤ n) × (n ≤ 65535)

-- An upstream that a balancer can use.
unfoldable pub Usable : Upstream → Type 0
Usable u = PortRange u.port × Weighty u

and_then-OnSome :
    {A B : Type 0} (P : A → Type 0) (Q : B → Type 0) (o : Option A) (f : A → Option B)
    → OnSome P o
    → ((a : A) → P a → OnSome Q (f a))
    → OnSome Q (and_then o f)
unfolding OnSome
and_then-OnSome P Q none f h k = tt
and_then-OnSome P Q (some a) f h k = k a h

-- The value of a parameter can be anything.
given-OnSome :
    {A B : Type 0} (Q : B → Type 0) (o : Option A) (f : A → Option B)
    → ((a : A) → OnSome Q (f a))
    → OnSome Q (and_then o f)
unfolding OnSome
given-OnSome Q none f k = tt
given-OnSome Q (some a) f k = k a

module _ (t : Text) where
  in_range-PortRange : (n : ℤ) → OnSome PortRange (in_range t n)
  unfolding in_range OnSome
  in_range-PortRange (pos n) =
      if-elim (OnSome PortRange) (ltb_ℤ (pos n) (pos 1) || ltb_ℤ (pos 65535) (pos n)) none (some n)
        (λ h. tt) (λ h. (ground arith, ground arith))
  in_range-PortRange (negsuc n) =
      if-elim (OnSome PortRange) (ltb_ℤ (negsuc n) (pos 1) || ltb_ℤ (pos 65535) (negsuc n)) none
        (some 0) (λ h. tt) (λ h. (ground arith, ground arith))

  parse_port-PortRange : (s : String) → OnSome PortRange (parse_port t s)
  unfolding parse_port
  parse_port-PortRange s = given-OnSome PortRange (t.atoi s) (in_range t) in_range-PortRange

  set_weight-OnSome :
      (P : Upstream → Type 0) (s : String) (u : Upstream)
      → ((n : ℤ) → leb_ℤ n (pos 0) ≡ false → P (record u { weight = n }))
      → OnSome P (set_weight t s u)
  unfolding set_weight OnSome
  set_weight-OnSome P s u h = given-OnSome P (t.atoi s) _ (λ n.
      if-elim (OnSome P) (leb_ℤ n (pos 0)) none (some (record u { weight = n })) (λ e. tt) (h n))

  set_priority-OnSome :
      (P : Upstream → Type 0) (s : String) (u : Upstream)
      → ((n : ℤ) → P (record u { priority = n }))
      → OnSome P (set_priority t s u)
  unfolding set_priority OnSome
  set_priority-OnSome P s u h = given-OnSome P (t.atoi s) _ h

  apply_pair-Weighty :
      (p : String × String) (u : Upstream) → Weighty u → OnSome Weighty (apply_pair t p u)
  unfolding apply_pair OnSome
  apply_pair-Weighty (key, val) u w =
      if-elim (OnSome Weighty) (str_eq key "w" || str_eq key "weight") _ _
        (λ e. set_weight-OnSome Weighty val u (λ n h. h))
        (λ e.
          if-elim (OnSome Weighty) (str_eq key "p" || str_eq key "priority") _ _
            (λ e'. set_priority-OnSome Weighty val u (λ n. w))
            (λ e'.
              if-elim (OnSome Weighty) (str_eq key "id") (some (record u { id = val })) none
                (λ i. w) (λ i. tt)))

  apply_pairs-Weighty :
      (kvs : List String) (u : Upstream) → Weighty u → OnSome Weighty (apply_pairs t kvs u)
  unfolding apply_pairs OnSome
  apply_pairs-Weighty [] u w = w
  apply_pairs-Weighty (kv ∷ rest) u w = given-OnSome Weighty (t.pair kv) _ (λ p.
      and_then-OnSome Weighty Weighty (apply_pair t p u) (apply_pairs t rest)
        (apply_pair-Weighty p u w) (apply_pairs-Weighty rest))

  unless_empty-OnSome :
      (P : Upstream → Type 0) (s : String) (f : Upstream → Option Upstream) (u : Upstream)
      → P u
      → OnSome P (f u)
      → OnSome P (unless_empty t s f u)
  unfolding unless_empty OnSome
  unless_empty-OnSome P s f u h k =
      if-elim (OnSome P) (str_eq s "") (some u) (f u) (λ e. h) (λ e. k)

  apply_query-Usable : (q : Url) (u : Upstream) → Usable u → OnSome Usable (apply_query t q u)
  unfolding apply_query Usable OnSome
  apply_query-Usable q u h =
      and_then-OnSome Usable Usable (unless_empty t q.weight (set_weight t q.weight) u) _
        (unless_empty-OnSome Usable q.weight (set_weight t q.weight) u h
          (set_weight-OnSome Usable q.weight u (λ n w. (h.0, w))))
        (λ v h'.
          and_then-OnSome Usable Usable (unless_empty t q.priority (set_priority t q.priority) v) _
            (unless_empty-OnSome Usable q.priority (set_priority t q.priority) v h'
              (set_priority-OnSome Usable q.priority v (λ n. h')))
            (λ x h''. unless_empty-OnSome Usable q.id _ x h'' h''))

  with_user-Weighty :
      (o : Option (String × Option String)) (u : Upstream) → Weighty u → Weighty (with_user t o u)
  unfolding with_user
  with_user-Weighty none u w = w
  with_user-Weighty (some (name, none)) u w = w
  with_user-Weighty (some (name, some pass)) u w = w

  with_creds-Weighty :
      (s : String) (o : Option (String × String)) (u : Upstream)
      → Weighty u
      → Weighty (with_creds t s o u)
  unfolding with_creds
  with_creds-Weighty s none u w = w
  with_creds-Weighty s (some p) u w = w

  with_host-Usable : (hp : String) (u : Upstream) → Weighty u → OnSome Usable (with_host t hp u)
  unfolding with_host Usable OnSome
  with_host-Usable hp u w = given-OnSome Usable (t.split_host_port hp) _ (λ p.
      and_then-OnSome PortRange Usable (parse_port t p.1) _ (parse_port-PortRange p.1)
        (λ port r. (r, w)))

  parse_url_form-Usable :
      (s : String) (u : Upstream) → Weighty u → OnSome Usable (parse_url_form t s u)
  unfolding parse_url_form OnSome
  parse_url_form-Usable s u w = given-OnSome Usable (t.url s) _ (λ p.
      if-elim (OnSome Usable) (str_eq p.scheme "socks5" || str_eq p.scheme "socks5h") _ none
        (λ e.
          and_then-OnSome Usable Usable (with_host t p.host (with_user t p.user u))
            (apply_query t p)
            (with_host-Usable p.host (with_user t p.user u) (with_user-Weighty p.user u w))
            (apply_query-Usable p))
        (λ e. tt))

  plain-Usable :
      (s : String) (o : Option (String × String)) (u : Upstream)
      → Weighty u
      → OnSome Usable (plain t s o u)
  unfolding plain
  plain-Usable s none u w = with_host-Usable s u w
  plain-Usable s (some (creds, hp)) u w =
      with_host-Usable hp (with_creds t creds (t.at_colon creds) u)
        (with_creds-Weighty creds (t.at_colon creds) u w)

  normalize_id-Usable : (u : Upstream) → Usable u → Usable (normalize_id t u)
  unfolding normalize_id Usable
  normalize_id-Usable u h = if-elim Usable (str_eq u.id "") _ u (λ e. h) (λ e. h)

  parse_spec-Usable : (s : String) (u : Upstream) → Weighty u → OnSome Usable (parse_spec t s u)
  unfolding parse_spec OnSome
  parse_spec-Usable s u w =
      and_then-OnSome Usable Usable _ _
        (if-elim (OnSome Usable) (t.has_scheme s) (parse_url_form t s u) (plain t s (t.at_sign s) u)
          (λ e. parse_url_form-Usable s u w) (λ e. plain-Usable s (t.at_sign s) u w))
        normalize_id-Usable

  parts-Usable : (s : String) (o : Option (String × String)) → OnSome Usable (parts t s o)
  unfolding parts apply_shorthand
  parts-Usable s none = parse_spec-Usable s blank refl
  parts-Usable s (some (front, pairs)) =
      and_then-OnSome Weighty Usable (apply_shorthand t pairs blank) (parse_spec t front)
        (apply_pairs-Weighty (t.commas pairs) blank refl) (parse_spec-Usable front)

-- Whatever the text, and whatever the parsers of the standard library make of it, an upstream that
-- ParseUpstream accepts has a port from 1 to 65535 and a weight above zero.
pub parse_upstream-Usable : (t : Text) (s : String) → OnSome Usable (parse_upstream t s)
unfolding parse_upstream
parse_upstream-Usable t s = parts-Usable t s (t.at_hash s)
