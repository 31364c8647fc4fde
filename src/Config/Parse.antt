-- ===== src/Config/Parse.antt =====
-- internal/config/upstream_parse.go: an upstream in its text forms. An error is `none`. What strings,
-- strconv, net and net/url do to a text is `Text`; the State of the result is a new one.
pub mod Laws
mod Tests
use s5lb.Base.{
  ℕ, Bool, true, false, ◌||◌, if◌then◌else◌, String, str_eq, List, [], ◌∷◌, Option, none, some, ℤ,
  pos, ltb_ℤ, leb_ℤ, pos_part,
}
use s5lb.Upstream.{Upstream}

pub record Url : Type 0 where
  pub scheme : String
  pub user : Option (String × Option String)
  pub host : String
  pub weight : String
  pub priority : String
  pub id : String

-- `at_hash` cuts at the first "#", `at_sign` at the last "@", `at_colon` at the first ":" and `pair` at
-- the first "=", and `pair` also trims the spaces around both parts; `commas` splits at ",". `none` is a text
-- without the separator, or one that does not parse. A Url has the first value of each query key.
pub record Text : Type 0 where
  pub at_hash : String → Option (String × String)
  pub has_scheme : String → Bool
  pub at_sign : String → Option (String × String)
  pub at_colon : String → Option (String × String)
  pub pair : String → Option (String × String)
  pub commas : String → List String
  pub split_host_port : String → Option (String × String)
  pub atoi : String → Option ℤ
  pub url : String → Option Url
  pub addr : String → ℕ → String
  pub digest : String → String

abbrev pub blank : Upstream
blank = record {
  id = "";
  host = "";
  port = 0;
  username = "";
  password = "";
  weight = pos 1;
  priority = pos 0;
}

abbrev pub and_then : {A B : Type 0} → Option A → (A → Option B) → Option B
and_then none f = none
and_then (some a) f = f a

module _ (t : Text) where
  unfoldable pub in_range : ℤ → Option ℕ
  in_range n = if ltb_ℤ n (pos 1) || ltb_ℤ (pos 65535) n then none else some (pos_part n)

  unfoldable pub parse_port : String → Option ℕ
  unfolding in_range
  parse_port s = and_then (t.atoi s) in_range

  unfoldable pub normalize_id : Upstream → Upstream
  normalize_id u = if str_eq u.id "" then record u { id = t.digest (t.addr u.host u.port) } else u

  unfoldable pub set_weight : String → Upstream → Option Upstream
  set_weight s u =
      and_then (t.atoi s) (λ n. if leb_ℤ n (pos 0) then none else some (record u { weight = n }))

  unfoldable pub set_priority : String → Upstream → Option Upstream
  set_priority s u = and_then (t.atoi s) (λ n. some (record u { priority = n }))

  -- One case of the switch of applyShorthand.
  unfoldable pub apply_pair : String × String → Upstream → Option Upstream
  unfolding set_weight set_priority
  apply_pair (key, val) u =
      if str_eq key "w" || str_eq key "weight"
      then set_weight val u
      else if str_eq key "p" || str_eq key "priority"
      then set_priority val u
      else if str_eq key "id"
      then some (record u { id = val })
      else none

  unfoldable pub apply_pairs : List String → Upstream → Option Upstream
  unfolding apply_pair
  apply_pairs [] u = some u
  apply_pairs (kv ∷ rest) u =
      and_then (t.pair kv) (λ p. and_then (apply_pair p u) (apply_pairs rest))

  unfoldable pub apply_shorthand : String → Upstream → Option Upstream
  unfolding apply_pairs
  apply_shorthand s u = apply_pairs (t.commas s) u

  -- A query value that is not there is "", and changes nothing.
  unfoldable pub unless_empty : String → (Upstream → Option Upstream) → Upstream → Option Upstream
  unless_empty s f u = if str_eq s "" then some u else f u

  unfoldable pub apply_query : Url → Upstream → Option Upstream
  unfolding set_weight set_priority
  apply_query q u = and_then (unless_empty q.weight (set_weight q.weight) u) (λ v.
      and_then (unless_empty q.priority (set_priority q.priority) v)
        (unless_empty q.id (λ x. some (record x { id = q.id }))))

  unfoldable pub with_user : Option (String × Option String) → Upstream → Upstream
  with_user none u = u
  with_user (some (name, none)) u = record u { username = name }
  with_user (some (name, some pass)) u = record u { username = name; password = pass }

  -- net.SplitHostPort and parsePort, as both forms use them.
  unfoldable pub with_host : String → Upstream → Option Upstream
  unfolding parse_port
  with_host hp u = and_then (t.split_host_port hp) (λ (p : String × String).
      and_then (parse_port p.1) (λ port. some (record u { host = p.0; port = port })))

  unfoldable pub parse_url_form : String → Upstream → Option Upstream
  unfolding with_user with_host apply_query
  parse_url_form spec u = and_then (t.url spec) (λ p.
      if str_eq p.scheme "socks5" || str_eq p.scheme "socks5h"
      then and_then (with_host p.host (with_user p.user u)) (apply_query p)
      else none)

  -- strings.Cut at the ":", where there is one.
  unfoldable pub with_creds : String → Option (String × String) → Upstream → Upstream
  with_creds creds none u = record u { username = creds }
  with_creds creds (some (before, after)) u = record u { username = before; password = after }

  unfoldable pub plain : String → Option (String × String) → Upstream → Option Upstream
  unfolding with_host with_creds
  plain spec none u = with_host spec u
  plain spec (some (creds, hp)) u = with_host hp (with_creds creds (t.at_colon creds) u)

  -- Behind the shorthand.
  unfoldable pub parse_spec : String → Upstream → Option Upstream
  unfolding parse_url_form plain normalize_id
  parse_spec spec u =
      and_then (if t.has_scheme spec then parse_url_form spec u else plain spec (t.at_sign spec) u)
        (λ v. some (normalize_id v))

  unfoldable pub parts : String → Option (String × String) → Option Upstream
  unfolding apply_shorthand parse_spec
  parts spec none = parse_spec spec blank
  parts spec (some (front, pairs)) = and_then (apply_shorthand pairs blank) (parse_spec front)

  unfoldable pub parse_upstream : String → Option Upstream
  unfolding parts
  parse_upstream spec = parts spec (t.at_hash spec)
