-- ===== src/Config/Parse/Tests.antt =====
-- Upstreams in their text forms, and what is refused.
use s5lb.Base.{OnSome, ◌≡◌, refl, str_eq, [], ◌∷◌, none, some, pos, if◌then◌else◌, false}
use s5lb.Config.Parse.{Text, parse_upstream}
use s5lb.Config.Parse.Laws.{Usable, parse_upstream-Usable}

-- Knows "proxy:1080#w=3" and "proxy:70000#w=3".
abbrev two_texts : Text
two_texts = record {
  at_hash = λ s.
      if str_eq s "proxy:1080#w=3" then some ("proxy:1080", "w=3") else some ("proxy:70000", "w=3");
  has_scheme = λ s. false;
  at_sign = λ s. none;
  at_colon = λ s. none;
  pair = λ s. some ("w", "3");
  commas = λ s. s ∷ [];
  split_host_port =
      λ s. if str_eq s "proxy:1080" then some ("proxy", "1080") else some ("proxy", "70000");
  atoi = λ s.
      if str_eq s "3"
      then some (pos 3)
      else if str_eq s "1080"
      then some (pos 1080)
      else some (pos 70000);
  url = λ s. none;
  addr = λ h p. h;
  digest = λ s. s;
}

with_weight :
    parse_upstream two_texts "proxy:1080#w=3"
    ≡ some (record {
      id = "proxy";
      host = "proxy";
      port = 1080;
      username = "";
      password = "";
      weight = pos 3;
      priority = pos 0;
    })
unfolding parse_upstream
with_weight = refl

port_too_large : parse_upstream two_texts "proxy:70000#w=3" ≡ none
unfolding parse_upstream
port_too_large = refl

parse_upstream-Usable_example : OnSome Usable (parse_upstream two_texts "proxy:1080#w=3")
parse_upstream-Usable_example = parse_upstream-Usable two_texts "proxy:1080#w=3"
