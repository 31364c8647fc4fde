-- ===== src/Transport/Command.antt =====
-- What both exec transports do with an address and a command: splitAddress and expandCommand in
-- internal/transport/kubeexec.go. `Text` is what net, strconv and strings do.
use s5lb.Base.{Bool, ◌||◌, if◌then◌else◌, String, str_eq, List, Option, none, some, map}
use s5lb.Config.Validate.{Checked, failed, ok, invalid}

pub record Text : Type 0 where
  pub split_host_port : String → Option (String × String)
  pub is_int : String → Bool
  pub replace_all : (text old new : String) → String

abbrev pub is_tcp : String → Bool
is_tcp network = str_eq network "tcp" || str_eq network "tcp4" || str_eq network "tcp6"

module _ (t : Text) where
  unfoldable pub split_parts : Option (String × String) → Checked (String × String)
  split_parts none = failed (invalid "split upstream address")
  split_parts (some (host, port)) =
      if str_eq host "" || str_eq port ""
      then failed (invalid "invalid upstream address")
      else if t.is_int port
      then ok (host, port)
      else failed (invalid "invalid upstream port")

  unfoldable pub split_address : String → Checked (String × String)
  unfolding split_parts
  split_address address = split_parts (t.split_host_port address)

  -- The three placeholders, one after the other.
  unfoldable pub expand_part : (host port address part : String) → String
  expand_part host port address part =
      t.replace_all (t.replace_all (t.replace_all part "{{host}}" host) "{{port}}" port)
        "{{address}}" address

  unfoldable pub expand_command : List String → (host port address : String) → List String
  unfolding expand_part
  expand_command template host port address = map (expand_part host port address) template
