-- ===== src/Command/Relay.antt =====
-- cmd/kube-socks-relay/main.go: the process that an exec transport runs next to its upstream. The two
-- copies and a signal are events; the first one ends the program.
use s5lb.Base.{Bool, ◌||◌, not, if◌then◌else◌, String, str_eq, List, [], ◌∷◌, Option, none, some}

-- An error of io.Copy.
pub data CopyError : Type 0 where
  end_of_file net_closed : CopyError
  broken : String → CopyError

unfoldable pub normalize_copy_err : Option CopyError → Option String
normalize_copy_err none = none
normalize_copy_err (some end_of_file) = none
normalize_copy_err (some net_closed) = none
normalize_copy_err (some (broken e)) = some e

pub data Event : Type 0 where
  signal : Event
  stdin_copied stdout_copied : Option CopyError → Event

pub data Action : Type 0 where
  close_write close returns : Action
  returns_error : String → Action

abbrev result : Option String → Action
result none = returns
result (some e) = returns_error e

-- The select; the copy from standard input closes the write side before it reports.
unfoldable pub select : Event → List Action
unfolding normalize_copy_err
select signal = close ∷ returns ∷ []
select (stdin_copied e) = close_write ∷ close ∷ result (normalize_copy_err e) ∷ []
select (stdout_copied e) = close ∷ result (normalize_copy_err e) ∷ []

-- `dial` is whether the connection opens, of the network, host and port.
unfoldable pub run : (String → String → String → Bool) → List String → Event → List Action
unfolding select
run dial (network ∷ host ∷ port ∷ []) e =
    if not (str_eq network "tcp" || str_eq network "tcp4" || str_eq network "tcp6")
    then returns_error "unsupported network" ∷ []
    else if dial network host port
    then select e
    else returns_error "dial" ∷ []
run dial args e = returns_error "usage: kube-socks-relay tcp host port" ∷ []
