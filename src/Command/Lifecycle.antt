-- ===== src/Command/Lifecycle.antt =====
-- The last loop of cmd/s5lb/main.go: signals, and the end of the manager's Start. An event of the list is
-- what a select takes; signals that come while the loop waits for Start stay in their channel.
use s5lb.Base.{ℕ, Bool, if◌then◌else◌, List, [], ◌∷◌, ◌++◌}

pub data Event : Type 0 where
  hangup terminate : Event
  served : (failed : Bool) → Event

pub data Action : Type 0 where
  reloads shuts_down stops_admin : Action
  exits : ℕ → Action

abbrev pub exit_of : Bool → Action
exit_of failed = exits (if failed then 1 else 0)

-- `<-serveErr` behind a shutdown.
unfoldable pub await : List Event → List Action
await [] = []
await (hangup ∷ rest) = await rest
await (terminate ∷ rest) = await rest
await (served failed ∷ rest) = exit_of failed ∷ []

unfoldable pub run : (has_admin : Bool) → List Event → List Action
unfolding await
run has_admin [] = []
run has_admin (hangup ∷ rest) = reloads ∷ run has_admin rest
run has_admin (terminate ∷ rest) =
    shuts_down ∷ (if has_admin then stops_admin ∷ [] else []) ++ await rest
run has_admin (served failed ∷ rest) = exit_of failed ∷ []
