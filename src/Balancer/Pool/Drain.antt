-- ===== src/Balancer/Pool/Drain.antt =====
-- Draining and the selectors: IncActive refuses a draining upstream, but no selector looks at the flag.
use s5lb.Base.{ℕ, ◌<◌, ◌≡◌, ◌≢◌, true, String, eq_iff, List, ◌∷◌, none, arith}
use s5lb.Upstream.{Upstream, inc_active, snapshot}
use s5lb.Strategy.Priority
use s5lb.Balancer.Pool.{Member, find, pick_slot, current_pool}

-- With priority-failover, a healthy upstream with an ID, below its cap, that is put into drain mode while it is
-- first in the pool keeps being selected and then refuses: no slot is found, whatever upstreams
-- stand behind it.
pub pick_slot-draining :
    (addr : Upstream → String) (max_per : ℕ) (m : Member) (rest : List Member)
    → m.up.id ≢ ""
    → m.state.healthy ≡ true
    → m.state.active < max_per
    → m.state.draining ≡ true
    → pick_slot max_per (Priority.pick (current_pool addr (m ∷ rest)) max_per) (m ∷ rest)
      ≡ (m ∷ rest, none)
unfolding pick_slot find current_pool snapshot inc_active Priority.pick
pick_slot-draining addr max_per m rest named live room drained =
    ground (arith, eq_iff m.up.id "", eq_iff m.up.id m.up.id)
