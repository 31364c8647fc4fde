-- ===== src/Balancer/Reload/Atomic.antt =====
-- A reload happens as a whole or not at all.
use s5lb.Base.{◌≡◌, Option, none, some}
use s5lb.Config.Types.{Config}
use s5lb.Config.Validate.{Error}
use s5lb.Balancer.Reload.{Engine}

-- What holds after a reload of `old`: nothing changed, or no error and the fields below are as before.
unfoldable pub Outcome : {D : Type 0} → Engine D → Engine D × Option Error → Type 0
Outcome old (new, some e) = new ≡ old
Outcome old (new, none) =
    (new.cfg.listen_addr ≡ old.cfg.listen_addr)
    × (new.cfg.admin_addr ≡ old.cfg.admin_addr)
    × (new.cfg.strategy ≡ old.cfg.strategy)
    × (new.cfg.hash_key ≡ old.cfg.hash_key)
    × (new.cfg.max_clients ≡ old.cfg.max_clients)
    × (new.cfg.otel ≡ old.cfg.otel)
