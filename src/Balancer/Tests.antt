-- ===== src/Balancer/Tests.antt =====
-- The laws of the pool, the queue and the reload with one or two upstreams.
use s5lb.Base.{
  ◌≡◌, refl, true, false, String, eq_iff, List, [], ◌∷◌, Option, none, some, arith, pos,
}
use s5lb.Upstream.{State, inc_active}
use s5lb.Strategy.{SelectCtx, client_ip}
use s5lb.Strategy.Priority
use s5lb.Balancer.Pool.{Member, find, set_state, pick_slot, current_pool}
use s5lb.Balancer.Pool.Drain.{pick_slot-draining}
use s5lb.Balancer.Queue.{Balancer, dispatch, Waiter, update_at, pick, enqueue, deliver}
use s5lb.Balancer.Queue.Steps.{
  count_in, Sys, Run, here, next, picks, queues, delivers, Conserved, Run-Conserved, Within,
  Run-Within,
}
use s5lb.Balancer.Queue.Steps.Orderly.{Orderly, Run-Orderly}
use s5lb.Balancer.Queue.Dispatch.{Stopped, dispatch-Stopped}
use s5lb.Balancer.Queue.Tickets.{tickets_of}
use s5lb.Config.Types.{Config, defaults}
use s5lb.Config.Validate.{Env, ok}
use s5lb.Balancer.Reload.{Factory, Engine}
use s5lb.Admission.Gate.{rejects, new}

abbrev up : String → State → Member
up name s = record {
  up = record {
    id = name;
    host = name;
    port = 1080;
    username = "";
    password = "";
    weight = pos 1;
    priority = pos 0;
  };
  state = s;
}

abbrev idle : State
idle = record {
  active = 0;
  healthy = true;
  draining = false;
  last_failure_ts = 0;
  first_failure_ts = 0;
  consecutive_failures = 0;
  total_sessions = 0;
  total_failures = 0;
  ewma_bits = 0;
}

abbrev pool : List Member
pool = up "a" idle ∷ up "b" idle ∷ []

abbrev first_id : String
first_id = "a"

pick_slot-draining_example :
    pick_slot 5
      (Priority.pick
        (current_pool (λ u. u.host) (up "a" (record idle { draining = true }) ∷ up "b" idle ∷ []))
        5)
      (up "a" (record idle { draining = true }) ∷ up "b" idle ∷ [])
    ≡ (up "a" (record idle { draining = true }) ∷ up "b" idle ∷ [], none)
pick_slot-draining_example =
    pick_slot-draining (λ u. u.host) 5 (up "a" (record idle { draining = true })) (up "b" idle ∷ [])
      (λ e. ground (arith, eq_iff "a" "")) refl (omega arith) refl

abbrev start : Sys
start = record { lb = record { members = pool; max_per = 1; waiters = []; queue = [] }; hands = [] }

abbrev asks : SelectCtx
asks = record { client_addr = none; dst_host = ""; dst_port = 0; hash_key = client_ip }

-- "a" serves one session.
abbrev serving : List Member
serving = up "a" (record idle { active = 1; total_sessions = 1 }) ∷ up "b" idle ∷ []

abbrev waiting : Option String → Waiter
waiting t = record { ticket = t; sc = asks; canceled = false }

-- A pick, a waiter that finds no slot, and the slot handed to it.
abbrev handed : Sys
handed = record {
  lb = record { members = serving; max_per = 1; waiters = waiting (some "a") ∷ []; queue = [] };
  hands = [];
}

to_handed : Run start handed
unfolding pick pick_slot find inc_active set_state enqueue deliver update_at
to_handed =
    let picked : Sys = record {
      lb = record { members = serving; max_per = 1; waiters = []; queue = [] };
      hands = "a" ∷ [];
    } in
    let queued : Sys = record {
      lb = record { members = serving; max_per = 1; waiters = waiting none ∷ []; queue = 0 ∷ [] };
      hands = "a" ∷ [];
    } in
    next start queued handed
      (next start picked queued (next start start picked (here start) (picks "a" start))
        (queues asks picked))
      (delivers 0 "a" [] [] queued.lb refl)

start-Conserved : Conserved start
unfolding Conserved count_in tickets_of find
start-Conserved id = ground arith

Run-Conserved_example : Conserved handed
Run-Conserved_example = Run-Conserved start handed to_handed start-Conserved

start-Within : Within 1 start
unfolding Within find
start-Within = (refl, λ id. ground arith)

Run-Within_example : Within 1 handed
Run-Within_example = Run-Within 1 start handed to_handed start-Within

start-Orderly : Orderly start.lb
start-Orderly = record { exists = tt; free = tt; apart = tt; clean = λ i c. refl }

Run-Orderly_example : Orderly handed.lb
Run-Orderly_example = Run-Orderly start handed to_handed start-Orderly

-- One waiter in the queue, both upstreams idle.
abbrev lined_up : Balancer
lined_up = (enqueue asks start.lb).0

lined_up-Orderly : Orderly lined_up
lined_up-Orderly =
    Run-Orderly start (record start { lb = lined_up })
      (next start start _ (here start) (queues asks start)) start-Orderly

dispatch-Stopped_example :
    (lb' : Balancer) × (dispatch (λ u. u.host) (λ k sc snaps max. "b") 2 lined_up ≡ some lb')
    × Stopped (λ u. u.host) (λ k sc snaps max. "b") 2 lb'
    × Orderly lb'
dispatch-Stopped_example =
    dispatch-Stopped (λ u. u.host) (λ k sc snaps max. "b") 2 lined_up lined_up-Orderly
      (unfold enqueue in omega arith)

abbrev lenient : Env
lenient = record { is_ip = λ s. true; splits = λ s. true; normal = λ s. s; in_unit = λ b. true }

abbrev dialers : Factory String
dialers = record { tcp = λ t. "tcp"; raw_wss = λ k. ok "wss"; exec = λ k. ok "exec" }

abbrev moved : Config
moved = record (defaults 0) {
  listen_addr = "0.0.0.0:1";
  upstreams =
      record {
        id = "c";
        host = "c";
        port = pos 1;
        username = "";
        password = "";
        weight = pos 1;
        priority = pos 0;
      }
      ∷ [];
}

abbrev engine : Engine String
engine = record {
  cfg = defaults 0;
  dialer = "tcp";
  members = serving;
  kind = rejects;
  wait = pos 0;
  gate = new 8;
}
