-- ===== src/Lib.antt =====
-- s5lb: a SOCKS5 load balancer. A client connects to the front end of a group, passes the admission
-- gate, negotiates SOCKS5, and is given a slot of one upstream proxy, chosen by the group's strategy;
-- when no slot is free it waits in a queue. Failures trip a breaker on the upstream, and a reload
-- replaces the pool while sessions run.
--
-- The parts and their files (paths from the root of the repository):
-- - internal/upstream/state.go and upstream.go: Upstream has State, its methods and Snapshot, with the
--   source's names in snake case (IncActive is inc_active). Upstream/Laws and Upstream/Breaker hold the
--   theorems on the cap and on the failure window. Upstream/Latency is ObserveLatency, with any number of
--   calls at once.
-- - internal/strategy: Strategy has SelectCtx, HashInput (hash_input) and eligible; each selector's Pick
--   is `pick` of Strategy/Priority (priority.go), Strategy/LeastActive (least_active.go),
--   Strategy/RoundRobin (round_robin.go) and Strategy/ConsistentHash (consistent_hash.go), and
--   pick_random, pick_p2c and pick_weighted of Strategy/Sampled (random.go, p2c.go,
--   weighted_random.go). Strategy/LeastLatency is least_latency.go. Strategy/Weighted/Int64 is
--   wrr.go, which Strategy/Weighted sets out over the integers: its child Credits treats one pick, and
--   Fair a row of picks. Strategy/Registry is registry.go.
-- - internal/admission/tracker.go: Admission/Tracker has the linked list of sessions over a store of
--   cells, Admission/Tracker/Victims the choice of a victim and the list of sessions.
-- - internal/admission/gate.go: Admission/Gate has the token gate and Acquire of the four strategies. It
--   asks the tracker for a victim.
-- - internal/socks5/protocol.go: Socks5/Wire has the constants and the connection, Socks5/Server the
--   client-facing side (ReadGreeting, ReadRequest), Socks5/Client the upstream-facing side
--   (ClientHandshake, clientRequest), Socks5/Labels the labels of the metrics.
--   internal/socks5/udp.go is Socks5/Udp, and pipe.go Socks5/Pipe.
-- - internal/balancer/queue.go and the pool of balancer.go: Balancer/Pool has the pool and the slots
--   (pick, DecActive, DrainUpstream, AnyHealthy), Balancer/Queue the waiters and dispatch. Each critical
--   section is one function; Balancer/Queue/Steps lets any number of goroutines interleave
--   them, and Balancer/Queue/Cells and Tickets carry the lemmas on their waiters.
-- - Serve of balancer.go: Balancer/Frontend has the accept loop's decisions, the table of connections
--   and Shutdown, and Balancer/Frontend/Steps the gate, the tracker and the sessions' goroutines
--   together. internal/balancer/health.go: Balancer/Health.
-- - setUpstreams of balancer.go, internal/balancer/reload.go and internal/transport/factory.go:
--   Balancer/Reload.
-- - internal/balancer/session.go, session_connect.go and session_udp.go: a session is the list of its
--   effects on the rest of the balancer. Balancer/Session has handleConnect and what both commands
--   share, Balancer/Session/Entry handleUDPAssociate and handleClient; Balancer/Session/Protocol is what
--   a session may do, stated without the handlers. Balancer/Session/Relay has the two loops of the UDP
--   relay, a round of a loop being one function.
-- - internal/balancer/manager.go: Balancer/Manager has NewManager, buildGroup and the loop of Reload over
--   the groups, Balancer/Manager/Removal its shutdowns and starts, ReloadGroup and the supervision, and
--   Balancer/Manager/Views what it shows to the admin server, with publicConfig in
--   Balancer/Manager/Public.
-- - internal/admin/server.go: Admin has New with its routes and handlers, over interfaces that a record
--   of functions stands for; Admin/Policy is what a request may do, stated without the handlers, and
--   Admin/Wired fills the interfaces with the manager, as main does.
-- - internal/metrics/metrics.go: Metrics, over an interface of a registry with its documented laws.
-- - cmd/s5lb/main.go: Command makes the configuration of file, flags and arguments, Command/Lifecycle is
--   the loop over signals. cmd/kube-socks-relay/main.go: Command/Relay.
-- - internal/transport/stream_conn.go: Transport/Stream, with the goroutines around it as the steps of
--   Transport/Stream/Run; limitedBuffer is treated in Transport/Stream/Captured.
--   rawWSSReadLoop of internal/transport/wsexec.go is Transport/Exec, and its dialer
--   Transport/Exec/Dial. internal/transport/kubeexec.go is Transport/Kubernetes, with splitAddress and
--   expandCommand in Transport/Command.
-- - internal/config/config.go: Config/Types has the records and Defaults, Config/Validate has Validate
--   and BuildUpstreams, Config/Names the strategy names. internal/config/multiconfig.go: Config/Groups.
--   internal/config/upstream_parse.go: Config/Parse, over what the standard library makes of a text.
--
-- Conventions. A method that holds its mutex from the first read to the last write is one function
-- from the old state to the new one; what is done outside it, such as the atomic Adds of round robin
-- and of RecordFailure, is a step of its own. Counts are natural numbers; the uint64 counters wrap at
-- 2 ^ 64; a weight, a priority or a duration is a signed number. The int64 credits of wrr.go wrap
-- around. Bytes are numbers, texts on the wire lists of bytes. An error value is a constructor or its
-- message without the printed values. Parameters stand for the formatting of an address, hashes,
-- random numbers, net.IP, net.ParseIP, net.SplitHostPort, float64, client-go, the WebSocket library,
-- net/http/pprof, the registry of metrics, and the clock (a time is an argument).
--
-- Fuel. sessions and pick_lowest_priority_victim walk the linked list on fuel; any fuel above the number
-- of tracked sessions is enough. dispatch has fuel for its loop and its recursion through releaseSlot;
-- any fuel above the length of the queue is enough. The interleavings use its sections and no fuel.
--
-- Not modelled: the ticker of the health checks, io.Copy, YAML, the TCP dialer and the loading of a
-- kubeconfig, ServeMux and JSON, and the logging and telemetry packages. Of a session the metrics,
-- spans, logs and deadlines are left out, of a relay the goroutines that end it. The pool does not
-- change during the interleavings of Balancer/Queue/Steps, and a reload is one step.
pub mod Base
pub mod Upstream
pub mod Config
pub mod Strategy
pub mod Socks5
pub mod Admin
pub mod Admission
pub mod Balancer
pub mod Transport
pub mod Command
pub mod Metrics
