-- ===== src/Lib.antt =====
-- Sardeenz: a cluster of pods that serve models with vLLM. Each pod runs a backend, which keeps the
-- instances of its own models, hears of the other pods by heartbeats, elects a leader with them, builds from
-- what it hears a table of which pod serves which model, and sends every inference request to an instance of
-- its own or to another pod; the leader places the models of a preset on the GPUs of the cluster.
--
-- The parts, and where they are modelled (paths from the root of the repository, B for apps/backend/src):
--   Base       helpers: lists, `Dict` (the built-in `Map`, in order of insertion), a stable sort, texts
--   Types      packages/types/src/cluster.ts, models.ts: the shared records
--   Cluster/PeerStore      B/stores/peer-store.ts, class PeerStore: what a pod knows of the others
--   Cluster/RoutingStore   B/stores/cluster-routing-store.ts: model names to the pods that serve them
--   Cluster/Heartbeat      B/services/heartbeat.ts: a `Node` holds both stores and the flag of the
--              debounced rebuild; processIncomingHeartbeat, handleAck, reapPeers, and the rebuild that a
--              timer starts are its steps
--   Cluster/Events         B/routes/internal.ts, /internal/cluster/event: events that a peer sends at once
--   Cluster/Auth           B/services/cluster-auth.ts: the signatures of requests between pods
--   Cluster/Election       B/services/leader-election.ts, HeartbeatLeaderElection: one round reads the
--              peer store and elects the least id that is not unavailable
--   Cluster/Lease          the same file, KubernetesLeaderElection: one attempt reads the lease, and
--              renews it, takes it over, or follows its holder
--   Cluster/Discovery      B/services/peer-discovery.ts: the pods that a discovery knows, and its callbacks
--   Cluster/Manager        B/services/cluster-manager.ts: what the callbacks of discovery and election do to
--              the two stores; a `System` is a manager with the discovery that it listens to
--   Cluster/Redirect       B/plugins/leader-redirect.ts: a follower's hook, which forwards to the leader
--   Scheduler/Slots, Place, Reconcile   B/services/pod-scheduler.ts: GPU slots from the peer store,
--              placement of a list of entries, and the plan that brings the cluster to a preset
--   Models/Store           B/stores/model-store.ts: the instances of a pod with indexes by path and name
--   Moves/Store            B/stores/move-store.ts: the operations that move a model to other GPUs, and the
--              lock that lets one at a time through
--   Models/Manager         B/services/model-manager.ts: the life of an instance as steps over the model
--              store, the processes and the logs; a method that awaits is two steps, between which others run
--   Moves/Mover            B/services/model-mover.ts: a move within a pod, over the model manager and the
--              move store, and (CrossPod) to another pod, over the peer store and the routing table too; a
--              `World` says what other tasks do at each of its awaits
--   Stores/Requests, Operations         B/stores/request-store.ts, operation-store.ts: bounded histories
--   Stores/Metrics, Connections         B/stores/metrics-store.ts: the metrics of a model, and the
--              connections of an instance, which the drain of a move counts
--   Gpus/Tracker           B/utils/sim-gpu-tracker.ts: the memory of simulated GPUs
--   Gpus/Selector          B/services/gpu-selector.ts: the GPUs for a model, chosen or recommended
--   Logs/Buffer            B/services/process-log-buffer.ts: the last lines of each process
--   Logs/Progress          B/utils/load-progress-tracker.ts: the progress of a load, read off its log
--   Logs/Bus               B/services/event-bus.ts: the connections that follow an instance, and its events
--   Proxy/Breaker, Balancer, Route      B/services/proxy-router.ts: CircuitBreaker, the two balancers, and
--              routeRequest over the model store, the routing table and these three
--   Proxy/Local            the same file, routeLocal and selectInstanceForAudio, with the ends of a request in
--              B/routes/proxy.ts: the requests in flight over the three stores that count them
--   Benchmarks/Statistics, Runner       B/services/benchmark-runner.ts: the metrics of a scenario, and the
--              run of a benchmark, with the cancellations that come in at its waits but those for the rows of a
--              scenario
--   Http/Users             B/plugins/auth.ts, and the hook of B/server.ts that calls it: who is let through
--   Http/Keys              B/plugins/inference-auth.ts and cluster-auth.ts: the key of the inference endpoints,
--              and the hook that checks the signatures of Cluster/Auth
--   Http/ClusterModels     B/routes/cluster/models.ts and the handlers of B/routes/internal.ts that it calls:
--              operations on an instance of any pod, over the model managers of all pods
--   Processes/Children     B/services/memory-monitor.ts, findGpuChildPid: the search of a tree of processes
--   Processes/Orphans      B/services/orphan-detector.ts: vLLM processes that no instance of the store owns
--
-- Names are the source's, in snake case. A method that writes takes the state and returns the new one, with
-- its result where it has one. The clock, the replies of Kubernetes, the status of a forwarded request and
-- the memory profiles of the database are arguments. An exception is a value: `none`, `false`, or a
-- constructor of `Route` or `Outcome`.
--
-- Bounds. All recursion is structural, but for the search of processes, which takes one step for each and
-- one more, and the three polling loops of a move, which take fuel: each poll
-- lasts at least its interval of 2000 ms, or of 3000 ms for another pod, so that the wait of 30 minutes takes
-- at most 901 polls; a poll of the drain lasts at least 500 ms, so that it takes at most one poll more than
-- twice its timeout in seconds. Memory of the scheduler is counted in units of 1/720720 MB: 720720 is a
-- multiple of every number up to 16, so that the division of a model's memory among up to 16 GPUs of a pod is
-- exact; above 16 a share is rounded down. A GPU is taken to report no more memory used than it has.
-- Timestamps, amounts of memory and terms are unbounded natural numbers.
--
-- Not modelled: the transport of HTTP, processes, timers and logging; the stores that are tables of a
-- database; the arguments and the measurements of a launched model; the rounding of floating-point numbers;
-- the tokens of users, the opening of streams of events, and the frontend.
pub mod Base
pub mod Types
pub mod Benchmarks
pub mod Cluster
pub mod Scheduler
pub mod Http
pub mod Models
pub mod Processes
pub mod Proxy
pub mod Moves
pub mod Logs
pub mod Gpus
pub mod Stores
