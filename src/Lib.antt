-- ===== src/Lib.antt =====
-- five-nines-echo: a supervisor keeps a processor, two acceptors and a scanner running,
-- replaces them by new binaries without dropping sessions, and bounds what clients may use.
-- Paths below are from the repository's root.
--
-- - Base: the names shared by all files, Boolean tests, lists, association lists for hash maps
--   (the order of a list stands for an order of iteration), and machine words. A duration or an
--   instant is a number of nanoseconds; a u32 or u64 that is added to wraps.
-- - Control (src/control.rs): the messages, statuses and health values that the parts exchange.
-- - Watchdog (src/supervisor/watchdog.rs): WatchdogState with record_spawn, record_adoption,
--   record_exit and apply_exit, health_state and snapshot, and the table of all roles. Backoff
--   is its abstract history, Health what is shown of it, Roles the table.
-- - Limits (src/limits.rs): Session is SessionCap, one step for each atomic access of any
--   number of tasks in any order; Rate is RateLimiter, with try_take_at as the source composes
--   it. Tokens are exact, in billionths, so that a rate of r tokens a second adds r of them
--   each nanosecond; the rounding of the source's f64 is left out.
-- - Auth (src/auth.rs): the allowlist of uids and check_peer. The uid of a peer, which the
--   kernel reports, is an argument.
-- - Link (src/supervisor/control.rs, src/supervisor/worker.rs): WorkerLink and its operations;
--   Connections runs the connections' reader tasks as interleaved events, each one hold of the
--   link's lock; Successor is wait_for_successor and monitor_successor over what each poll
--   reads; Supervise is one pass of supervise_role.
-- - Metrics (src/metrics.rs): the upgrade counters and MetricsSnapshot::from_parts.
-- - Upgrade (src/supervisor/admin.rs): rolling_upgrade with upgrade_one and canary_observe: its
--   result, counters, notices and messages, from what the polls of each role read.
-- - Admin (src/supervisor/admin.rs): handle_admin_request, each message. Each send holds the
--   lock of its link for itself; they stand in the order of the code with nothing between them.
--   What stands as written are the writes that are attempted: a link is the same whether its
--   write succeeds or not.
-- - Grandparent (src/grandparent.rs): the loop that starts the supervisor again, from how each
--   one ended. An error of the start or the wait ends the loop, so that the list of what ended
--   stops there.
-- - Systemd (src/systemd.rs): SdListeners, watchdog_usec, the beacon and the ping task.
--   Environment variables are arguments, with what parsing makes of them.
-- - Handoff (src/handoff.rs): the record of a session that is handed over, the schema window,
--   and the choice of the program to run.
-- - Processor (src/processor.rs, src/processor/): Session is one session over all the tasks
--   that serve it, spawn_session and echo_loop, as events between which a task can wait; Codec
--   is what they rely on of tokio_util's LinesCodec. Registry is SessionRegistry with the
--   preamble and the sidecar (src/processor/sidecar.rs), and Registry.Runs the runs of all that
--   changes it. Upgrade is src/processor/upgrade.rs: the drain, the payload of the pipe and the
--   adoption; its Attempt is do_upgrade to its commit, rollback or failure. What other tasks do
--   to the registry during an attempt is an argument and comes at one place, after the drain
--   took the sessions; the registry's lock is held through each of its operations, and the
--   adoption of the sessions after a rollback is taken in one piece. serde is a record of two
--   functions, with one law: what is written is read back.
-- - Control.Envelope (src/control.rs): the versioned frame of a message, written and read.
-- - Handoff.Ready (src/handoff.rs): the ready pipe between a successor and the worker that it
--   replaces, and CloexecGuard.
-- - Worker (src/processor/control.rs, src/acceptor/control.rs, src/scanner/control.rs): Control
--   is run_control_client, which the three files have each for itself, with the reaction of
--   each kind of worker, and the status it reports. Dial is dial_control_plane
--   (src/worker_common/dial.rs).
-- - Acceptor (src/acceptor.rs, src/acceptor/): Accept is handle_acceptor_accept with the limits
--   and the request to the scanner; Bridge is bidirectional_with_idle, its two copy loops,
--   watchdog and cancel interleaved as events; Upgrade is do_upgrade_plain, with which
--   descriptors are closed on exec; Drain is the harvest of the TLS sessions and
--   run_tls_drainer_child, its threads interleaved as steps.
-- - Scanner (src/scanner.rs, src/scanner/): a request, the exchange with identd, the publisher
--   and the wait for requests in flight. Peer follows a client's address from the acceptor over
--   the scanner to the processor.
-- - Supervisor (src/supervisor.rs, src/supervisor/self_upgrade.rs,
--   src/supervisor/listeners.rs): the environment that a supervisor makes for its successor,
--   with what is scrubbed of its own, and what the successor adopts of it.
-- - Cli (src/main.rs): parse_cli_args.
-- - Client (src/admin.rs): the admin commands, from their arguments to what they end with.
--   Verdict puts the client and handle_admin_request together.
-- - Health (src/health.rs): the answer of the endpoint and the read of its request. The JSON
--   body stands as the value that is encoded.
-- - Fault (src/fault_inject.rs): named points with budgets, and check.
--
-- The parts meet as in the code: a pass of supervise_role records its spawns, adoptions and
-- exits in the table of Watchdog, and takes what it polls from the links; a rolling upgrade
-- reads the health of Watchdog and counts in Metrics; an admin request sends on the links and
-- starts the rolling upgrade; every connection that the supervisor accepts on its own sockets
-- is checked by Auth. An acceptor asks Limits about a client and announces it to the scanner,
-- whose answer the processor stores with the client's session; a worker's client of the control
-- plane reads what the links send.
--
-- Loops that poll take the list of what the polls read, and answer `none` while the list
-- decides nothing; that enough polls decide is a theorem where the loop has a deadline.
-- Counters of machine words have their bounds as hypotheses: fewer than 2^64 tasks or
-- connections, fewer than 2^32 events.
--
-- Not modelled: sockets, processes, signals and system calls, whose answers are arguments; JSON
-- and TOML, which are third-party libraries; logging and what the command line prints; the
-- accept loops, the upgrade of the scanner but for its drain, the loop that serves one drained
-- TLS session, TLS, the passing of descriptors, the spawner, the supervisor's signals and the
-- steps of its own upgrade but for the environment, the defaults of the configuration, and the
-- sandboxes.
pub mod Acceptor
pub mod Admin
pub mod Auth
pub mod Base
pub mod Cli
pub mod Client
pub mod Control
pub mod Fault
pub mod Grandparent
pub mod Handoff
pub mod Health
pub mod Limits
pub mod Link
pub mod Metrics
pub mod Processor
pub mod Scanner
pub mod Supervisor
pub mod Systemd
pub mod Upgrade
pub mod Watchdog
pub mod Worker
