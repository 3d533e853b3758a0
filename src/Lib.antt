-- ===== src/Lib.antt =====
-- mping, a terminal program that pings several hosts at once, traces their routes and checks their
-- ports and URLs. One worker per target sends probes and settles their answers; each answer moves the
-- target's statistics; a supervisor starts, stops and replaces the components on command.
--
--   Base       shared names, lists, integers with Go's wrap-around, strings, and float64 as an
--              interface (`Floats`), of which nothing is assumed
--   Rtt        internal/stats/rtt_accumulator.go: round trip times, the history ring, the jitter
--   Thresholds internal/stats/thresholds.go: levels of warning
--   Route      internal/stats/mtr.go: the hops of a route, and the detection of route changes
--   Checks     internal/stats/portcheck.go and httpcheck.go: results of repeated checks
--   Target     internal/stats/stats.go, probe.go, history.go, events.go, health.go: the statistics of
--              one target. `Probe` is a handle of one reset window (`none` is the zero Probe)
--   Worker     internal/pinger/worker.go (`runTargetWorker`, `settleReply`, `sweepTimeouts`,
--              `recentSeqHistory`) and `resolveTargetContext` of resolve.go
--   Payload    internal/pinger/timestamp.go and `buildPayload` of worker.go: the bytes of a probe and the
--              send time that they carry
--   Receiver   internal/pinger/icmp_errors.go and the dispatch of receiver.go: the worker that a
--              message is for, if its channel is not full; its replies are those that Worker settles
--   Members    internal/pinger/targets.go and `registerTargets` of cmd/main/live_targets.go: the
--              identifiers of probes and the targets of a running pinger
--   Patterns   internal/hostsfile/expand.go: a host pattern of a hosts file and the hosts it stands for
--   Hosts      cmd/main/targetspec.go: hosts, and their expansion into one target per address
--   Edits      cmd/main/live_targets.go: hosts that join and leave a session, and its groups; it edits
--              the pinger of Members
--   Pmtu       internal/pinger/pmtu.go: `discoverIPv4MaxPayload`
--   Ipv6       internal/pinger/pmtu_ipv6.go: `discoverIPv6PathMTU`
--   Engine     internal/mtr/engine.go and annotate.go: the rounds that find and probe a route, and the
--              lookups for its addresses; it writes the hops of Route
--   Supervisor cmd/main/supervisor.go: `handle` and what it calls; Supervisor/Changes has the edits of
--              targets that it runs, as live_targets.go and live_reload.go (`reloadLive`) change the
--              supervisor, while Edits has what they do to the hosts
--
-- A method is a function from the state to the state, one atomic step, as the source's locks make it.
-- A clock reading is an argument in nanoseconds, and a nil or zero time is `none`. The outside (name
-- resolution, sockets, timers, whether a pinger starts) enters as events, as answers in a command, or
-- as a `Network` of answers. int64 durations are integers, and the sums and differences of them wrap
-- at 2^63; counters of probes are natural numbers that are taken not to reach the end of an int.
--
-- `narrow`, the loop of the path MTU search, takes its number of rounds as fuel. `max_rounds` = 63
-- halve every interval below 2^63, and with it no search of a Go int runs out. From about 2^62 on the
-- sum of the bounds is no int; the model stops there (`overflowed`), as a pattern's expansion does at a
-- count that is no int. The loop of `traceID`
-- has the 32768 rounds of the source, and the loop of `discoverIPv6PathMTU` its 8. `expand_braces` has
-- the size of its text and one more: each round goes on with what follows a range. The other loops are
-- structural recursion on lists.
--
-- The map of outstanding probes is local to a worker's function: the return cancels its probes and leaves
-- the map as it is, and `outstanding` counts it only while the worker runs.
--
-- A run of a worker has that worker's own events: what another goroutine does to the target between
-- two of them is in the theorems on the statistics (a reset), not in those on the worker. The map of
-- outstanding probes is a list, newest first, where Go's order is unspecified.
--
-- In Members and Edits a target is a number, as its pointer is its identity there, and the worker of a
-- target returns in a step of its own; a registration of several targets has no such step within it.
--
-- Not modelled: the terminal and web interfaces, the reading of files, the configuration, sockets and
-- packets, the route engine's goroutines and timers, the command queue of the supervisor, and the
-- copies of the statistics for display and export. They are input and output, or work that goes on at
-- the same time and enters as an explicit sequence of steps.
pub mod Base
pub mod Rtt
pub mod Thresholds
pub mod Route
pub mod Checks
pub mod Target
pub mod Worker
pub mod Pmtu
pub mod Supervisor
pub mod Payload
pub mod Members
pub mod Hosts
pub mod Edits
pub mod Engine
pub mod Ipv6
pub mod Receiver
pub mod Patterns
