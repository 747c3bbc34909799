-- ===== src/Lib.antt =====
-- Wireguard DNS Program Split: the parts that decide which program uses the tunnel.
--
-- On Linux three programs are loaded into the kernel (src/linux/bpf). The policy (policy.bpf.h)
-- tells whether the executable of the current task is enrolled; the classifier (classifier.bpf.c)
-- asks it when a socket is created, and grants, refuses or marks the socket; the resolver guard
-- (resolver_guard.bpf.c) asks it when a process reaches for a local resolver's socket or cache. On
-- Windows a dispatcher (src/native) answers DNS queries: it attributes a query to the applications
-- whose events it saw (dns-attribution.h), sends it to the tunnel or direct under a limit of
-- exchanges (dns-capacity.h), reads and writes messages (dns-wire.h), and logs without waiting
-- (async-log.h). It asks the physical resolvers in turn (dns-dispatcher.cpp), and a supervisor
-- (dispatcher-supervisor.h) restarts it and takes the name resolution rule away in an outage.
--
-- Files:
--   Base: numbers, bytes, lists and bits that all parts use.
--   Kernel: what the BPF programs read of the kernel and the outcomes of its helpers, a parameter.
--   Policy: policy.bpf.h. PolicyMaps are the maps; resolve_policy, policy_select and result are the
--     functions of these names, with child functions for parts of resolve_policy. Policy/Tier holds
--     what is relied on of the copying helper and path_map_spec of src/linux/native/bpf-loader.cpp;
--     Policy/Paths the verdict by path.
--   Classifier: classifier.bpf.c. classify is the program; Verdict says what a verdict means.
--   Guard/Maps, Names, Roles, Streams, Hooks: resolver_guard.bpf.c, in the order of the file. A
--     function has the name it has there; the tail of a longer one behind an early return is a
--     function of its own (hold_target of guard_rename, check_stream and relabel of stream_guard).
--     GuardMaps are its maps. A negative int is none.
--   Guard/Roles/Frame, Exact, Kept: what a lookup leaves alone, and the cache of absent roles.
--   Guard/Verdicts, Connect, Rename: the answers and effects of the programs.
--   Guard/Race: threads that relabel a stream while binds, renames and enrollments happen, as a step
--     relation; Invariant and Safety argue about it.
--   Dns/Hints: class Hints of dns-attribution.h. add_resolved is addResolved; take is split at its
--     barrier into take_begin and take_end, since other threads work while it waits. Routes argues about
--     a query that goes direct; Evidence, Claims, Decided and Unanswered about what an event means, the last
--     over the Steps of any threads. Dns/Table is the hash map.
--   Dns/Wire: dns-wire.h on lists of bytes; a vector that is changed in place is returned.
--   Dns/Capacity: ExchangeLimit of dns-capacity.h, threads as an interleaving of atomic steps.
--   Log: AsyncLog of async-log.h. Queue has the state and steps, Fifo its view as a list, Fifo/Runs
--     any interleaving of callers and writer.
--   Number: parse-number.h.
--   Drain: drain_tasks of resolver_guard.bpf.c and drain.h, where classify is classify_walk and the
--     scans are arguments. Samples says what a cleared sample proves, Settled what the loop does.
--   Dispatcher/Resolvers, Routes: DirectResolvers, directExchange and the exchanges of both routes of
--     src/native/dns-dispatcher.cpp. An exchange is a function on a state of the world of any type,
--     and the clock is a reading of it, in nanoseconds. Resolvers/Attempts has the rounds of
--     directExchange; Answered, Complete, Deadline and Primary argue about them; Routes/Tunnel, Direct and
--     Truncated about the routes.
--   Dispatcher/Names, Inputs: parseQuestion of dns-wire.h; trim, lower, normalizeName, resolverList,
--     parseIncludedText and answerLiveness of dns-dispatcher.cpp. A text is cut into its fields where
--     the code searches for a separator; the bytes from an offset on are a list. towlower, iswxdigit,
--     the address parser and canonicalPath are arguments; an exception is none.
--   Dispatcher/Queries: handleUdpQuery, and a request of handleTcpClient, up to the reply and the
--     hints they leave. Circumstances holds what other threads and the clock do meanwhile.
--   Supervisor: superviseLoop of dispatcher-supervisor.h, one pass at a time. Pass is what the Windows
--     calls of a pass return. Runs are the passes from the start of the loop on.
--   Json: json_string of src/linux/native/json-string.h. Utf8 compares it with the table of
--     well-formed sequences, Decode is a reader of such strings.
--   Log.Bounded: BoundedLog of src/native/bounded-log.h over the results of its file calls.
--   Loader: src/linux/native/bpf-loader.cpp. Pins has the pin set of pin-set.h with the pinning of a load
--     and remove_pins of pin-removal.h, Entries and Inspect inspect_generation over the objects of a
--     directory, Paths read_policy_stdin and the two maps of paths. A directory is a table of names. Staging
--     has a load over what interrupted loads left, counted in calls after which it may be killed, with
--     a generation as the number of its links. Commands are guard-slot and state, Competitors the walk over the cgroups.
--   Images: src/native/dns-image-resolver.h. Lru is its cache; the steps are identifyPinned up to its wait
--     and from it on (Wait has the allowance), and those of a worker. Reach has the states that any order of them reaches.
--   Examples: concrete values.
--
-- Bounds and fuel: machine words keep their wrap-around (2 ^ 64 for counters and stamps,
-- 2 ^ 32 for the exchange counter and marks), except the two 64-bit counters of class Hints, which go up
-- by one with an event or a barrier and are not reduced; sizes of messages and tables are far below
-- 2 ^ 64, so sums of offsets are not reduced. The loop over a DNS name is run with one more round than
-- the message has bytes; each round moves on by a byte. The drain takes a fuel above the round at
-- which its deadline has passed. Times are numbers of milliseconds, those of the resolvers of nanoseconds,
-- and each reading of the clock is an argument. The loops of the dispatcher's parsers are recursions
-- on the text that is left.
--
-- Not modelled: the reading of kernel symbols and task scans in drain.h; of the loader the checks of the
-- host and of an added executable, what guard-slot enrolls, discard, hold_interrupted, the
-- clean-up of a load that fails without being killed, and the output of the commands;
-- socket, file and process calls of Windows, and with them the bodies of the two exchanges; the dispatcher's
-- threads, event trace and reload of its inputs; the log pipe, the bounded subprocess, the tray, and the tests.
-- The set that policy_entries gives is a list in the order of the reading.
pub mod Base
pub mod Kernel
pub mod Policy
pub mod Classifier
pub mod Guard
pub mod Dns
pub mod Log
pub mod Number
pub mod Dispatcher
pub mod Drain
pub mod Supervisor
pub mod Json
pub mod Loader
pub mod Images
pub mod Examples
