-- ===== src/Lib.antt =====
-- A verification library for truenas_incus_ctl, a command-line tool that drives the API of a TrueNAS
-- server. A command builds a query or a call, sends it through a session, and prints what comes back.
-- A session is either a websocket of its own or a daemon that keeps logged-in websockets and passes
-- requests of several processes on to them; the daemon's requests wait at futures.
--
-- The files and the code they are about:
--   Base        Go's comparisons, maps, byte strings, decimal numbers and slices, for all the others.
--   Queue       core/simple_queue.go. `add`, `poll` and `take` are the methods on a heap of items;
--               Queue/Refinement compares them with a list, Queue/Waiting adds threads and the
--               condition variable as a step relation. The mutex makes each method one step.
--   Future      core/future.go. `Future` is the struct, a `Waiter` a thread inside `MaybeGet`, an
--               `Event` a method that another thread calls or the next round of a waiter;
--               Future/Settled and Future/Await are about histories of events.
--   Json        the values of Go's `interface{}` that the program uses. A float64 is a value of the
--               parameter `F`, with the operations of `FloatOps`.
--   Api         core/util_json.go, and MakeErrorFromList of core/util.go, on decoded values.
--   Names       core/util.go: IdentifyObject, MakeHashedString with the hash functions as parameters,
--               and in Names/Hosts the host names, with IpPortToJsonString of core/util_json.go.
--   Daemon      core/daemon.go. Daemon/Session is `callJson` in its two locked parts, Daemon/Listen
--               is `listen` for one message, Daemon/Jobs is `handleDaemonProcedure`; pointers to
--               futures are indices into a heap. Daemon/Pool is the choice of a channel in
--               `maybeCreateSessionAndCall` and `deleteSession`, Daemon/Serve the tests of
--               `serveImpl` and the end of a request.
--   Table       core/print_data.go, the writers of tab-separated and of aligned tables.
--   Query       cmd/util_common.go: Query/Filter makes the filter and the options of `QueryApi`,
--               Query/Properties is `insertProperties`, Query/Collect the loop over the rows of a
--               response, `MergeResponseInto` and `DeleteResponseEntries`, Query/Rows the readers of
--               a response, Query/Request is `QueryApi` around its loop and `LookupNfsIdByPath`.
--   Options     cmd/util_common.go and cmd/util_flags.go: Options/Params parses option texts,
--               Options/Enums checks them against enums, Options/Columns picks the columns of a table.
--   Iscsi       cmd/iscsi_util.go: Iscsi/TargetNames makes the names of targets, Iscsi/Listings reads
--               what the system and iscsiadm list, Iscsi/Tool is the run of iscsiadm with RunCommand
--               of core/util.go, Iscsi/Deactivation, Iscsi/Lookups and Iscsi/Portals are what is
--               built on them.
--   Command     cmd/iscsi.go, cmd/iscsi_crud.go and cmd/service.go. Command/Steps is what the commands
--               are made of: a step changes the state of a session and ends, fails, panics, exits or
--               spins; `Outside` gathers what is not the program's own. Command/Create is
--               `createIscsi` with its deferred undo, its loops in Create/Plans; Command/Activate is
--               `doIscsiActivate`, Command/Shares the commands around it, Command/Delete
--               `deleteIscsi`, Command/Locate `locateIscsi` and the smaller commands, Command/Crud
--               the commands on single objects, Command/Service those on services. Command/Keeping
--               says which properties of a session these steps keep.
--   Session     core/session.go: the interface as a record of operations on a state, and the calls
--               over it; the bulk calls of cmd/util_common.go.
--   Client      truenas_api/truenas_api.go: Client/Jobs is the job manager, Client/Listen is `listen`
--               for one message, Client/Calls the start and the end of `Call`, Client/Requests the
--               calls that a client makes by itself; a `Reach` of Client/Histories is what many
--               threads and the listen thread have done to a client.
--   RealSession core/real_api.go: the list of jobs and the queue of their results.
--   ClientSession core/client_api.go: requests to the daemon, with their retries; its headers are
--               those that Daemon/Serve reads.
-- The modules named Tests hold runs at concrete inputs.
--
-- Bounds and fuel. An int64 is its value, and its increment wraps. `identify_fuel` recurses on the
-- length of the text, which each call makes shorter by a byte; `results_and_errors_fuel` and
-- `collect_rows` on the nesting of the response, which bounds the nesting of its parts and the
-- number of its rows; `hash_loop` on the number of digits; `digits_fuel` on the number itself. A
-- map of Go is an association list whose order is that of one iteration.
--
-- A request to the daemon and the login in between call one another without a bound: both are on fuel,
-- and a request that runs out of it has not ended.
--
-- Outside the model are the websocket, HTTP, JSON text, timers and processes: a message is the
-- value that it decodes to, and whether a timer fires first, how an attempt of a request ends and
-- what the system says of a socket are arguments. What a message does to a session is one step,
-- though `listen` gives its lock up before it settles the futures. `take` of a queue waits for ever
-- where no result is to come. What net/http makes of a header is
-- an argument, and names of targets are made on bytes, with the letters of ASCII made small: this
-- is what the code does for names in ASCII. How a run of iscsiadm ends is an argument too, and
-- so is what each of the 30 rounds of the watch for devices sees: the goroutine behind it is not
-- modelled. A command gets its flags as a map of texts, as the cobra library has parsed them. The
-- commands in cmd/dataset.go, cmd/snapshot.go, cmd/nfs.go, cmd/replication.go and cmd/list.go, the
-- list of services, and the configuration file are not modelled: they are flags and calls of the
-- modelled helpers, a terminal, or files.
pub mod Base
pub mod Queue
pub mod Future
pub mod Json
pub mod Api
pub mod Names
pub mod Daemon
pub mod Table
pub mod Query
pub mod Iscsi
pub mod Options
pub mod Session
pub mod Client
pub mod RealSession
pub mod ClientSession
pub mod Command
