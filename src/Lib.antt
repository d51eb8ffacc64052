-- ===== src/Lib.antt =====
-- certel watches TLS certificates: a scheduler checks every target, the store logs the check, the
-- alert manager decides what each notifier is told and queues it, and a dispatcher for each
-- notifier sends what is queued. This library models that path, from the certificates that a server
-- presents to the posts of a notifier, with the store under it and the configuration before it.
--
-- Parts and files:
--   Prelude      the helpers that the parts share: tests, lists, association lists, integers, and
--                texts as lists of code points.
--   Clock        times as nanoseconds since the year 1, durations as integers; Sub saturates, as
--                time.Time does.
--   Token        what the two regular expressions of the program match, refRe of template.go and
--                envRe of config.go, with FindAll and ReplaceAllStringFunc as a scan of a text.
--   Config       internal/config/config.go: Config/Repeat has RepeatInterval, its For and its
--                validation; Config/Target the configuration's records and Target.Key;
--                Config/Defaults the defaults of targets in applyDefaults; Config/Validate is
--                Validate, with the tests on files and URLs as parameters; Config/Tree has the
--                values of YAML, and Config/Expand is expandEnv and expandEnvTree.
--   Probe        Probe/Result is internal/probe/result.go: statuses, severities and the result of a
--                check. Probe/Check is evaluate of internal/probe/probe.go, with all it calls; the
--                X.509 library is a parameter; Probe/Attempts is Check, and checkOnce behind its
--                connection. internal/probe/starttls.go is Probe/Starttls/Wire, the connection with
--                its budgeted reader, and Probe/Starttls/Dialogue, the dialogue of each protocol.
--   Alert        internal/alert. Alert/Types has the shared records; Alert/Channel what one notifier
--                sees (severityRank, clampView, notifierFloor and the switch of Process);
--                Alert/Debounce the flap debounce of Process and reconstructPending; Alert/Decision
--                what Process settles on a reading that it trusts; Alert/Manager
--                is Process, as one step from manager and store to manager, store and the notifiers
--                woken, and Alert/Manager/Restore is Restore; Alert/Dispatcher is dispatchOnce and
--                drainTarget of dispatcher.go; Alert/Sender is Send of sender.go. template.go is
--                Alert/Template: Times has its time formats, Payload the fields of an alert, Body
--                and Render the parsing and the rendering of a body, Merge is deepMerge.
--   Store        internal/store/store.go: the tables as lists of rows, and a function for each
--                statement or transaction.
--   Metrics      internal/metrics/metrics.go: the collectors and what they publish.
--   Scheduler    internal/scheduler/scheduler.go: one cycle over the targets, as the steps of its
--                goroutines.
--   Command      Command/Check is cmd/certel/check.go behind its flags; Command/Monitor is of
--                cmd/certel/monitor.go the runtimes of the notifiers, the liveness threshold, the
--                health check, the handler of results and the start from the store. The other
--                files of Command prove what these and the parts below them do together.
--   Examples     a target, its notifiers, stores, servers and bodies, to which the theorems are
--                applied.
--
-- How the parts meet: the manager and the dispatcher take their store as a record of operations
-- with laws (Alert/Manager/Interface, Alert/Dispatcher/Interface), as the source gives them an
-- interface; Store/Manager and Store/Dispatcher fill both with the operations of the store, and
-- Command/Monitor runs the manager on it. A send, the verification of a chain, the bytes that a
-- server sends and the clock are parameters, and so are json.Marshal, time.Format and
-- net.SplitHostPort, which Alert/Template has as its record of formats.
--
-- Errors: a call of the store takes the set of its statements that fail, counted from 0; a
-- statement that fails changes nothing, and a transaction that fails is rolled back. The keys that
-- SQLite gives to new rows are a parameter, with the documented fact that they exceed those of the
-- table.
--
-- Fuel: drain_target has fuel for its loop, one more than the rows of the queue: each round takes a
-- row away or is the last. The walk of leaf_chain has the number of the other certificates as its
-- fuel, since each step uses one of them up. The digits of a number have one more than the number,
-- since each division makes it smaller. The loops on a connection have the source's own bounds, 100
-- lines of a reply and 65,536 bytes of a dialogue. A scan goes through its text once.
--
-- Concurrency: Process holds a lock where it reads and writes its state, and a target is checked by
-- one goroutine in a cycle, so a call is one step. dispatchOnce drains several targets at once; the
-- model drains them in turn. The rows that two drains read and write are those of different targets.
-- A cycle of the scheduler is a list of steps of its goroutines, one of one goroutine at a time, in
-- any order that the slots and the context allow; the monitor handles the results in the order in
-- which they come.
--
-- Numbers: counts and ids are natural numbers, far below the bounds of the machine integers that
-- hold them; durations are integers within those bounds.
--
-- Not modelled: reading and decoding the configuration file, ListenAddress, the defaults of
-- notifiers and the texts of durations; the dial and the TLS handshake of a check; the ticker of the
-- scheduler, and Wake and Run of the dispatcher; the HTTP server,
-- flags, signals and the commands that only load a configuration or ask a server for its health;
-- cmd/notification-sink, which prints what it is sent; log lines and the texts of messages.
mod Prelude
pub mod Token
pub mod Clock
pub mod Config
pub mod Probe
pub mod Alert
pub mod Store
pub mod Metrics
pub mod Scheduler
pub mod Command
pub mod Examples
